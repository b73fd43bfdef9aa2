-- ===== src/Search/Index.antt =====
-- The index of words: assign2/index.c. OpenSSL's hash table is a parameter.
pub mod Entries
pub mod Refinement
pub mod Session
use cs.Prelude.{
  ℕ, zero, suc, ◌+◌, Bool, true, false, Option, none, some, List, [], ◌∷◌, ◌++◌, if◌then◌else◌,
  length, get_elem?,
}

abbrev pub Text : Type 0
Text = List ℕ

-- An offset of `none` is -1.
pub record IndexLocation : Type 0 where
  pub pathname : Text
  pub offset : Option ℕ

pub record IndexHashEntry : Type 0 where
  pub keyword : Text
  pub location_list : List IndexLocation

-- The hash table holds the addresses of entries. It finds them by their keywords, which the two
-- callbacks read and which never change. `lh_error` is asked after an insertion.
pub record Lhash (Table : Type 0) : Type 0 where
  pub lh_new : Table
  pub lh_retrieve : Table → Text → Option ℕ
  pub lh_insert : Table → Text → ℕ → Table
  pub lh_error : Table → Bool

-- The memory of the entries, at the addresses 0, 1, 2, and so on, and the module's counters.
pub record Index (Table : Type 0) : Type 0 where
  pub table : Table
  pub entries : List IndexHashEntry
  pub num_stores : ℕ
  pub num_lookups : ℕ
  pub num_entriesalloc : ℕ

-- A location before the others of the entry at an address.
unfoldable pub add_location : IndexLocation → ℕ → List IndexHashEntry → List IndexHashEntry
add_location new a [] = []
add_location new zero (e ∷ es) = record e { location_list = new ∷ e.location_list } ∷ es
add_location new (suc a) (e ∷ es) = e ∷ add_location new a es

abbrev pub list_of : Option IndexHashEntry → List IndexLocation
list_of none = []
list_of (some e) = e.location_list

abbrev pub location_list_at : Option ℕ → List IndexHashEntry → List IndexLocation
location_list_at none es = []
location_list_at (some a) es = list_of (get_elem? es a)

module _ {Table : Type 0} (lh : Lhash Table) where
  -- `allocated` says whether `malloc` gives memory. The counters start at 0 with the program.
  unfoldable pub index_create : (allocated : Bool) → Option (Index Table)
  index_create allocated =
      if allocated
      then some (record {
        table = lh.lh_new;
        entries = [];
        num_stores = 0;
        num_lookups = 0;
        num_entriesalloc = 0;
      })
      else none

  abbrev pub new_entry : Text → IndexLocation → Index Table → Bool × Index Table
  new_entry keyword new ind =
      let counted : Index Table = record ind { num_entriesalloc = ind.num_entriesalloc + 1 } in
      let table = lh.lh_insert ind.table keyword (length ind.entries) in
      if lh.lh_error table then (false, record counted { table = table }) else (
        true,
        record counted {
          table = table;
          entries = ind.entries ++ record { keyword = keyword; location_list = new ∷ [] } ∷ [];
        },
      )

  abbrev pub store_at :
      (allocated : Bool) → Option ℕ → Text → IndexLocation → Index Table → Bool × Index Table
  store_at allocated (some a) keyword new ind =
      (true, record ind { entries = add_location new a ind.entries })
  store_at allocated none keyword new ind =
      if allocated then new_entry keyword new ind else (false, ind)

  -- `allocated` is about the memory of an entry.
  unfoldable pub index_store_entry :
      (allocated : Bool)
      → (keyword pathname : Text) → (offset : Option ℕ) → Index Table
      → Bool × Index Table
  unfolding add_location
  index_store_entry allocated keyword pathname offset ind =
      store_at allocated (lh.lh_retrieve ind.table keyword) keyword
        (record { pathname = pathname; offset = offset })
        (record ind { num_stores = ind.num_stores + 1 })

  -- NULL is the empty list.
  unfoldable pub index_retrieve_entry :
      (keyword : Text) → Index Table → List IndexLocation × Index Table
  index_retrieve_entry keyword ind = (
    location_list_at (lh.lh_retrieve ind.table keyword) ind.entries,
    record ind { num_lookups = ind.num_lookups + 1 },
  )
