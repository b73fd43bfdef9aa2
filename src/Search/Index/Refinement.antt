-- ===== src/Search/Index/Refinement.antt =====
-- The index of assign2/index.c implements a function from words to their locations.
use cs.Prelude.{
  ℕ, ◌+◌, ◌≡◌, ◌↔◌, ◌⊎◌, refl, sym, ◌∙◌, ap, Bool, true, false, Option, none, some, List, ◌∷◌,
  if◌then◌else◌, length, Bool-cases, Option-cases, inl, inr, arith, same_text,
}
use cs.Search.Index.{
  Text, IndexLocation, Lhash, Index, new_entry, store_at, index_store_entry, location_list_at,
  index_retrieve_entry,
}
use cs.Search.Index.Entries.{
  IsIndex, locations, put, add_location-IsIndex, add_location-locations, append-IsIndex,
  append-locations,
}

-- What OpenSSL documents of its hash table: a new one is empty; an insertion that reports no error adds
-- the address under its keyword, and one that reports an error changes nothing.
pub record IsLhash {Table : Type 0} (lh : Lhash Table) : Type 0 where
  pub retrieve-new : (k : Text) → lh.lh_retrieve lh.lh_new k ≡ none
  pub retrieve-insert :
      (t : Table) (k k' : Text) (a : ℕ)
      → lh.lh_error (lh.lh_insert t k a) ≡ false
      → lh.lh_retrieve (lh.lh_insert t k a) k'
        ≡ (if same_text k k' then some a else lh.lh_retrieve t k')
  pub retrieve-error :
      (t : Table) (k k' : Text) (a : ℕ)
      → lh.lh_error (lh.lh_insert t k a) ≡ true
      → lh.lh_retrieve (lh.lh_insert t k a) k' ≡ lh.lh_retrieve t k'

module _ {Table : Type 0} (lh : Lhash Table) (laws : IsLhash lh) where
  -- The locations of each word are those that the function gives.
  abbrev pub Implements : Index Table → (Text → List IndexLocation) → Type 0
  Implements ind f = IsIndex lh ind × ((k : Text) → locations lh ind k ≡ f k)

  put_ext :
      (k : Text) (new : IndexLocation) (f g : Text → List IndexLocation)
      → ((k' : Text) → f k' ≡ g k')
      → (k' : Text) → put lh k new f k' ≡ put lh k new g k'
  put_ext k new f g same k' = ap (λ l. if same_text k k' then new ∷ l else l) (same k')

  -- What a store makes of an index: the location is put, or nothing changes.
  abbrev pub IsStored :
      Text → IndexLocation → (Text → List IndexLocation) → Bool × Index Table → Type 0
  IsStored k new f (true, ind) = Implements ind (put lh k new f)
  IsStored k new f (false, ind) = Implements ind f

  new_entry-IsStored :
      (k : Text) (new : IndexLocation) (ind : Index Table) (f : Text → List IndexLocation)
      → Implements ind f
      → lh.lh_retrieve ind.table k ≡ none
      → IsStored k new f (new_entry lh k new ind)
  new_entry-IsStored k new ind f (h, is) r =
      let t : Table = lh.lh_insert ind.table k (length ind.entries) in
      elim (Bool-cases (lh.lh_error t)) [
        | inl bad ↦
            let found =
              λ (k' : Text). laws.retrieve-error ind.table k k' (length ind.entries) bad in
            rw (bad) (
              λ k' a r'. h k' a (sym (found k') ∙ r'),
              λ k'. ap (λ o. location_list_at o ind.entries) (found k') ∙ is k',
            )
        | inr good ↦
            let found =
              λ (k' : Text). laws.retrieve-insert ind.table k k' (length ind.entries) good in
            rw (good) (
              append-IsIndex lh k new ind t h found,
              λ k'.
                  append-locations lh k new ind t h r found k'
                  ∙ put_ext k new (locations lh ind) f is k',
            )
      ]

  store_at-IsStored :
      (allocated : Bool) (o : Option ℕ) (k : Text) (new : IndexLocation) (ind : Index Table)
      (f : Text → List IndexLocation)
      → Implements ind f
      → lh.lh_retrieve ind.table k ≡ o
      → IsStored k new f (store_at lh allocated o k new ind)
  store_at-IsStored allocated (some a) k new ind f (h, is) r = (
    add_location-IsIndex lh k new ind a h r,
    λ k'. add_location-locations lh k new ind a h r k' ∙ put_ext k new (locations lh ind) f is k',
  )
  store_at-IsStored true none k new ind f (h, is) r = new_entry-IsStored k new ind f (h, is) r
  store_at-IsStored false none k new ind f (h, is) r = (h, is)

  -- With a hash table that does what OpenSSL documents: of an index that implements a function,
  -- `Index_StoreEntry` makes one that implements the function with the location put before the others of
  -- the word, if it returns true, and one that implements the same function, if it returns false.
  pub index_store_entry-IsStored :
      (allocated : Bool) (k pathname : Text) (offset : Option ℕ) (ind : Index Table)
      (f : Text → List IndexLocation)
      → Implements ind f
      → IsStored k
          (record { pathname = pathname; offset = offset })
          f
          (index_store_entry lh allocated k pathname offset ind)
  unfolding index_store_entry
  index_store_entry-IsStored allocated k pathname offset ind f h =
      store_at-IsStored allocated (lh.lh_retrieve ind.table k) k
        (record { pathname = pathname; offset = offset })
        (record ind { num_stores = ind.num_stores + 1 }) f h refl

  -- With a hash table that does what OpenSSL documents: of an index that implements a function,
  -- `Index_RetrieveEntry` returns the list that the function gives for the word, and leaves an index
  -- that implements the same function.
  pub index_retrieve_entry-Implements :
      (k : Text) (ind : Index Table) (f : Text → List IndexLocation)
      → Implements ind f
      → ((index_retrieve_entry lh k ind).0 ≡ f k) × Implements (index_retrieve_entry lh k ind).1 f
  unfolding index_retrieve_entry
  index_retrieve_entry-Implements k ind f (h, is) = (is k, (h, is))

  -- `Index_StoreEntry` returns false exactly when the word has no entry and either there is no memory
  -- for one or the hash table reports an error.
  pub index_store_entry-fails :
      (allocated : Bool) (k pathname : Text) (offset : Option ℕ) (ind : Index Table)
      → ((index_store_entry lh allocated k pathname offset ind).0 ≡ false) ↔ (
          (lh.lh_retrieve ind.table k ≡ none)
          × ((allocated ≡ false)
              ⊎ (lh.lh_error (lh.lh_insert ind.table k (length ind.entries)) ≡ true)))
  unfolding index_store_entry
  index_store_entry-fails allocated k pathname offset ind =
      elim (Option-cases (lh.lh_retrieve ind.table k)) [
        | inl r ↦
            let e = Bool-cases (lh.lh_error (lh.lh_insert ind.table k (length ind.entries))) in
            let m = Bool-cases allocated in ground (arith, r, e, m)
        | inr (a, r) ↦ ground (arith, r)
      ]
