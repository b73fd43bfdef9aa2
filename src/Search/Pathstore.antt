-- ===== src/Search/Pathstore.antt =====
-- The store of path names: assign2/pathstore.c. OpenSSL's SHA-1 is a parameter.
pub mod Contents
pub mod Descriptors
pub mod Names
use cs.Prelude.{
  ℕ, zero, suc, ◌+◌, Bool, true, false, Option, none, some, List, [], ◌∷◌, ◌==◌, ltb, if◌then◌else◌,
  replicate, same_text,
}
use cs.Fs.Inode.{Inode, UnixFilesystem}
use cs.Fs.Directory.{Name}
use cs.Fs.Checksum.{Sha, sha_digest_length, optimized_chksumfile_byinode, chksumfile_compare}
use cs.Fs.Fileops.{Files, on_image, fileops_open, fileops_close}
use cs.Fs.Fileops.Read.{Char, char, end_of_file, aborted, fileops_getchar}
use cs.Search.Outcome.{Outcome, done, assertion_failed, out_of_fuel, ◌>>=◌}

pub record PathstoreElement : Type 0 where
  pub pathname : Name
  pub pathchksumstring : List ℕ

-- The store and the module's counters.
pub record Pathstore : Type 0 where
  pub element_list : List PathstoreElement
  pub num_different_files : ℕ
  pub num_same_files : ℕ
  pub num_diff_checksum : ℕ
  pub num_dups : ℕ
  pub num_compares : ℕ
  pub num_stores : ℕ

-- The open files and the store.
abbrev pub Stored : Type 0
Stored = Files × Pathstore

-- The counters start at 0 with the program.
unfoldable pub pathstore_create : (allocated : Bool) → Option Pathstore
pathstore_create allocated =
    if allocated
    then some (record {
      element_list = [];
      num_different_files = 0;
      num_same_files = 0;
      num_diff_checksum = 0;
      num_dups = 0;
      num_compares = 0;
      num_stores = 0;
    })
    else none

-- The number of elements up to the one with the path name; `none` is -1.
unfoldable pub simple_pathname_in_store_check :
    (count : ℕ) → List PathstoreElement → Name → Option ℕ
simple_pathname_in_store_check count [] pathname = none
simple_pathname_in_store_check count (e ∷ es) pathname =
    let others = simple_pathname_in_store_check (count + 1) es pathname in
    if same_text pathname e.pathname then some (count + 1) else others

-- A character, or `none` for -1.
abbrev pub checked_char : Char × Files → Outcome (Option ℕ × Files)
checked_char (char c, st) = done (some c, st)
checked_char (end_of_file, st) = done (none, st)
checked_char (aborted, st) = assertion_failed

-- What a pair of characters says: another round, or whether they are the same.
abbrev pub compared : Option ℕ → Option ℕ → Outcome (Bool × Files) → Files → Outcome (Bool × Files)
compared none none again st = done (true, st)
compared none (some d) again st = done (false, st)
compared (some c) none again st = done (false, st)
compared (some c) (some d) again st = if c == d then again else done (false, st)

abbrev pub count_result : Bool → Pathstore → Pathstore
count_result true store = record store { num_same_files = store.num_same_files + 1 }
count_result false store = record store { num_different_files = store.num_different_files + 1 }

-- `at` gives the addresses of the inodes in the slots.
module _ (fs : UnixFilesystem) (at : ℕ → ℕ) where
  -- The loop over two open files, each with its next character.
  unfoldable pub same_content : (fuel : ℕ) → (fd1 fd2 : ℕ) → Files → Outcome (Bool × Files)
  unfolding fileops_getchar
  same_content zero fd1 fd2 st = out_of_fuel
  same_content (suc n) fd1 fd2 st = checked_char (fileops_getchar fs at fd1 st) >>= λ (ch1, st1).
      checked_char (fileops_getchar fs at fd2 st1) >>= λ (ch2, st2).
      compared ch1 ch2 (same_content n fd1 fd2 st2) st2

-- `local` is the address of the local inode of `directory_findname` and `inp` of that of
-- `fileops_open`.
module _ (fs : UnixFilesystem) (at : ℕ → ℕ) (local inp : ℕ) (fuel : ℕ) where
  -- Both files are closed after the comparison, and the result is counted.
  abbrev pub compare_open : (fd1 fd2 : ℕ) → Files → Pathstore → Outcome (Bool × Stored)
  compare_open fd1 fd2 st store = same_content fs at fuel fd1 fd2 st >>= λ (same, st1).
      let st2 = (fileops_close fd1 st1).1 in
      let st3 = (fileops_close fd2 st2).1 in done (same, (st3, count_result same store))

  abbrev pub open_second : Option ℕ × Files → (fd1 : ℕ) → Pathstore → Outcome (Bool × Stored)
  open_second (none, st) fd1 store = done (false, ((fileops_close fd1 st).1, store))
  open_second (some fd2, st) fd1 store = compare_open fd1 fd2 st store

  abbrev pub open_first :
      Option ℕ × Files → (pathname2 : Name) → Pathstore → Outcome (Bool × Stored)
  open_first (none, st) pathname2 store = done (false, (st, store))
  open_first (some fd1, st) pathname2 store =
      open_second (fileops_open fs pathname2 local inp st) fd1 store

  unfoldable pub is_same_file :
      (pathname1 pathname2 : Name)
      → (pathchksumstring incoming : List ℕ) → Stored
      → Outcome (Bool × Stored)
  unfolding same_content fileops_open fileops_close
  is_same_file pathname1 pathname2 pathchksumstring incoming (st, store) =
      let store1 : Pathstore = record store { num_compares = store.num_compares + 1 } in
      let opened = open_first (fileops_open fs pathname1 local inp st) pathname2 store1 in
      if chksumfile_compare pathchksumstring incoming
      then opened
      else done (false, (st, record store1 { num_diff_checksum = store1.num_diff_checksum + 1 }))

  unfoldable pub same_file_is_in_store :
      List PathstoreElement
      → (pathname : Name) → (incoming : List ℕ) → Stored
      → Outcome (Bool × Stored)
  unfolding is_same_file
  same_file_is_in_store [] pathname incoming st = done (false, st)
  same_file_is_in_store (e ∷ es) pathname incoming st =
      is_same_file pathname e.pathname e.pathchksumstring incoming st >>= λ (same, st').
      let others = same_file_is_in_store es pathname incoming st' in
      if same then done (true, st') else others

  -- `allocated` is about the memory of an element, and `chksum` what its checksum then holds.
  abbrev pub add_element :
      (allocated : Bool) → Name → (chksum : List ℕ) → Stored → Outcome (Option Name × Stored)
  add_element allocated pathname chksum (st, store) =
      if allocated
      then done (
        some pathname,
        (
          st,
          record store {
            element_list =
                record { pathname = pathname; pathchksumstring = chksum } ∷ store.element_list;
          },
        ),
      )
      else done (none, (st, store))

  abbrev pub count_dup : Stored → Outcome (Option Name × Stored)
  count_dup (st, store) = done (none, (st, record store { num_dups = store.num_dups + 1 }))

  abbrev pub unless_same :
      (allocated : Bool)
      → Name
      → (incoming : List ℕ) → Bool × Stored
      → Outcome (Option Name × Stored)
  unless_same allocated pathname incoming (same, st) =
      if same then count_dup st else add_element allocated pathname incoming st

  -- The checksum's bytes, or 20 zeros where it fails.
  abbrev pub chksum_or_zeros : Option (List ℕ) → List ℕ
  chksum_or_zeros none = replicate sha_digest_length 0
  chksum_or_zeros (some chksum) = chksum

  abbrev pub store_new :
      (allocated : Bool)
      → Name
      → Option (List ℕ) × Files
      → Pathstore
      → Outcome (Option Name × Stored)
  store_new allocated pathname (chksum, st) store =
      same_file_is_in_store store.element_list pathname (chksum_or_zeros chksum) (st, store)
      >>= unless_same allocated pathname (chksum_or_zeros chksum)

  -- What the simple check says first, and the checksum of the file, which is taken if it says -1.
  abbrev pub store_unless_known :
      Option ℕ
      → (allocated : Bool) → Name
      → Option (List ℕ) × Files
      → Stored
      → Outcome (Option Name × Stored)
  store_unless_known (some count) allocated pathname chksum (st, store) =
      count_dup (st, record store { num_compares = store.num_compares + count })
  store_unless_known none allocated pathname chksum (st, store) =
      store_new allocated pathname chksum store

  -- `garbage` is what the memory of a new element holds, and `at_inode` the address of the inode.
  unfoldable pub pathstore_path :
      {Context : Type 0}
      → Sha Context
      → (allocated : Bool) → (garbage : List ℕ) → (pathname : Name)
      → (discard_duplicate_files : Bool) → (at_inode : ℕ) → Inode
      → (iget_ok : Bool) → Stored
      → Outcome (Option Name × Stored)
  unfolding simple_pathname_in_store_check same_file_is_in_store
  pathstore_path sha allocated garbage pathname false at_inode inode ok (st, store) =
      add_element allocated pathname garbage
        (st, record store { num_stores = store.num_stores + 1 })
  pathstore_path sha allocated garbage pathname true at_inode inode ok (st, store) =
      store_unless_known (simple_pathname_in_store_check 0 store.element_list pathname) allocated
        pathname (on_image (optimized_chksumfile_byinode sha fs at_inode inode ok st.image) st)
        (st, record store { num_stores = store.num_stores + 1 })
