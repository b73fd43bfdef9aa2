-- ===== src/Search/Tests.antt =====
-- The search program of assign2 at work, on a disk with one file.
use cs.Prelude.{
  zero, suc, ◌<◌, inl, same_text_self, ℕ, ◌+◌, ◌≡◌, ◌≢◌, refl, Bool, true, false, Option, none,
  some, List, [], ◌∷◌, if◌then◌else◌, arith, same_text,
}
use mathlib.Core.Option
use cs.Fs.Disk.{disksim_readsector}
use cs.Fs.Inode.{inode_getsize}
use cs.Fs.File.{valid_bytes}
use cs.Fs.Fileops.{Files, find_slot, optimized_fileops_open}
use cs.Fs.Directory.{Name}
use cs.Fs.File.Contents.{file_bytes}
use cs.Fs.Fileops.Stream.{IsReader, IsStream, fileops_getchar-IsStream}
use cs.Fs.Tests.Store.{disk, disk-IsWhole, fs, start-IsFaithful, file}
use cs.Fs.Tests.Files.{a, plain, text}
use cs.Fs.Tests.Descriptors.{files, name, opened, opened-IsReading}
use cs.Search.Outcome.{Outcome, done, assertion_failed, out_of_fuel}
use cs.Search.Index.{
  Text, IndexLocation, Lhash, Index, index_create, index_retrieve_entry, index_store_entry,
  add_location,
}
use cs.Search.Index.Refinement.{IsLhash, Implements}
use cs.Search.Index.Session.{Occurrence, newest, store_all, index_retrieve_entry-store_all}
use cs.Search.Words.{split}
use cs.Search.Pathstore.{
  Pathstore, pathstore_path, same_content, same_file_is_in_store, Stored,
  simple_pathname_in_store_check,
}
use cs.Search.Pathstore.Contents.{same_content-same_text, same_content-ends}
use cs.Search.Pathstore.Names.{IsNew, IsDistinct, pathstore_path-IsDistinct, pathstore_path-known}
use cs.Search.Scan.{Scanner, scan_open, scan_file}
use cs.Search.Scan.Indexing.{IsPut, scan_file-IsPut}
use cs.Search.Scan.Positions.{HasPlaces, scan_file-HasPlaces}
use cs.Search.Scan.Termination.{scan_open-Ends}

-- A hash table as a list, the last insertion first.
abbrev pub Table : Type 0
Table = List (Text × ℕ)

unfoldable pub retrieve : Table → Text → Option ℕ
retrieve [] k = none
retrieve ((k', a) ∷ t) k = if same_text k' k then some a else retrieve t k

abbrev pub lh : Lhash Table
lh = record {
  lh_new = [];
  lh_retrieve = retrieve;
  lh_insert = λ t k a. (k, a) ∷ t;
  lh_error = λ t. false;
}

pub lh-IsLhash : IsLhash lh
unfolding retrieve
lh-IsLhash = record {
  retrieve-new = λ k. refl;
  retrieve-insert = λ t k k' a h. refl;
  retrieve-error = λ t k k' a h. ground (arith, h);
}

abbrev pub allocated : Index Table → Bool
allocated ind = true

abbrev pub empty_index : Index Table
empty_index = record {
  table = [];
  entries = [];
  num_stores = 0;
  num_lookups = 0;
  num_entriesalloc = 0;
}

abbrev pub nothing : Text → List IndexLocation
nothing k = []

pub empty_index-Implements : Implements lh lh-IsLhash empty_index nothing
unfolding retrieve
empty_index-Implements = (λ k a h. ground (arith, h), λ k. refl)

-- The index with one word.
abbrev pub filled : Index Table
filled = record {
  table = (text, 0) ∷ [];
  entries =
      record { keyword = text; location_list = record { pathname = name; offset = some 1 } ∷ [] }
      ∷ [];
  num_stores = 1;
  num_lookups = 0;
  num_entriesalloc = 1;
}

abbrev pub calls : List Occurrence
calls = (text, record { pathname = name; offset = some 1 }) ∷ []

pub calls_store : store_all lh allocated calls empty_index ≡ some filled
unfolding store_all index_store_entry retrieve add_location
calls_store = refl

index_retrieve_entry-store_all_example :
    (index_retrieve_entry lh text filled).0 ≡ newest calls nothing text
index_retrieve_entry-store_all_example =
    index_retrieve_entry-store_all lh allocated lh-IsLhash calls empty_index filled text
      (unfold index_create in refl) calls_store

file_has_bytes : file_bytes disk file 3 0 ≡ some text
unfolding file_bytes inode_getsize valid_bytes disksim_readsector Option.bind
file_has_bytes = refl

fileops_getchar-IsStream_example : (st' : Files) × IsStream fs (λ fd. 9) 0 text 0 opened st'
unfolding optimized_fileops_open find_slot inode_getsize
fileops_getchar-IsStream_example =
    fileops_getchar-IsStream fs disk-IsWhole (λ fd. 9) 0 opened text opened-IsReading file_has_bytes

abbrev pub store : Pathstore
store = record {
  element_list = [];
  num_different_files = 0;
  num_same_files = 0;
  num_diff_checksum = 0;
  num_dups = 0;
  num_compares = 0;
  num_stores = 0;
}

abbrev pub scanner : Scanner Table
scanner = record {
  files = files;
  store = store;
  ind = empty_index;
  num_files = 0;
  num_words = 0;
  num_chars = 0;
  num_dups = 0;
  num_dirs = 0;
  num_dirents = 0;
}

abbrev stored : Pathstore
stored = record store {
  element_list = record { pathname = name; pathchksumstring = [] } ∷ [];
  num_stores = 1;
}

scan_file-IsPut_example :
    IsPut lh lh-IsLhash allocated fs disk-IsWhole
      (λ fd. 9)
      0
      name
      text
      nothing
      (scan_file lh allocated fs (λ fd. 9) plain 7 8 3 true [] name false 2 file 9 true scanner)
unfolding split find_slot inode_getsize
scan_file-IsPut_example =
    scan_file-IsPut lh lh-IsLhash allocated fs disk-IsWhole (λ fd. 9) plain 7 8 3 true [] name name
      false 2 file 9 0 scanner files stored text filled nothing (unfold pathstore_path in refl)
      start-IsFaithful refl refl refl file_has_bytes (omega arith) calls_store
      empty_index-Implements

scan_file-HasPlaces_example :
    HasPlaces lh lh-IsLhash allocated fs disk-IsWhole
      (λ fd. 9)
      name
      text
      (scan_file lh allocated fs (λ fd. 9) plain 7 8 3 true [] name false 2 file 9 true scanner)
unfolding split find_slot inode_getsize
scan_file-HasPlaces_example =
    scan_file-HasPlaces lh lh-IsLhash allocated fs disk-IsWhole (λ fd. 9) plain 7 8 3 true [] name
      name false 2 file 9 0 scanner files stored text filled (unfold pathstore_path in refl)
      start-IsFaithful refl refl refl file_has_bytes (omega arith) calls_store
      empty_index-Implements

scan_open-Ends_example :
    scan_open lh allocated fs (λ fd. 9) 3 0 name (record scanner { files = opened }) ≢ out_of_fuel
unfolding inode_getsize optimized_fileops_open find_slot
scan_open-Ends_example =
    scan_open-Ends lh allocated fs (λ fd. 9) 0 3 name (record scanner { files = opened })
      (omega arith)

-- The file opened twice.
abbrev both : Files
both = (optimized_fileops_open name (some 2) file 9 true opened).1

reader : (fd : ℕ) → fd < 2 → IsReader fs disk-IsWhole (λ fd. 9) fd file 0 text both
unfolding optimized_fileops_open find_slot inode_getsize
reader zero h = record {
  reading = record {
    in_table = omega arith;
    is_open = refl;
    is_in_use = refl;
    has_inode = refl;
    window = (refl, inl refl);
    faithful = start-IsFaithful;
  };
  at_cursor = refl;
  at_inode = refl;
  bytes = file_has_bytes;
}
reader (suc zero) h = record {
  reading = record {
    in_table = omega arith;
    is_open = refl;
    is_in_use = refl;
    has_inode = refl;
    window = (refl, inl refl);
    faithful = start-IsFaithful;
  };
  at_cursor = refl;
  at_inode = refl;
  bytes = file_has_bytes;
}
reader (suc (suc n)) h = ground (arith, h)

same_content-same_text_example :
    (st' : Files) × (same_content fs (λ fd. 9) 4 0 1 both ≡ done (same_text text text, st'))
same_content-same_text_example =
    same_content-same_text fs disk-IsWhole (λ fd. 9) 4 0 1 file file 0 0 text text both
      (omega arith) (omega arith) (reader 0 (omega arith)) (reader 1 (omega arith))

same_content-ends_example : same_content fs (λ fd. 9) 4 0 1 both ≢ out_of_fuel
unfolding optimized_fileops_open find_slot inode_getsize
same_content-ends_example = same_content-ends fs (λ fd. 9) 4 0 1 both (omega arith) (omega arith)

name_is_known : ¬ IsNew name stored.element_list
name_is_known h = ground (arith, h, same_text_self name)

pathstore_path-known_example :
    (store' : Pathstore) × (pathstore_path fs
        (λ fd. 9)
        7
        8
        4
        plain
        true
        []
        name
        true
        9
        file
        true
        (files, stored)
      ≡ done (none, (files, store')))
    × (store'.element_list ≡ stored.element_list)
    × (store'.num_dups ≡ stored.num_dups + 1)
pathstore_path-known_example =
    pathstore_path-known fs (λ fd. 9) 7 8 4 plain true [] name 9 file true files stored
      name_is_known

-- What the store and the open files are once the file is put into an empty store.
abbrev kept : Outcome (Option Name × Stored) → Option Name × Stored
kept (done r) = r
kept assertion_failed = (none, (files, store))
kept out_of_fuel = (none, (files, store))

abbrev put_first : Outcome (Option Name × Stored)
put_first = pathstore_path fs (λ fd. 9) 7 8 4 plain true [] name true 9 file true (files, store)

pathstore_path-IsDistinct_example : IsDistinct (kept put_first).1.1.element_list
pathstore_path-IsDistinct_example =
    pathstore_path-IsDistinct fs (λ fd. 9) 7 8 4 plain true [] name 9 file true files store
      (kept put_first) tt
      (unfold pathstore_path simple_pathname_in_store_check same_file_is_in_store in refl)
