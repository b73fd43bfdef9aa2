-- ===== src/Search/Query.antt =====
-- Building the index and asking for words: assign2/disksearch.c.
pub mod Newlines
use cs.Prelude.{
  ℕ, Bool, true, false, Option, none, some, List, [], ◌∷◌, if◌then◌else◌, map, ◌-◌, ◌==◌, ◌||◌,
  ◌++◌, ltb, length,
}
use cs.Fs.Disk.{Disk}
use cs.Fs.Inode.{UnixFilesystem, root_inumber}
use cs.Fs.Checksum.{Sha}
use cs.Fs.Fileops.{Files, fileops_init}
use cs.Search.Outcome.{Outcome, done, ◌>>=◌}
use cs.Search.Index.{Text, IndexLocation, Lhash, Index, index_create, index_retrieve_entry}
use cs.Search.Pathstore.{Pathstore, pathstore_create}
use cs.Search.Scan.{Scanner}
use cs.Search.Tree.{until_nul, scan_tree_and_index}

-- A line of the output.
pub data Line : Type 0 where
  not_found : Text → Line
  found : Text → IndexLocation → Line

-- Whether the memory of the file system, of the path store and of the index is given.
pub record Memory : Type 0 where
  pub for_filesystem : Bool
  pub for_store : Bool
  pub for_index : Bool

-- The size of the array for a line.
abbrev pub line_size : ℕ
line_size = 65

-- The line that goes on and the lines after it.
abbrev pub next_lines : List ℕ × List Text → List Text
next_lines ([], ls) = ls
next_lines (c ∷ cs, ls) = (c ∷ cs) ∷ ls

-- `fgets` again and again: a line ends with its newline, or where there is no room for one more
-- character.
unfoldable pub fgets : (room : ℕ) → List ℕ → List ℕ × List Text
fgets room [] = ([], [])
fgets room (c ∷ cs) =
    let ends = c == b'\n' || room == 0 in
    let r = fgets (if ends then line_size - 2 else room - 1) cs in
    if ends then (c ∷ [], next_lines r) else (c ∷ r.0, r.1)

abbrev pub lines_of : List ℕ → List Text
lines_of content = next_lines (fgets (line_size - 2) content)

-- A newline at the end is left out.
unfoldable pub strip_newline : Text → Text
strip_newline [] = []
strip_newline (c ∷ []) = if c == b'\n' then [] else c ∷ []
strip_newline (c ∷ d ∷ cs) = c ∷ strip_newline (d ∷ cs)

module _ {Table : Type 0} (lh : Lhash Table) where
  abbrev pub print_locations :
      Text → (printed : Bool) → List IndexLocation × Index Table → (Bool × List Line) × Index Table
  print_locations word printed ([], ind) =
      ((false, if printed then not_found word ∷ [] else []), ind)
  print_locations word printed (l ∷ ls, ind) =
      ((true, if printed then map (found word) (l ∷ ls) else []), ind)

  -- `printed` says whether there is a file to print to. True is 1 and false is 0.
  unfoldable pub query_word :
      Text → (printed : Bool) → Index Table → (Bool × List Line) × Index Table
  unfolding index_retrieve_entry
  query_word word printed ind = print_locations word printed (index_retrieve_entry lh word ind)

  -- The word is asked for twice, and printed the first time.
  unfoldable pub test_service_by_single_word : Text → Index Table → List Line × Index Table
  unfolding query_word
  test_service_by_single_word word ind =
      let ((ret, lines), ind1) = query_word word true ind in
      let (ret', ind2) = query_word word false ind1 in (lines, ind2)

  -- The first loop over the lines. A line of no characters before a NUL is passed over.
  unfoldable pub ask_stripped : List Text → Index Table → List Line × Index Table
  unfolding query_word strip_newline until_nul
  ask_stripped [] ind = ([], ind)
  ask_stripped (line ∷ ls) ind =
      let text = until_nul line in
      let (r, ind1) = query_word (strip_newline text) true ind in
      let asked = ltb 0 (length text) in
      let (rest, ind2) = ask_stripped ls (if asked then ind1 else ind) in
      (if asked then r.1 ++ rest else rest, ind2)

  -- The second loop, which prints nothing; the results are those of its calls.
  unfoldable pub ask_lines : List Text → Index Table → List Bool × Index Table
  unfolding query_word until_nul
  ask_lines [] ind = ([], ind)
  ask_lines (line ∷ ls) ind =
      let (r, ind1) = query_word (until_nul line) false ind in
      let (rest, ind2) = ask_lines ls ind1 in (r.0 ∷ rest, ind2)

  -- `none` is a file that cannot be opened, which ends the program.
  unfoldable pub test_service_by_file_of_words :
      Option (List ℕ) → Index Table → Option ((List Line × List Bool) × Index Table)
  unfolding fgets ask_stripped ask_lines
  test_service_by_file_of_words none ind = none
  test_service_by_file_of_words (some content) ind =
      let (printed, ind1) = ask_stripped (lines_of content) ind in
      let (timed, ind2) = ask_lines (lines_of content) ind1 in some ((printed, timed), ind2)

  module _ {Context : Type 0} (sha : Sha Context) (allocated : Index Table → Bool) (at : ℕ → ℕ)
      (beyond : List ℕ) (local1 local2 fuel : ℕ) (element_allocated : Pathstore → Bool)
      (garbage : List ℕ) (inp : ℕ → ℕ) (depth : ℕ) where
    -- A walk that fails ends the program, as do what is missing before; `none` is that end.
    abbrev pub when_indexed : Bool × Scanner Table → Outcome (Option (Scanner Table))
    when_indexed (true, s) = done (some s)
    when_indexed (false, s) = done none

    abbrev pub index_files :
        UnixFilesystem
        → Files
        → Option Pathstore
        → Option (Index Table)
        → Outcome (Option (Scanner Table))
    index_files fs files none ind = done none
    index_files fs files (some store) none = done none
    index_files fs files (some store) (some ind) =
        scan_tree_and_index lh allocated fs at beyond sha local1 local2 fuel element_allocated
          garbage true inp depth (b'/' ∷ []) root_inumber
          (record {
            files = files;
            store = store;
            ind = ind;
            num_files = 0;
            num_words = 0;
            num_chars = 0;
            num_dups = 0;
            num_dirs = 0;
            num_dirents = 0;
          })
        >>= when_indexed

    abbrev pub index_filesystem :
        Memory → Option UnixFilesystem × Files → Outcome (Option (Scanner Table))
    index_filesystem memory (none, files) = done none
    index_filesystem memory (some fs, files) =
        index_files fs files (pathstore_create memory.for_store) (index_create lh memory.for_index)

    -- `opened` says whether the image can be opened, and the disk is what it holds.
    unfoldable pub build_disk_index :
        Memory → (opened : Bool) → Disk → Files → Outcome (Option (Scanner Table))
    unfolding fileops_init pathstore_create index_create scan_tree_and_index
    build_disk_index memory opened d files =
        index_filesystem memory (fileops_init memory.for_filesystem opened d files)
