-- ===== src/Search/Walks.antt =====
-- The walk over the directories of assign2/scan.c and the queries of assign2/disksearch.c at work, on a
-- disk with one directory and one file.
use cs.Prelude.{ℕ, arith, false, ◌+◌, ◌≡◌, refl, true, some, List, [], ◌∷◌, ◌++◌, Bool}
use cs.Fs.Tests.Store.{fs}
use cs.Fs.Tests.Files.{plain, text}
use cs.Search.Outcome.{Outcome, done, assertion_failed, out_of_fuel}
use cs.Search.Query.{Line, found, query_word, test_service_by_file_of_words}
use cs.Search.Scan.{Scanner}
use cs.Search.Tree.{scan_tree_and_index}
use cs.Search.Tree.Descriptors.{scan_tree_and_index-IsOpenAs}
use cs.Fs.Fileops.Open.{IsOpenAs}
use cs.Fs.Tests.Descriptors.{name}
use cs.Search.Words.{words}
use cs.Search.Scan.Loops.{occurrences}
use cs.Search.Index.Refinement.{Implements}
use cs.Search.Index.Session.{newest, store_all-Implements}
use cs.Search.Index.{Index}
use cs.Search.Query.Newlines.{text_of, answers, test_service_by_file_of_words-newline}
use cs.Search.Tests.{
  lh-IsLhash, filled, nothing, calls, calls_store, empty_index, empty_index-Implements, Table, lh,
  allocated, scanner, retrieve,
}

abbrev walked : Outcome (Bool × Scanner Table)
walked =
    scan_tree_and_index lh allocated fs (λ fd. 9) [] plain 7 8 20 (λ store. true) [] true
      (λ depth. 100 + depth) 3 (b'/' ∷ []) 1 scanner

abbrev asked : Outcome (Bool × Scanner Table) → Bool × List Line
asked (done (ret, s)) = (query_word lh text true s.ind).0
asked assertion_failed = (true, [])
asked out_of_fuel = (true, [])

file_is_found :
    asked walked ≡ (true, found text (record { pathname = b'/' ∷ b'a' ∷ []; offset = some 1 }) ∷ [])
unfolding scan_tree_and_index cs.Fs.Inode.inode_iget cs.Fs.Image.read_whole
    cs.Fs.Image.diskimg_readsector cs.Fs.Cache.fetch_sector_in_cache cs.Fs.Cache.max_cache_line
    cs.Fs.Cache.line_index cs.Fs.Disk.disksim_readsector cs.Fs.Inode.inode_getsize
    cs.Fs.File.num_blocks cs.Fs.File.file_getblock_optimized cs.Fs.Cache.save_sector_in_cache
    cs.Prelude.same_text cs.Fs.Checksum.optimized_chksumfile_byinode retrieve query_word
file_is_found = refl

-- The state after the walk.
abbrev scanned : Outcome (Bool × Scanner Table) → Bool × Scanner Table
scanned (done r) = r
scanned assertion_failed = (false, scanner)
scanned out_of_fuel = (false, scanner)

abbrev is_done : Outcome (Bool × Scanner Table) → Bool
is_done (done r) = true
is_done assertion_failed = false
is_done out_of_fuel = false

done-scanned :
    (r : Outcome (Bool × Scanner Table))
    → is_done r ≡ true
    → r ≡ done ((scanned r).0, (scanned r).1)
done-scanned (done r) h = refl
done-scanned assertion_failed h = ground (arith, h)
done-scanned out_of_fuel h = ground (arith, h)

walk_is_done : is_done walked ≡ true
unfolding scan_tree_and_index cs.Fs.Inode.inode_iget cs.Fs.Image.read_whole
    cs.Fs.Image.diskimg_readsector cs.Fs.Cache.fetch_sector_in_cache cs.Fs.Cache.max_cache_line
    cs.Fs.Cache.line_index cs.Fs.Disk.disksim_readsector cs.Fs.Inode.inode_getsize
    cs.Fs.File.num_blocks cs.Fs.File.file_getblock_optimized cs.Fs.Cache.save_sector_in_cache
    cs.Prelude.same_text cs.Fs.Checksum.optimized_chksumfile_byinode retrieve
walk_is_done = refl

scan_tree_and_index-IsOpenAs_example : IsOpenAs scanner.files (scanned walked).1.files
scan_tree_and_index-IsOpenAs_example =
    scan_tree_and_index-IsOpenAs lh allocated fs (λ fd. 9) [] plain 7 8 20 (λ store. true) [] true
      (λ depth. 100 + depth) 3 (b'/' ∷ []) 1 scanner (scanned walked).1 (scanned walked).0
      (done-scanned walked walk_is_done)

filled-Implements :
    Implements lh lh-IsLhash filled (newest (occurrences name (words 0 text)) nothing)
unfolding cs.Search.Words.split
filled-Implements =
    store_all-Implements lh allocated lh-IsLhash calls empty_index filled nothing calls_store
      empty_index-Implements

test_service_by_file_of_words-newline_example :
    (ind' : Index Table) × (test_service_by_file_of_words lh
        (some (text_of (text ∷ (b'q' ∷ []) ∷ [])))
        filled
      ≡ some (
        (
          answers (newest (occurrences name (words 0 text)) nothing) (text ∷ (b'q' ∷ []) ∷ []),
          false ∷ false ∷ [],
        ),
        ind',
      ))
    × Implements lh lh-IsLhash ind' (newest (occurrences name (words 0 text)) nothing)
test_service_by_file_of_words-newline_example =
    test_service_by_file_of_words-newline lh lh-IsLhash name 0 text (text ∷ (b'q' ∷ []) ∷ []) filled
      (ground arith) filled-Implements
