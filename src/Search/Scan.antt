-- ===== src/Search/Scan.antt =====
-- Scanning files into the index: assign2/scan.c.
pub mod Descriptors
pub mod Indexing
pub mod Loops
pub mod Positions
pub mod Termination
use cs.Prelude.{
  ℕ, zero, suc, ◌+◌, Bool, true, false, Option, none, some, List, [], ◌∷◌, if◌then◌else◌,
}
use cs.Fs.Inode.{Inode, UnixFilesystem}
use cs.Fs.Directory.{Name}
use cs.Fs.Checksum.{Sha}
use cs.Fs.Fileops.{Files, optimized_fileops_open, fileops_tell, fileops_close}
use cs.Fs.Fileops.Read.{fileops_getchar}
use cs.Search.Outcome.{Outcome, done, assertion_failed, out_of_fuel, ◌>>=◌, on_some}
use cs.Search.Index.{Text, Lhash, Index, index_store_entry}
use cs.Search.Words.{isalpha, max_word_size}
use cs.Search.Pathstore.{Pathstore, checked_char, pathstore_path}

-- What a scan changes, with the module's counters.
pub record Scanner (Table : Type 0) : Type 0 where
  pub files : Files
  pub store : Pathstore
  pub ind : Index Table
  pub num_files : ℕ
  pub num_words : ℕ
  pub num_chars : ℕ
  pub num_dups : ℕ
  pub num_dirs : ℕ
  pub num_dirents : ℕ

-- `allocated` says whether there is memory for an entry of the index.
module _ {Table : Type 0} (lh : Lhash Table) (allocated : Index Table → Bool) (fs : UnixFilesystem)
    (at : ℕ → ℕ) where
  abbrev pub next_char : (fd : ℕ) → Scanner Table → Outcome (Option ℕ × Scanner Table)
  next_char fd s = checked_char (fileops_getchar fs at fd s.files) >>= λ (ch, files).
      done (ch, record s { files = files })

  abbrev pub count_char : Scanner Table → Scanner Table
  count_char s = record s { num_chars = s.num_chars + 1 }

  -- The loop over the characters before a word; `none` is the end of the file.
  unfoldable pub skip :
      (fuel : ℕ) → (fd ch : ℕ) → Scanner Table → Outcome (Option ℕ × Scanner Table)
  unfolding fileops_getchar
  skip zero fd ch s = out_of_fuel
  skip (suc n) fd ch s =
      let others = next_char fd s >>= λ (ch', s').
      on_some ch' (λ c. skip n fd c (count_char s')) (done (none, s')) in
      if isalpha ch then done (some ch, s) else others

  -- The loop over the characters of a word, for which there is so much room.
  unfoldable pub read_word :
      (room : ℕ) → (fd : ℕ) → Option ℕ → Scanner Table → Outcome ((Text × Option ℕ) × Scanner Table)
  unfolding fileops_getchar
  read_word zero fd ch s = done (([], ch), s)
  read_word (suc room) fd none s = done (([], none), s)
  read_word (suc room) fd (some c) s =
      let others = next_char fd s >>= λ (ch', s').
      read_word room fd ch' (count_char s') >>= λ ((word, ch''), s'').
      done ((c ∷ word, ch''), s'') in
      if isalpha c then others else done (([], some c), s)

  abbrev pub store_word :
      Text → (pathname : Name) → (offset : Option ℕ) → Scanner Table → Outcome (Scanner Table)
  store_word word pathname offset s =
      let (ok, ind) = index_store_entry lh (allocated s.ind) word pathname offset s.ind in
      if ok then done (record s { ind = ind; num_words = s.num_words + 1 }) else assertion_failed

  -- A round of the loop over the words, from the first letter on, or at the end of the file.
  abbrev pub scan_word :
      (go_on : Option ℕ → Scanner Table → Outcome (Scanner Table))
      → (fd : ℕ) → (pathname : Name) → Option ℕ
      → Scanner Table
      → Outcome (Scanner Table)
  scan_word go_on fd pathname none s = done s
  scan_word go_on fd pathname (some c) s =
      let offset = fileops_tell fd s.files in
      read_word max_word_size fd (some c) s >>= λ ((word, ch), s1).
      store_word word pathname offset s1 >>= λ s2. go_on ch s2

  -- The loop over the words, with the character that was read last.
  unfoldable pub scan_words :
      (fuel : ℕ) → (fd : ℕ) → (pathname : Name) → Option ℕ → Scanner Table → Outcome (Scanner Table)
  unfolding skip read_word index_store_entry fileops_tell
  scan_words n fd pathname none s = done s
  scan_words zero fd pathname (some ch) s = out_of_fuel
  scan_words (suc n) fd pathname (some ch) s = skip (suc n) fd ch s >>= λ (first, s').
      scan_word (scan_words n fd pathname) fd pathname first s'

  abbrev pub close_file : (fd : ℕ) → Scanner Table → Scanner Table
  close_file fd s = record s { files = (fileops_close fd s.files).1 }

  -- The words of a file that is open, which is then closed.
  unfoldable pub scan_open :
      (fuel : ℕ) → (fd : ℕ) → (pathname : Name) → Scanner Table → Outcome (Scanner Table)
  unfolding scan_words fileops_close fileops_getchar
  scan_open fuel fd pathname s = next_char fd s >>= λ (ch, s').
      scan_words fuel fd pathname ch (count_char s') >>= λ s''. done (close_file fd s'')

  abbrev pub scan_opened :
      (fuel : ℕ)
      → (pathname : Name) → Option ℕ × Files
      → Scanner Table
      → Outcome (Bool × Scanner Table)
  scan_opened fuel pathname (none, files) s = done (false, record s { files = files })
  scan_opened fuel pathname (some fd, files) s =
      scan_open fuel fd pathname (record s { files = files }) >>= λ s'. done (true, s')

  abbrev pub scan_stored :
      (fuel : ℕ)
      → Option Name
      → (inumber : ℕ) → Inode
      → (inp : ℕ) → (iget_ok : Bool) → Scanner Table
      → Outcome (Bool × Scanner Table)
  scan_stored fuel none inumber inode inp ok s = done (true, record s { num_dups = s.num_dups + 1 })
  scan_stored fuel (some pathname) inumber inode inp ok s =
      let s' : Scanner Table = record s { num_files = s.num_files + 1 } in
      scan_opened fuel pathname
        (optimized_fileops_open pathname (some inumber) inode inp ok s'.files) s'

  -- True is 0 and false is -1. `local1` and `local2` are the addresses of the local inodes of
  -- `directory_findname` and `fileops_open`, and `inp` that of the inode.
  unfoldable pub scan_file :
      {Context : Type 0}
      → Sha Context
      → (local1 local2 fuel : ℕ) → (element_allocated : Bool) → (garbage : List ℕ)
      → (inpathname : Name) → (discard_dups : Bool) → (inumber : ℕ) → Inode
      → (inp : ℕ) → (iget_ok : Bool) → Scanner Table
      → Outcome (Bool × Scanner Table)
  unfolding pathstore_path optimized_fileops_open scan_open
  scan_file sha local1 local2 fuel element_allocated garbage inpathname discard_dups inumber inode
        inp ok s =
      pathstore_path fs at local1 local2 fuel sha element_allocated garbage inpathname discard_dups
        inp inode ok (s.files, s.store)
      >>= λ (pathname, (files, store)).
          scan_stored fuel pathname inumber inode inp ok (record s { files = files; store = store })
