-- ===== src/Search/Scan/Descriptors.antt =====
-- The descriptors that Scan_File of assign2/scan.c leaves open.
use cs.Prelude.{ℕ, zero, suc, ◌+◌, refl, Bool, Option, none, some, List, Bool-cases, inl, inr}
use cs.Fs.Inode.{Inode, UnixFilesystem}
use cs.Fs.Directory.{Name}
use cs.Fs.Checksum.{Sha}
use cs.Fs.Fileops.{Files, fileops_tell, optimized_fileops_open}
use cs.Fs.Fileops.Read.{fileops_getchar}
use cs.Fs.Fileops.Open.{
  IsOpenAs, IsOpened, IsAttempt, fileops_getchar-IsOpenAs, optimized_fileops_open-IsAttempt,
  IsOpenAs-trans, opened-closed,
}
use cs.Search.Outcome.{Outcome, done, on_some, Whenever, Whenever-bind, Whenever-weaken}
use cs.Search.Index.{Text, Lhash, Index, index_store_entry}
use cs.Search.Words.{isalpha}
use cs.Search.Pathstore.{checked_char, pathstore_path}
use cs.Search.Pathstore.Descriptors.{checked_char-IsOpenAs, SameStored, pathstore_path-SameStored}
use cs.Search.Scan.{
  Scanner, next_char, count_char, skip, read_word, store_word, scan_word, scan_words, scan_open,
  scan_opened, scan_stored, scan_file,
}

module _ {Table : Type 0} (lh : Lhash Table) (allocated : Index Table → Bool) (fs : UnixFilesystem)
    (at : ℕ → ℕ) (fd : ℕ) where
  -- The same descriptors are open as in a state.
  abbrev Same : {A : Type 0} → Files → A × Scanner Table → Type 0
  Same st (a, s) = IsOpenAs st s.files

  abbrev SameFiles : Files → Scanner Table → Type 0
  SameFiles st s = IsOpenAs st s.files

  next_char-Same :
      (st : Files) (s : Scanner Table)
      → IsOpenAs st s.files
      → Whenever (Same st) (next_char lh allocated fs at fd s)
  next_char-Same st s h =
      Whenever-bind (λ (ch, st'). IsOpenAs st st') (Same st)
        (checked_char (fileops_getchar fs at fd s.files)) _
        (checked_char-IsOpenAs st (fileops_getchar fs at fd s.files) (
          IsOpenAs-trans st s.files (fileops_getchar fs at fd s.files).1 h
            (fileops_getchar-IsOpenAs fs at fd s.files)))
        (λ (ch, st') k. k)

  skipped-Same :
      (n : ℕ) (ch : Option ℕ) (st : Files) (s : Scanner Table)
      → IsOpenAs st s.files
      → ((c : ℕ) (s : Scanner Table)
          → IsOpenAs st s.files
          → Whenever (Same st) (skip lh allocated fs at n fd c s))
      → Whenever (Same st) (
          on_some ch
            (λ c. skip lh allocated fs at n fd c (count_char lh allocated fs at s))
            (done (none, s)))
  skipped-Same n none st s h ih = h
  skipped-Same n (some c) st s h ih = ih c (count_char lh allocated fs at s) h

  skip-Same :
      (n c : ℕ) (st : Files) (s : Scanner Table)
      → IsOpenAs st s.files
      → Whenever (Same st) (skip lh allocated fs at n fd c s)
  unfolding skip
  skip-Same zero c st s h = tt
  skip-Same (suc n) c st s h = elim (Bool-cases (isalpha c)) [
    | inl a ↦ rw (a) h
    | inr a ↦ rw (a) (
        Whenever-bind (Same st) (Same st) (next_char lh allocated fs at fd s) _
          (next_char-Same st s h)
          (λ (ch, s') k. skipped-Same n ch st s' k (λ c' s''. skip-Same n c' st s'')))
  ]

  read_word-Same :
      (room : ℕ) (ch : Option ℕ) (st : Files) (s : Scanner Table)
      → IsOpenAs st s.files
      → Whenever (Same st) (read_word lh allocated fs at room fd ch s)
  unfolding read_word
  read_word-Same zero ch st s h = h
  read_word-Same (suc room) none st s h = h
  read_word-Same (suc room) (some c) st s h = elim (Bool-cases (isalpha c)) [
    | inl a ↦ rw (a) (
        Whenever-bind (Same st) (Same st) (next_char lh allocated fs at fd s) _
          (next_char-Same st s h)
          (λ (ch, s') k.
            Whenever-bind (Same st) (Same st)
              (read_word lh allocated fs at room fd ch (count_char lh allocated fs at s')) _
              (read_word-Same room ch st (count_char lh allocated fs at s') k)
              (λ ((word, ch'), s'') k'. k')))
    | inr a ↦ rw (a) h
  ]

  store_word-Same :
      (word : Text) (pathname : Name) (offset : Option ℕ) (st : Files) (s : Scanner Table)
      → IsOpenAs st s.files
      → Whenever (SameFiles st) (store_word lh allocated fs at word pathname offset s)
  store_word-Same word pathname offset st s h =
      elim (Bool-cases (index_store_entry lh (allocated s.ind) word pathname offset s.ind).0) [
        | inl ok ↦ rw (ok) h
        | inr bad ↦ rw (bad) tt
      ]

  scan_word-Same :
      (go_on : Option ℕ → Scanner Table → Outcome (Scanner Table)) (pathname : Name) (ch : Option ℕ)
      (st : Files) (s : Scanner Table)
      → IsOpenAs st s.files
      → ((ch : Option ℕ) (s : Scanner Table)
          → IsOpenAs st s.files
          → Whenever (SameFiles st) (go_on ch s))
      → Whenever (SameFiles st) (scan_word lh allocated fs at go_on fd pathname ch s)
  scan_word-Same go_on pathname none st s h ih = h
  scan_word-Same go_on pathname (some c) st s h ih =
      Whenever-bind (Same st) (SameFiles st) (read_word lh allocated fs at 64 fd (some c) s) _
        (read_word-Same 64 (some c) st s h)
        (λ ((word, ch), s1) k.
          Whenever-bind (SameFiles st) (SameFiles st)
            (store_word lh allocated fs at word pathname (fileops_tell fd s.files) s1) _
            (store_word-Same word pathname (fileops_tell fd s.files) st s1 k)
            (λ s2 k'. ih ch s2 k'))

  scan_words-Same :
      (n : ℕ) (pathname : Name) (ch : Option ℕ) (st : Files) (s : Scanner Table)
      → IsOpenAs st s.files
      → Whenever (SameFiles st) (scan_words lh allocated fs at n fd pathname ch s)
  unfolding scan_words
  scan_words-Same zero pathname none st s h = h
  scan_words-Same (suc n) pathname none st s h = h
  scan_words-Same zero pathname (some c) st s h = tt
  scan_words-Same (suc n) pathname (some c) st s h =
      Whenever-bind (Same st) (SameFiles st) (skip lh allocated fs at (suc n) fd c s) _
        (skip-Same (suc n) c st s h)
        (λ (first, s1) k.
          scan_word-Same (scan_words lh allocated fs at n fd pathname) pathname first st s1 k
            (λ ch s2. scan_words-Same n pathname ch st s2))

  scan_open-Same :
      (fuel : ℕ) (pathname : Name) (st : Files) (s : Scanner Table)
      → IsOpened fd st s.files
      → Whenever (SameFiles st) (scan_open lh allocated fs at fuel fd pathname s)
  unfolding scan_open
  scan_open-Same fuel pathname st s h =
      Whenever-bind (Same s.files) (SameFiles st) (next_char lh allocated fs at fd s) _
        (next_char-Same s.files s (λ fd'. refl))
        (λ (ch, s1) k.
          Whenever-bind (SameFiles s.files) (SameFiles st)
            (scan_words lh allocated fs at fuel fd pathname ch (count_char lh allocated fs at s1)) _
            (scan_words-Same fuel pathname ch s.files (count_char lh allocated fs at s1) k)
            (λ s2 k'. opened-closed fd st s.files s2.files h k'))

module _ {Table : Type 0} (lh : Lhash Table) (allocated : Index Table → Bool) (fs : UnixFilesystem)
    (at : ℕ → ℕ) where
  scan_opened-Same :
      (fuel : ℕ) (pathname : Name) (r : Option ℕ × Files) (st : Files) (s : Scanner Table)
      → IsAttempt st r
      → Whenever
          (λ (ret, s'). IsOpenAs st s'.files)
          (scan_opened lh allocated fs at fuel pathname r s)
  scan_opened-Same fuel pathname (none, st1) st s h = h
  scan_opened-Same fuel pathname (some fd, st1) st s h =
      Whenever-bind (λ s'. IsOpenAs st s'.files) (λ (ret, s'). IsOpenAs st s'.files)
        (scan_open lh allocated fs at fuel fd pathname (record s { files = st1 })) _
        (scan_open-Same lh allocated fs at fd fuel pathname st (record s { files = st1 }) h)
        (λ s' k. k)

  scan_stored-Same :
      (fuel : ℕ) (o : Option Name) (inumber : ℕ) (inode : Inode) (inp : ℕ) (ok : Bool)
      (s : Scanner Table)
      → Whenever
          (λ (ret, s'). IsOpenAs s.files s'.files)
          (scan_stored lh allocated fs at fuel o inumber inode inp ok s)
  scan_stored-Same fuel none inumber inode inp ok s = λ fd. refl
  scan_stored-Same fuel (some pathname) inumber inode inp ok s =
      scan_opened-Same fuel pathname
        (optimized_fileops_open pathname (some inumber) inode inp ok s.files) s.files
        (record s { num_files = s.num_files + 1 })
        (optimized_fileops_open-IsAttempt pathname inumber inode inp ok s.files)

  pub scan_file-Same :
      {Context : Type 0} (sha : Sha Context) (local1 local2 fuel : ℕ) (element_allocated : Bool)
      (garbage : List ℕ) (inpathname : Name) (discard : Bool) (inumber : ℕ) (inode : Inode)
      (inp : ℕ) (ok : Bool) (s : Scanner Table)
      → Whenever
          (λ (ret, s'). IsOpenAs s.files s'.files)
          (scan_file lh allocated fs at sha local1 local2 fuel element_allocated garbage inpathname
            discard inumber inode inp ok s)
  unfolding scan_file
  scan_file-Same sha local1 local2 fuel element_allocated garbage inpathname discard inumber inode
        inp ok s =
      Whenever-bind (SameStored s.files) (λ (ret, s'). IsOpenAs s.files s'.files)
        (pathstore_path fs at local1 local2 fuel sha element_allocated garbage inpathname discard
          inp inode ok (s.files, s.store))
        _
        (pathstore_path-SameStored fs at local1 local2 fuel sha element_allocated garbage inpathname
          discard inp inode ok s.files s.store)
        (λ (o, (st1, store)) k.
          Whenever-weaken {A = Bool × Scanner Table} (λ (ret, s'). IsOpenAs st1 s'.files)
            (λ (ret, s'). IsOpenAs s.files s'.files) _
            (scan_stored-Same fuel o inumber inode inp ok (record s { files = st1; store = store }))
            (λ (ret, s') k'. IsOpenAs-trans s.files st1 s'.files k k'))
