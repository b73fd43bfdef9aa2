-- ===== src/Search/Tree/Descriptors.antt =====
-- The descriptors that the walk over the directories of assign2/scan.c leaves open.
use cs.Prelude.{
  ℕ, zero, suc, ◌+◌, ◌-◌, ◌≡◌, refl, Bool, true, false, Option, none, some, List, ◌∷◌, ◌++◌, ltb,
  ◌==◌, Bool-cases, inl, inr, length, is_some,
}
use mathlib.Core.Path.{subst}
use cs.Fs.Disk.{Buffer}
use cs.Fs.Inode.{UnixFilesystem}
use cs.Fs.Directory.{Name, decode_dirent, dirent_size}
use cs.Fs.Checksum.{Sha}
use cs.Fs.Fileops.{Files, optimized_fileops_open, optimized_fileops_isfile}
use cs.Fs.Fileops.Read.{fileops_read}
use cs.Fs.Fileops.Open.{
  IsOpenAs, IsAttempt, IsOpenAs-trans, optimized_fileops_open-IsAttempt,
  optimized_fileops_isfile-IsOpenAs, fileops_read-IsOpenAs, opened-closed,
}
use cs.Search.Outcome.{Outcome, done, Whenever, Whenever-bind, Whenever-weaken}
use cs.Search.Index.{Lhash, Index}
use cs.Search.Pathstore.{Pathstore}
use cs.Search.Scan.{Scanner}
use cs.Search.Scan.Descriptors.{scan_file-Same}
use cs.Search.Tree.{
  Walk, max_path, until_nul, is_dot_entry, read_inode, scan_entry, after_entry, scan_entries,
  scan_directory, scan_tree_and_index,
}

-- The same descriptors are open as in a state.
abbrev Same : {Table : Type 0} → Files → Bool × Scanner Table → Type 0
Same st (ret, s) = IsOpenAs st s.files

-- A walk that leaves the same descriptors open.
abbrev Keeps : {Table : Type 0} → Walk Table → Type 0
Keeps {Table} walk =
    (pathname : Name) (inumber : ℕ) (s : Scanner Table)
    → Whenever (Same s.files) (walk pathname inumber s)

module _ {Table : Type 0} (lh : Lhash Table) (allocated : Index Table → Bool) (fs : UnixFilesystem)
    (at : ℕ → ℕ) (beyond : List ℕ) where
  scan_entry-Same :
      (walk : Walk Table) (pathname : Name) (bytes : Buffer) (st : Files) (s : Scanner Table)
      → Keeps walk
      → IsOpenAs st s.files
      → Whenever
          (λ s'. IsOpenAs st s'.files)
          (scan_entry lh allocated fs at beyond walk pathname bytes s)
  scan_entry-Same walk pathname bytes st s keeps h =
      let s1 : Scanner Table = record s { num_dirents = s.num_dirents + 1 } in
      let e = decode_dirent bytes in
      let n = until_nul (e.d_name ++ beyond) in
      elim (Bool-cases (is_dot_entry n)) [
        | inl dot ↦ rw (dot) h
        | inr other ↦ rw (other) (
            Whenever-bind (Same s.files) (λ s'. IsOpenAs st s'.files)
              (walk (pathname ++ b'/' ∷ n) e.d_inumber s1) _
              (keeps (pathname ++ b'/' ∷ n) e.d_inumber s1)
              (λ (ret, s2) k. IsOpenAs-trans st s.files s2.files h k))
      ]

  after_entry-Same :
      (again : Scanner Table → Outcome (Bool × Scanner Table)) (walk : Walk Table) (pathname : Name)
      (bytes : List ℕ) (failed : Bool) (files st : Files) (s : Scanner Table)
      → Keeps walk
      → IsOpenAs st files
      → ((s : Scanner Table) → IsOpenAs st s.files → Whenever (Same st) (again s))
      → Whenever
          (Same st)
          (after_entry lh allocated fs at beyond again walk pathname ((bytes, failed), files) s)
  after_entry-Same again walk pathname bytes true files st s keeps h ih = tt
  after_entry-Same again walk pathname bytes false files st s keeps h ih =
      let s1 : Scanner Table = record s { files = files } in
      elim (Bool-cases (length bytes == 0)) [
        | inl last ↦ rw (last) h
        | inr some_bytes ↦ elim (Bool-cases (length bytes == dirent_size)) [
          | inl whole ↦
              rw (some_bytes, whole)
                (Whenever-bind (λ s'. IsOpenAs st s'.files) (Same st)
                  (scan_entry lh allocated fs at beyond walk pathname bytes s1) again
                  (scan_entry-Same walk pathname bytes st s1 keeps h) ih)
          | inr short ↦ rw (some_bytes, short) h
        ]
      ]

  scan_entries-Same :
      (n : ℕ) (walk : Walk Table) (dirfd : ℕ) (pathname : Name) (st : Files) (s : Scanner Table)
      → Keeps walk
      → IsOpenAs st s.files
      → Whenever (Same st) (scan_entries lh allocated fs at beyond n walk dirfd pathname s)
  unfolding scan_entries
  scan_entries-Same zero walk dirfd pathname st s keeps h = tt
  scan_entries-Same (suc n) walk dirfd pathname st s keeps h =
      let r = fileops_read fs at dirfd dirent_size s.files in
      after_entry-Same (scan_entries lh allocated fs at beyond n walk dirfd pathname) walk pathname
        r.0.0 r.0.1 r.1 st s keeps
        (IsOpenAs-trans st s.files r.1 h (fileops_read-IsOpenAs fs at dirfd dirent_size s.files))
        (λ s'. scan_entries-Same n walk dirfd pathname st s' keeps)

  scan_directory-Same :
      (fuel : ℕ) (walk : Walk Table) (pathname : Name) (r : Option ℕ × Files) (st : Files)
      (s : Scanner Table)
      → Keeps walk
      → IsAttempt st r
      → Whenever (Same st) (scan_directory lh allocated fs at beyond fuel walk pathname r s)
  scan_directory-Same fuel walk pathname (none, files) st s keeps h = h
  scan_directory-Same fuel walk pathname (some dirfd, files) st s keeps h =
      Whenever-bind (Same files) (Same st)
        (scan_entries lh allocated fs at beyond fuel walk dirfd _ (record s { files = files })) _
        (scan_entries-Same fuel walk dirfd _ files (record s { files = files }) keeps (λ fd. refl))
        (λ (ret, s') k. opened-closed dirfd st files s'.files h k)

  module _ {Context : Type 0} (sha : Sha Context) (local1 local2 fuel : ℕ)
      (element_allocated : Pathstore → Bool) (garbage : List ℕ) (discard : Bool) (inp : ℕ → ℕ) where
    scan_tree_and_index-Keeps :
        (depth : ℕ)
        → Keeps (
            scan_tree_and_index lh allocated fs at beyond sha local1 local2 fuel element_allocated
              garbage discard inp depth)
    unfolding scan_tree_and_index
    scan_tree_and_index-Keeps zero pathname inumber s = tt
    scan_tree_and_index-Keeps (suc depth) pathname inumber s =
        let p = optimized_fileops_isfile fs inumber s.files in
        let same = optimized_fileops_isfile-IsOpenAs fs inumber s.files in
        let s1 : Scanner Table = record s { files = p.1 } in
        let s2 : Scanner Table = record s1 { num_dirs = s1.num_dirs + 1 } in
        let opened =
          optimized_fileops_open pathname (some inumber) (read_inode p.0.1) (inp depth)
            (is_some p.0.1) p.1 in
        elim (Bool-cases p.0.0) [
          | inl file ↦ rw (file) (
              Whenever-weaken (Same p.1) (Same s.files) _
                (scan_file-Same lh allocated fs at sha local1 local2 fuel
                  (element_allocated s1.store) garbage pathname discard inumber (read_inode p.0.1)
                  (inp depth) (is_some p.0.1) s1)
                (λ (ret, s') k. IsOpenAs-trans s.files p.1 s'.files same k))
          | inr directory ↦ elim (Bool-cases (ltb (max_path - 16) (length pathname))) [
            | inl deep ↦ rw (directory, deep) same
            | inr fits ↦
                rw (directory, fits)
                  (Whenever-weaken (Same p.1) (Same s.files) _
                    (scan_directory-Same fuel _ pathname opened p.1 s2
                      (scan_tree_and_index-Keeps depth)
                      (optimized_fileops_open-IsAttempt pathname inumber (read_inode p.0.1)
                        (inp depth) (is_some p.0.1) p.1))
                    (λ (ret, s') k. IsOpenAs-trans s.files p.1 s'.files same k))
          ]
        ]

    -- On every disk, whenever `Scan_TreeAndIndex` returns, with 0 or -1, each descriptor is open exactly
    -- if it was open before the call: whatever is opened by the walk, by the reading of files and by the
    -- comparison of their contents is closed.
    pub scan_tree_and_index-IsOpenAs :
        (depth : ℕ) (pathname : Name) (inumber : ℕ) (s s' : Scanner Table) (ret : Bool)
        → scan_tree_and_index lh allocated fs at beyond sha local1 local2 fuel element_allocated
            garbage discard inp depth pathname inumber s
          ≡ done (ret, s')
        → IsOpenAs s.files s'.files
    scan_tree_and_index-IsOpenAs depth pathname inumber s s' ret e =
        subst (Whenever (Same s.files)) e (scan_tree_and_index-Keeps depth pathname inumber s)
