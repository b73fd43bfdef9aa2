-- ===== src/Search/Tree.antt =====
-- The walk over the directories: Scan_TreeAndIndex of assign2/scan.c.
pub mod Descriptors
use cs.Prelude.{
  ℕ, zero, suc, ◌+◌, ◌-◌, Bool, true, false, Option, none, some, List, [], ◌∷◌, ◌++◌, ltb, ◌==◌,
  ◌||◌, if◌then◌else◌, length, is_some, same_text,
}
use cs.Fs.Disk.{Buffer}
use cs.Fs.Inode.{Inode, UnixFilesystem}
use cs.Fs.Directory.{Name, decode_dirent, dirent_size}
use cs.Fs.Checksum.{Sha}
use cs.Fs.Fileops.{Files, zero_inode, optimized_fileops_open, optimized_fileops_isfile}
use cs.Fs.Fileops.Read.{fileops_read}
use cs.Search.Outcome.{Outcome, done, assertion_failed, out_of_fuel, ◌>>=◌}
use cs.Search.Index.{Lhash, Index}
use cs.Search.Pathstore.{Pathstore}
use cs.Search.Scan.{Scanner, close_file, scan_file}

abbrev pub max_path : ℕ
max_path = 1024

-- The characters before a NUL.
unfoldable pub until_nul : List ℕ → List ℕ
until_nul [] = []
until_nul (c ∷ cs) = let before = until_nul cs in if c == 0 then [] else c ∷ before

abbrev pub is_dot_entry : Name → Bool
is_dot_entry n = same_text n (b'.' ∷ []) || same_text n (b'.' ∷ b'.' ∷ [])

-- The path of the root is left out before the slash of a member.
abbrev pub drop_root : Name → Name
drop_root [] = []
drop_root (c ∷ []) = []
drop_root (c ∷ d ∷ cs) = c ∷ d ∷ cs

-- An inode that was not read is not looked at.
abbrev pub read_inode : Option Inode → Inode
read_inode none = zero_inode
read_inode (some inode) = inode

-- A call of the walk: the path name and the inode number. True is 0 and false is -1.
abbrev pub Walk : Type 0 → Type 0
Walk Table = Name → (inumber : ℕ) → Scanner Table → Outcome (Bool × Scanner Table)

-- `beyond` is what the memory holds after an entry, where a name of 14 characters goes on.
module _ {Table : Type 0} (lh : Lhash Table) (allocated : Index Table → Bool) (fs : UnixFilesystem)
    (at : ℕ → ℕ) (beyond : List ℕ) where
  abbrev pub scan_entry :
      Walk Table → (pathname : Name) → Buffer → Scanner Table → Outcome (Scanner Table)
  scan_entry walk pathname bytes s =
      let s' : Scanner Table = record s { num_dirents = s.num_dirents + 1 } in
      let e = decode_dirent bytes in
      let n = until_nul (e.d_name ++ beyond) in
      if is_dot_entry n
      then done s'
      else walk (pathname ++ b'/' ∷ n) e.d_inumber s' >>= λ (ret, s''). done s''

  -- What follows a read of an entry: another round, the end of the directory or an error.
  abbrev pub after_entry :
      (again : Scanner Table → Outcome (Bool × Scanner Table))
      → Walk Table
      → (pathname : Name) → (List ℕ × Bool) × Files
      → Scanner Table
      → Outcome (Bool × Scanner Table)
  after_entry again walk pathname ((bytes, failed), files) s =
      let s' : Scanner Table = record s { files = files } in
      if failed
      then assertion_failed
      else if length bytes == 0
      then done (true, s')
      else if length bytes == dirent_size
      then scan_entry walk pathname bytes s' >>= again
      else done (false, s')

  -- The loop over the entries of a directory.
  unfoldable pub scan_entries :
      (fuel : ℕ)
      → Walk Table
      → (dirfd : ℕ) → (pathname : Name) → Scanner Table
      → Outcome (Bool × Scanner Table)
  unfolding fileops_read decode_dirent until_nul
  scan_entries zero walk dirfd pathname s = out_of_fuel
  scan_entries (suc n) walk dirfd pathname s =
      after_entry (scan_entries n walk dirfd pathname) walk pathname
        (fileops_read fs at dirfd dirent_size s.files) s

  abbrev pub scan_directory :
      (fuel : ℕ)
      → Walk Table
      → (pathname : Name) → Option ℕ × Files
      → Scanner Table
      → Outcome (Bool × Scanner Table)
  scan_directory fuel walk pathname (none, files) s = done (false, record s { files = files })
  scan_directory fuel walk pathname (some dirfd, files) s =
      scan_entries fuel walk dirfd (drop_root pathname) (record s { files = files })
      >>= λ (ret, s'). done (ret, close_file lh allocated fs at dirfd s')

  -- `depth` bounds the recursion and `fuel` the loops; `inp depth` is the address of the local inode.
  unfoldable pub scan_tree_and_index :
      {Context : Type 0}
      → Sha Context
      → (local1 local2 fuel : ℕ) → (element_allocated : Pathstore → Bool) → (garbage : List ℕ)
      → (discard_dups : Bool) → (inp : ℕ → ℕ) → (depth : ℕ) → Walk Table
  unfolding optimized_fileops_isfile scan_file scan_entries optimized_fileops_open
  scan_tree_and_index sha local1 local2 fuel element_allocated garbage discard inp zero pathname
        inumber s =
      out_of_fuel
  scan_tree_and_index sha local1 local2 fuel element_allocated garbage discard inp (suc depth)
        pathname inumber s =
      let walk =
        scan_tree_and_index sha local1 local2 fuel element_allocated garbage discard inp depth in
      let ((is_file, o), files) = optimized_fileops_isfile fs inumber s.files in
      let s1 : Scanner Table = record s { files = files } in
      let s2 : Scanner Table = record s1 { num_dirs = s1.num_dirs + 1 } in
      if is_file
      then scan_file lh allocated fs at sha local1 local2 fuel (element_allocated s1.store) garbage
          pathname discard inumber (read_inode o) (inp depth) (is_some o) s1
      else if ltb (max_path - 16) (length pathname)
      then done (false, s1)
      else scan_directory fuel walk pathname
          (optimized_fileops_open pathname (some inumber) (read_inode o) (inp depth) (is_some o)
            s2.files)
          s2
