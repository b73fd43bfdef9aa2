-- ===== src/Fs/Pathname/Lookup.antt =====
-- The inodes that assign2/assign1/pathname.c finds.
use cs.Prelude.{
  ℕ, ◌≡◌, refl, ap, ◌∙◌, true, some, List, [], ◌∷◌, ltb, ◌&&◌, length, eq_of_some, arith, All,
}
use cs.Fs.Disk.{IsWhole}
use cs.Fs.Image.{Image}
use cs.Fs.Image.Computes.{Yields, IsFaithful, Computes, Computes-then, Computes-when}
use cs.Fs.Inode.{Inode, UnixFilesystem, is_allocated, is_dir, inode_getsize}
use cs.Fs.Inode.BlockMap.{stored_inode}
use cs.Fs.File.Contents.{file_bytes}
use cs.Fs.Directory.{Name, Direntv6, key_name, lfind, directory_findname}
use cs.Fs.Directory.Entries.{Finds, inumber_of, Finds-inumber_of}
use cs.Fs.Directory.Search.{stored_entries-Finds, directory_findname-lfind}
use cs.Fs.Pathname.{walk, tokens, pathname_lookup, validate_pathname_lookup}
use cs.Fs.Pathname.Tokens.{IsComponent, path_of, tokens-path_of}

-- The directory `dirinumber` on the disk has these bytes.
pub record IsDirectory (fs : UnixFilesystem) (dirinumber : ℕ) (bytes : List ℕ) : Type 0 where
  pub inp : Inode
  pub stored : stored_inode fs dirinumber ≡ some inp
  pub is_directory : (is_allocated inp && is_dir inp) ≡ true
  pub has_bytes : file_bytes fs.dfd inp (inode_getsize inp) 0 ≡ some bytes

-- A path on the disk from an inode number, through its components, to another. Each component is a
-- name for which the bytes of the directory before it have an entry, and the first such entry has the
-- inode number that the path goes on from.
pub data Leads (fs : UnixFilesystem) : ℕ → List Name → ℕ → Type 0 where
  here : {inumber : ℕ} → Leads fs inumber [] inumber
  enters :
      {inumber inumber' : ℕ} {name : Name} {names : List Name} (bytes : List ℕ) (member : Direntv6)
      → IsDirectory fs inumber bytes
      → Finds bytes name (some member)
      → Leads fs member.d_inumber names inumber'
      → Leads fs inumber (name ∷ names) inumber'

module _ (fs : UnixFilesystem) (w : IsWhole fs.dfd) (at : ℕ) where
  walk-Computes :
      (inumber inumber' : ℕ) (names : List Name)
      → Leads fs inumber names inumber'
      → Computes fs.dfd (walk fs at names inumber) (some inumber')
  unfolding walk
  walk-Computes inumber _ [] here st h = (refl, h)
  walk-Computes inumber inumber' (name ∷ names) (enters bytes member dir finds path) st h =
      let (es, stored, found) = stored_entries-Finds fs.dfd w dir.inp bytes dir.has_bytes name in
      let number =
        Finds-inumber_of bytes name (some member) (lfind (key_name name) es) finds found in
      Computes-then fs.dfd (directory_findname fs name inumber at) (lfind (key_name name) es)
        (λ member'. walk fs at names member'.d_inumber) (some inumber')
        (directory_findname-lfind fs w at inumber dir.inp name es dir.stored dir.is_directory
          stored)
        (λ member' same.
          rw (← eq_of_some (number ∙ ap inumber_of same))
            (walk-Computes member.d_inumber inumber' names path))
        (λ n. ground (arith, n, number)) st h

  -- On a disk whose readable sectors are whole, with a faithful cache, and leaving it faithful: where the
  -- bytes of the directories on the disk lead from the root through the components, none empty or with a
  -- slash, to an inode, `pathname_lookup` of the components, each after a slash, yields that inode's
  -- number, if there is a component and the path has fewer than 1024 bytes. A directory leads on from
  -- the first of its entries of 16 bytes that has the first 13 bytes of the component, filled up with
  -- zeros to 14; so no component leads to an entry whose name has 14 bytes.
  pub pathname_lookup-Computes :
      (name : Name) (names : List Name) (inumber : ℕ)
      → All IsComponent (name ∷ names)
      → ltb (length (path_of (name ∷ names))) 1024 ≡ true
      → Leads fs 1 (name ∷ names) inumber
      → (st : Image) → IsFaithful fs.dfd st
      → Yields fs.dfd (pathname_lookup fs at (path_of (name ∷ names)) st) (some inumber)
  unfolding pathname_lookup path_of
  pathname_lookup-Computes name names inumber c short path =
      Computes-when fs.dfd (validate_pathname_lookup (path_of (name ∷ names)))
        (walk fs at (tokens (path_of (name ∷ names))) 1) (some inumber)
        (λ _. rw (tokens-path_of (name ∷ names) c) (walk-Computes 1 inumber (name ∷ names) path))
        (λ n. ground (arith, n, short))
