-- ===== src/Plain/Refinement.antt =====
-- The optimised reader of assign2 refines the reader of assign1: through its cache and with the inodes
-- that it keeps, it yields what the plain reader yields.
pub mod Digest
use cs.Prelude.{
  ℕ, zero, suc, ◌+◌, ◌-◌, ◌*◌, ◌/◌, ◌%◌, ◌≡◌, refl, sym, ◌∙◌, ap, Bool, true, false, Option, none,
  some, List, [], ◌∷◌, ltb, leb, ◌==◌, ◌&&◌, if◌then◌else◌, take, length, Bool-cases, Option-cases,
  inl, inr, eq_of_some, arith,
}
use mathlib.Core.Option
use cs.Fs.Disk.{Disk, Buffer, IsWhole}
use cs.Fs.Image
use cs.Fs.Image.{Image, M}
use cs.Fs.Image.Computes.{
  IsFaithful, Yields, Computes, Computes-≡, Computes-pure, Computes-failure, Computes-bind,
  Computes-then, Computes-when,
}
use cs.Fs.Inode
use cs.Fs.Inode.{Inode, UnixFilesystem, is_allocated, is_dir, inode_getsize}
use cs.Fs.Inode.BlockMap.{stored_inode, inode_iget-Computes, inode_indexlookup-Computes}
use cs.Fs.File
use cs.Fs.File.{num_blocks}
use cs.Fs.File.Blocks.{stored_block, file_getblock-Computes, file_getblock_optimized-Computes}
use cs.Fs.Directory
use cs.Fs.Directory.{Name, Direntv6, entries, key_name, lfind}
use cs.Fs.Pathname
use cs.Fs.Pathname.{tokens}
use cs.Fs.Checksum
use cs.Fs.Checksum.{Sha, lift}
use cs.Plain
use cs.Plain.Agreement.{>>=-ext, inode_iget-stored, inode_indexlookup-stored, file_getblock-stored}

-- A computation whose result is a chain of the plain reader.
chain-Computes :
    {A B : Type 0} (d : Disk) (m : M A) (o : Option A) (f : A → M B) (g : A → Option B)
    → Computes d m o
    → ((a : A) → o ≡ some a → Computes d (f a) (g a))
    → Computes d (Image.◌>>=◌ m f) (Plain.◌>>=◌ o g)
chain-Computes d m none f g h k =
    Computes-then d m none f none h (λ a e. ground (arith, e)) (λ e. refl)
chain-Computes d m (some a) f g h k =
    Computes-then d m (some a) f (g a) h (λ a' e. rw (← eq_of_some e) (k a refl))
      (λ e. ground (arith, e))

when-Computes :
    {A : Type 0} (d : Disk) (b : Bool) (m : M A) (o : Option A)
    → Computes d m o
    → Computes d (Image.◌>>◌ (Image.guard b) m) (Plain.◌>>◌ (Plain.guard b) o)
when-Computes d true m o h st i = h st i
when-Computes d false m o h st i = (refl, i)

-- A directory entry that is found in a block, or else in the blocks that follow.
found_or-Computes :
    (fs : UnixFilesystem) (key : Name) (at : ℕ) (inp : Inode) (o : Option Direntv6)
    (rest : M Direntv6) (r : Option Direntv6)
    → Computes fs.dfd rest r
    → Computes fs.dfd (Directory.found_or fs key at inp o rest) (Plain.found_or fs o r)
found_or-Computes fs key at inp none rest r h st i = h st i
found_or-Computes fs key at inp (some e) rest r h st i = (refl, i)

module _ (fs : UnixFilesystem) (w : IsWhole fs.dfd) (at : ℕ) where
  -- On a disk whose readable sectors are whole, with a faithful cache, and leaving it faithful: the
  -- optimised `inode_iget` yields what that of assign1 yields, failures included.
  pub inode_iget_refines :
      (inumber : ℕ) (st : Image)
      → IsFaithful fs.dfd st
      → Yields fs.dfd (Inode.inode_iget fs inumber st) (Plain.inode_iget fs inumber)
  inode_iget_refines inumber =
      Computes-≡ fs.dfd (Inode.inode_iget fs inumber) (stored_inode fs inumber) _
        (inode_iget-Computes fs w inumber) (sym (inode_iget-stored fs w inumber))

  -- On a disk whose readable sectors are whole, with a faithful cache, and leaving it faithful: the
  -- optimised `file_getblock` yields what that of assign1 yields, failures included.
  pub file_getblock_refines :
      (inumber b : ℕ) (st : Image)
      → IsFaithful fs.dfd st
      → Yields fs.dfd (File.file_getblock fs inumber b at st) (Plain.file_getblock fs inumber b)
  file_getblock_refines inumber b =
      Computes-≡ fs.dfd (File.file_getblock fs inumber b at) _ _
        (file_getblock-Computes fs w at inumber b) (sym (file_getblock-stored fs w inumber b))

  -- With the inode that was read before, a block is that of assign1, which reads the inode again.
  kept_inode-Computes :
      (inumber b : ℕ) (inp : Inode)
      → Plain.inode_iget fs inumber ≡ some inp
      → Computes fs.dfd
          (File.file_getblock_optimized fs b at inp true)
          (Plain.file_getblock fs inumber b)
  unfolding Option.bind
  kept_inode-Computes inumber b inp e =
      Computes-≡ fs.dfd (File.file_getblock_optimized fs b at inp true) (stored_block fs.dfd inp b)
        _ (file_getblock_optimized-Computes fs w at inp b)
        (sym (
          file_getblock-stored fs w inumber b
          ∙ ap (λ o. Option.bind o (λ inp'. stored_block fs.dfd inp' b))
              (sym (inode_iget-stored fs w inumber) ∙ e)))

  search_blocks-Computes :
      (key : Name) (inumber : ℕ) (inp : Inode) (left b : ℕ)
      → Plain.inode_iget fs inumber ≡ some inp
      → Computes fs.dfd
          (Directory.search_blocks fs key at inp left b)
          (Plain.search_blocks fs key inumber left b)
  unfolding Directory.search_blocks Plain.search_blocks
  search_blocks-Computes key inumber inp zero b e st h = (refl, h)
  search_blocks-Computes key inumber inp (suc left) b e st h =
      chain-Computes fs.dfd (File.file_getblock_optimized fs b at inp true)
        (Plain.file_getblock fs inumber b)
        (λ (valid, buf).
          Directory.found_or fs key at inp (lfind key (entries (valid / 16) buf))
            (Directory.search_blocks fs key at inp left (b + 1)))
        (λ (valid, buf).
          Plain.found_or fs (lfind key (entries (valid / 16) buf))
            (Plain.search_blocks fs key inumber left (b + 1)))
        (kept_inode-Computes inumber b inp e)
        (λ (valid, buf) got.
          found_or-Computes fs key at inp (lfind key (entries (valid / 16) buf))
            (Directory.search_blocks fs key at inp left (b + 1))
            (Plain.search_blocks fs key inumber left (b + 1))
            (search_blocks-Computes key inumber inp left (b + 1) e))
        st h

  -- On a disk whose readable sectors are whole, with a faithful cache, and leaving it faithful: the
  -- optimised `directory_findname` yields what that of assign1 yields, failures included.
  pub directory_findname_refines :
      (name : Name) (dirinumber : ℕ) (st : Image)
      → IsFaithful fs.dfd st
      → Yields fs.dfd
          (Directory.directory_findname fs name dirinumber at st)
          (Plain.directory_findname fs name dirinumber)
  unfolding Directory.directory_findname Plain.directory_findname
  directory_findname_refines name dirinumber =
      when-Computes fs.dfd (Plain.validate_directory_findname fs dirinumber) _ _ (
        chain-Computes fs.dfd (Inode.inode_iget fs dirinumber) (Plain.inode_iget fs dirinumber)
          (λ dirin. Image.◌>>◌ (Image.guard (is_allocated dirin && is_dir dirin)) (
            Directory.search_blocks fs (key_name name) at dirin (num_blocks (inode_getsize dirin))
              0))
          (λ dirin. Plain.◌>>◌ (Plain.guard (is_allocated dirin && is_dir dirin)) (
            Plain.search_blocks fs (key_name name) dirinumber (num_blocks (inode_getsize dirin)) 0))
          (inode_iget_refines dirinumber)
          (λ dirin e.
            when-Computes fs.dfd (is_allocated dirin && is_dir dirin)
              (Directory.search_blocks fs (key_name name) at dirin
                (num_blocks (inode_getsize dirin)) 0)
              (Plain.search_blocks fs (key_name name) dirinumber (num_blocks (inode_getsize dirin))
                0)
              (search_blocks-Computes (key_name name) dirinumber dirin
                (num_blocks (inode_getsize dirin)) 0 e)))

  walk-Computes :
      (names : List Name) (inumber : ℕ)
      → Computes fs.dfd (Pathname.walk fs at names inumber) (Plain.walk fs names inumber)
  unfolding Pathname.walk Plain.walk
  walk-Computes [] inumber st h = (refl, h)
  walk-Computes (name ∷ names) inumber st h =
      chain-Computes fs.dfd (Directory.directory_findname fs name inumber at)
        (Plain.directory_findname fs name inumber)
        (λ member. Pathname.walk fs at names member.d_inumber)
        (λ member. Plain.walk fs names member.d_inumber) (directory_findname_refines name inumber)
        (λ member e. walk-Computes names member.d_inumber) st h

  -- On a disk whose readable sectors are whole, with a faithful cache, and leaving it faithful: the
  -- optimised `pathname_lookup` yields what that of assign1 yields, for every path, failures included.
  pub pathname_lookup_refines :
      (pathname : Name) (st : Image)
      → IsFaithful fs.dfd st
      → Yields fs.dfd
          (Pathname.pathname_lookup fs at pathname st)
          (Plain.pathname_lookup fs pathname)
  unfolding Pathname.pathname_lookup Plain.pathname_lookup
  pathname_lookup_refines pathname =
      when-Computes fs.dfd (Pathname.validate_pathname_lookup pathname)
        (Pathname.walk fs at (tokens pathname) 1) (Plain.walk fs (tokens pathname) 1)
        (walk-Computes (tokens pathname) 1)
