-- ===== src/Plain/Refinement/Digest.antt =====
-- The checksums of assign2 are those of assign1.
use cs.Prelude.{ℕ, zero, suc, ◌+◌, ◌≡◌, refl, true, Option, some, take}
use cs.Fs.Disk.{Buffer, IsWhole}
use cs.Fs.Image
use cs.Fs.Image.{Image, M}
use cs.Fs.Image.Computes.{IsFaithful, Yields, Computes}
use cs.Fs.Inode
use cs.Fs.Inode.{Inode, UnixFilesystem, is_allocated, is_dir, inode_getsize}
use cs.Fs.File
use cs.Fs.File.{num_blocks}
use cs.Fs.Directory.{Name}
use cs.Fs.Pathname
use cs.Fs.Pathname.{tokens}
use cs.Fs.Checksum
use cs.Fs.Checksum.{Sha, lift}
use cs.Plain
use cs.Plain.Refinement.{
  chain-Computes, when-Computes, kept_inode-Computes, inode_iget_refines, file_getblock_refines,
  pathname_lookup_refines,
}

module _ {Context : Type 0} (sha : Sha Context) (fs : UnixFilesystem) (w : IsWhole fs.dfd)
    (at : ℕ) where
  lift-Computes : {A : Type 0} (o : Option A) → Computes fs.dfd (lift o) o
  lift-Computes o st h = (refl, h)

  hash_blocks-Computes :
      (get : ℕ → M (ℕ × Buffer)) (inumber left b : ℕ) (ctx : Context)
      → ((b : ℕ) → Computes fs.dfd (get b) (Plain.file_getblock fs inumber b))
      → Computes fs.dfd
          (Checksum.hash_blocks sha fs get left b ctx)
          (Plain.hash_blocks fs sha inumber left b ctx)
  unfolding Checksum.hash_blocks Plain.hash_blocks
  hash_blocks-Computes get inumber zero b ctx g st h = (refl, h)
  hash_blocks-Computes get inumber (suc left) b ctx g st h =
      chain-Computes fs.dfd (get b) (Plain.file_getblock fs inumber b)
        (λ (moved, buf).
          Image.◌>>=◌ (lift (sha.update ctx (take moved buf)))
            (λ ctx'. Checksum.hash_blocks sha fs get left (b + 1) ctx'))
        (λ (moved, buf).
          Plain.◌>>=◌ (sha.update ctx (take moved buf))
            (λ ctx'. Plain.hash_blocks fs sha inumber left (b + 1) ctx'))
        (g b)
        (λ (moved, buf) got.
          chain-Computes fs.dfd (lift (sha.update ctx (take moved buf)))
            (sha.update ctx (take moved buf))
            (λ ctx'. Checksum.hash_blocks sha fs get left (b + 1) ctx')
            (λ ctx'. Plain.hash_blocks fs sha inumber left (b + 1) ctx')
            (lift-Computes (sha.update ctx (take moved buf)))
            (λ ctx' got'. hash_blocks-Computes get inumber left (b + 1) ctx' g))
        st h

  -- The loop over the blocks, and the end of the digest.
  hashed-Computes :
      (get : ℕ → M (ℕ × Buffer)) (inumber : ℕ) (inp : Inode) (ctx : Context)
      → ((b : ℕ) → Computes fs.dfd (get b) (Plain.file_getblock fs inumber b))
      → Computes fs.dfd
          (Image.◌>>◌ (Image.guard (is_allocated inp)) (
            Image.◌>>=◌
              (Checksum.hash_blocks sha fs get (num_blocks (inode_getsize inp)) 0 ctx)
              (λ ctx'. lift (sha.final ctx'))))
          (Plain.◌>>◌ (Plain.guard (is_allocated inp)) (
            Plain.◌>>=◌
              (Plain.hash_blocks fs sha inumber (num_blocks (inode_getsize inp)) 0 ctx)
              (λ ctx'. sha.final ctx')))
  hashed-Computes get inumber inp ctx g = when-Computes fs.dfd (is_allocated inp) _ _ (
      chain-Computes fs.dfd (Checksum.hash_blocks sha fs get (num_blocks (inode_getsize inp)) 0 ctx)
        (Plain.hash_blocks fs sha inumber (num_blocks (inode_getsize inp)) 0 ctx)
        (λ ctx'. lift (sha.final ctx')) (λ ctx'. sha.final ctx')
        (hash_blocks-Computes get inumber (num_blocks (inode_getsize inp)) 0 ctx g)
        (λ ctx' got. lift-Computes (sha.final ctx')))

  -- With any hash, on a disk whose readable sectors are whole, with a faithful cache, and leaving it
  -- faithful: the optimised `chksumfile_byinumber` yields what that of assign1 yields, failures included.
  pub chksumfile_byinumber_refines :
      (inumber : ℕ) (st : Image)
      → IsFaithful fs.dfd st
      → Yields fs.dfd
          (Checksum.chksumfile_byinumber sha fs inumber at st)
          (Plain.chksumfile_byinumber fs sha inumber)
  unfolding Checksum.chksumfile_byinumber Plain.chksumfile_byinumber
  chksumfile_byinumber_refines inumber =
      chain-Computes fs.dfd (lift sha.init) sha.init _ _ (lift-Computes sha.init) (λ ctx got.
        chain-Computes fs.dfd (Inode.inode_iget fs inumber) (Plain.inode_iget fs inumber) _ _
          (inode_iget_refines fs w at inumber)
          (λ inp e.
            hashed-Computes (λ b. File.file_getblock fs inumber b at) inumber inp ctx
              (file_getblock_refines fs w at inumber)))

  -- With any hash, on a disk whose readable sectors are whole, with a faithful cache, and leaving it
  -- faithful: `optimized_chksumfile_byinode`, with the inode that `inode_iget` of assign1 yields for a
  -- number, yields what `chksumfile_byinumber` of assign1 yields for the number, failures included.
  pub optimized_chksumfile_byinode_refines :
      (inumber : ℕ) (inp : Inode) (st : Image)
      → Plain.inode_iget fs inumber ≡ some inp
      → IsFaithful fs.dfd st
      → Yields fs.dfd
          (Checksum.optimized_chksumfile_byinode sha fs at inp true st)
          (Plain.chksumfile_byinumber fs sha inumber)
  unfolding Checksum.optimized_chksumfile_byinode Plain.chksumfile_byinumber
  optimized_chksumfile_byinode_refines inumber inp st e h = rw (e) (
      chain-Computes fs.dfd (lift sha.init) sha.init _ _ (lift-Computes sha.init)
        (λ ctx got.
          hashed-Computes (λ b. File.file_getblock_optimized fs b at inp true) inumber inp ctx
            (λ b. kept_inode-Computes fs w at inumber b inp e))
        st h)

  -- With any hash, on a disk whose readable sectors are whole, with a faithful cache, and leaving it
  -- faithful: the optimised `chksumfile_bypathname` yields what that of assign1 yields, failures
  -- included.
  pub chksumfile_bypathname_refines :
      (pathname : Name) (st : Image)
      → IsFaithful fs.dfd st
      → Yields fs.dfd
          (Checksum.chksumfile_bypathname sha fs pathname at st)
          (Plain.chksumfile_bypathname fs sha pathname)
  unfolding Checksum.chksumfile_bypathname Plain.chksumfile_bypathname
  chksumfile_bypathname_refines pathname =
      chain-Computes fs.dfd (Pathname.pathname_lookup fs at pathname)
        (Plain.pathname_lookup fs pathname)
        (λ inumber. Checksum.chksumfile_byinumber sha fs inumber at)
        (λ inumber. Plain.chksumfile_byinumber fs sha inumber)
        (pathname_lookup_refines fs w at pathname)
        (λ inumber e. chksumfile_byinumber_refines inumber)
