-- ===== src/Fs/File/Blocks.antt =====
-- The blocks that assign2/assign1/file.c yields, apart from the cache it reads through.
use cs.Prelude.{
  ℕ, ◌≡◌, refl, true, false, Option, none, some, ltb, Bool-cases, Option-cases, inl, inr, arith,
}
use mathlib.Core.Option
use cs.Fs.Disk.{Disk, Buffer, IsWhole}
use cs.Fs.Image.{Image, M, pure, and_then, ◌>>=◌, diskimg_readsector, read_whole}
use cs.Fs.Image.Computes.{
  Yields, IsFaithful, content, Computes, Computes-pure, Computes-bind, Computes-when,
  diskimg_readsector-Computes, read_whole-Computes,
}
use cs.Fs.Inode.{Inode, UnixFilesystem, inode_iget, inode_indexlookup, inode_getsize, validate_iget}
use cs.Fs.Inode.BlockMap.{
  stored_inode, block_address, inode_iget-Computes, inode_indexlookup-Computes,
}
use cs.Fs.File.{
  attempted, attempt, read_block, valid_bytes, file_getblock_optimized, file_getblock,
  validate_file_getblock, validate_file_getblock_optimized,
}

-- The block on the disk, with the number of its valid bytes.
abbrev pub stored_block : Disk → Inode → ℕ → Option (ℕ × Buffer)
stored_block d inp b =
    Option.bind (block_address d inp b)
      (λ s. Option.bind (content d s) (λ buf. some (valid_bytes (inode_getsize inp) b, buf)))

attempted-Computes :
    {A B : Type 0} (d : Disk) (p : Option A × Image) (r : Option A) (f : Option A → M B)
    (q : Option B)
    → p.0 ≡ r
    → IsFaithful d p.1
    → Computes d (f r) q
    → ((and_then (attempted p) f).0 ≡ q) × IsFaithful d (and_then (attempted p) f).1
attempted-Computes d (o, st) r f q e h k = rw (e) (k st h)

-- A result that is used without a look at it.
Computes-attempt :
    {A B : Type 0} (d : Disk) (m : M A) (r : Option A) (f : Option A → M B) (q : Option B)
    → Computes d m r
    → Computes d (f r) q
    → Computes d (attempt m >>= f) q
Computes-attempt d m r f q h k st i =
    let (e, i') = h st i in attempted-Computes d (m st) r f q e i' k

-- There is no block past the largest number of blocks.
stored_block_past :
    (d : Disk) (inp : Inode) (b : ℕ) → ltb b 32768 ≡ false → stored_block d inp b ≡ none
unfolding Option.bind
stored_block_past d inp b v = rw (v) refl

pub no_block :
    (fs : UnixFilesystem) (inumber b : ℕ)
    → validate_file_getblock fs inumber b ≡ false
    → Option.bind (stored_inode fs inumber) (λ inp. stored_block fs.dfd inp b) ≡ none
unfolding Option.bind
no_block fs inumber b v = elim (Bool-cases (ltb b 32768)) [
  | inl p ↦ elim (Bool-cases (validate_iget fs inumber)) [
    | inl i ↦ ground (arith, p, v, i)
    | inr i ↦ rw (i) refl
  ]
  | inr p ↦ elim (Option-cases (stored_inode fs inumber)) [
    | inl e ↦ rw (e) refl
    | inr (inp, e) ↦ rw (e) (stored_block_past fs.dfd inp b p)
  ]
]

module _ (fs : UnixFilesystem) (w : IsWhole fs.dfd) (at : ℕ) where
  abbrev measured : Inode → ℕ → Option ℕ → M (ℕ × Buffer)
  measured inp b disk_block = read_whole (read_block fs.dfd disk_block) >>= λ buf.
      pure (valid_bytes (inode_getsize inp) b, buf)

  measured-Computes :
      (inp : Inode) (b : ℕ) (o : Option ℕ)
      → Computes fs.dfd (measured inp b o) (
          Option.bind o (λ s.
            Option.bind (content fs.dfd s) (λ buf. some (valid_bytes (inode_getsize inp) b, buf))))
  unfolding Option.bind read_whole
  measured-Computes inp b none st h = (refl, h)
  measured-Computes inp b (some s) st h =
      Computes-bind fs.dfd (read_whole (diskimg_readsector fs.dfd s)) (content fs.dfd s)
        (λ buf. pure (valid_bytes (inode_getsize inp) b, buf))
        (λ buf. some (valid_bytes (inode_getsize inp) b, buf))
        (read_whole-Computes fs.dfd (diskimg_readsector fs.dfd s) s w
          (diskimg_readsector-Computes fs.dfd s w))
        (λ buf. Computes-pure fs.dfd (valid_bytes (inode_getsize inp) b, buf)) st h

  -- The part that the two functions share.
  getblock-Computes :
      (inp : Inode) (b : ℕ)
      → Computes fs.dfd
          (attempt (inode_indexlookup fs at inp b) >>= measured inp b)
          (stored_block fs.dfd inp b)
  getblock-Computes inp b =
      Computes-attempt fs.dfd (inode_indexlookup fs at inp b) (block_address fs.dfd inp b)
        (measured inp b) (stored_block fs.dfd inp b) (inode_indexlookup-Computes fs w at inp b)
        (measured-Computes inp b (block_address fs.dfd inp b))

  -- On a disk whose readable sectors are whole, with a faithful cache, and leaving it faithful,
  -- `file_getblock_optimized` with a valid inode yields the block that the inode's map gives, with
  -- its valid bytes, and fails when there is no such block.
  pub file_getblock_optimized-Computes :
      (inp : Inode) (b : ℕ)
      → (st : Image) → IsFaithful fs.dfd st
      → Yields fs.dfd (file_getblock_optimized fs b at inp true st) (stored_block fs.dfd inp b)
  unfolding file_getblock_optimized
  file_getblock_optimized-Computes inp b =
      Computes-when fs.dfd (validate_file_getblock_optimized b)
        (attempt (inode_indexlookup fs at inp b) >>= measured inp b) (stored_block fs.dfd inp b)
        (λ _. getblock-Computes inp b) (stored_block_past fs.dfd inp b)

  -- On a disk whose readable sectors are whole, with a faithful cache, and leaving it faithful,
  -- `file_getblock` yields the block that the map of the inode on the disk gives, with its valid
  -- bytes, and fails when there is no such inode or no such block.
  pub file_getblock-Computes :
      (inumber b : ℕ)
      → (st : Image) → IsFaithful fs.dfd st
      → Yields fs.dfd
          (file_getblock fs inumber b at st)
          (Option.bind (stored_inode fs inumber) (λ inp. stored_block fs.dfd inp b))
  unfolding file_getblock Option.bind
  file_getblock-Computes inumber b =
      Computes-when fs.dfd (validate_file_getblock fs inumber b)
        (inode_iget fs inumber >>= λ inp.
          attempt (inode_indexlookup fs at inp b) >>= measured inp b)
        _
        (λ _.
          Computes-bind fs.dfd (inode_iget fs inumber) (stored_inode fs inumber)
            (λ inp. attempt (inode_indexlookup fs at inp b) >>= measured inp b)
            (λ inp. stored_block fs.dfd inp b) (inode_iget-Computes fs w inumber)
            (λ inp. getblock-Computes inp b))
        (no_block fs inumber b)
