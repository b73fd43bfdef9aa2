-- ===== src/Fs/Checksum/Digest.antt =====
-- What the checksums of assign2/assign1/chksumfile.c are the digests of.
use cs.Prelude.{
  ℕ, zero, suc, ◌+◌, ◌-◌, ◌*◌, ◌/◌, ◌≡◌, refl, sym, ◌∙◌, ap, true, Option, some, List, [], ◌++◌,
  take, Option-cases, inl, inr, eq_of_some, arith,
}
use mathlib.Core.Option
use cs.Fs.Disk.{Disk, Buffer, IsWhole}
use cs.Fs.Image.{Image, M, ◌>>=◌, ◌>>◌, guard}
use cs.Fs.Image.Computes.{
  Yields, IsFaithful, Computes, Computes-≡, Computes-bind, Computes-then, Computes-when,
}
use cs.Fs.Inode.{Inode, UnixFilesystem, is_allocated, inode_iget, inode_getsize}
use cs.Fs.Inode.BlockMap.{stored_inode, inode_iget-Computes}
use cs.Fs.File.{num_blocks, file_getblock, file_getblock_optimized}
use cs.Fs.File.Blocks.{stored_block, file_getblock-Computes, file_getblock_optimized-Computes}
use cs.Fs.File.Contents.{file_bytes, file_bytes-none, file_bytes-next_block}
use cs.Fs.Checksum.{Sha, lift, hash_blocks, chksumfile_byinumber, optimized_chksumfile_byinode}

-- The bytes of a file's blocks on the disk, when all of the blocks can be read.
unfoldable pub stored_bytes : Disk → Inode → (left b : ℕ) → Option (List ℕ)
stored_bytes d inp zero b = some []
stored_bytes d inp (suc left) b = Option.bind (stored_block d inp b) (λ (valid, buf).
    Option.bind (stored_bytes d inp left (b + 1)) (λ rest. some (take valid buf ++ rest)))

-- The blocks of a file from block `b` on have the file's bytes from the first byte of that block on.
stored_bytes-file_bytes :
    (d : Disk) (inp : Inode) (left b : ℕ) (bytes : List ℕ)
    → IsWhole d
    → left + b ≡ (inode_getsize inp + 511) / 512
    → file_bytes d inp (inode_getsize inp - b * 512) (b * 512) ≡ some bytes
    → stored_bytes d inp left b ≡ some bytes
unfolding stored_bytes Option.bind
stored_bytes-file_bytes d inp zero b bytes w all e =
    let none_left : inode_getsize inp - b * 512 ≡ 0 = omega (arith, all) in
    file_bytes-none d inp (inode_getsize inp - b * 512) (b * 512) bytes none_left e
stored_bytes-file_bytes d inp (suc left) b bytes w all e =
    let (v, buf, rest, got, e', split) =
      file_bytes-next_block d inp b bytes w (omega (arith, all)) e in
    let ih = stored_bytes-file_bytes d inp left (b + 1) rest w (omega (arith, all)) e' in
    rw (got, ih) (ap some (sym split))

pub stored_bytes-file :
    (d : Disk) (inp : Inode) (bytes : List ℕ)
    → IsWhole d
    → file_bytes d inp (inode_getsize inp) 0 ≡ some bytes
    → stored_bytes d inp (num_blocks (inode_getsize inp)) 0 ≡ some bytes
unfolding num_blocks
stored_bytes-file d inp bytes w e =
    let all : inode_getsize inp - 0 * 512 ≡ inode_getsize inp = omega arith in
    stored_bytes-file_bytes d inp ((inode_getsize inp + 511) / 512) 0 bytes w (omega arith)
      (ap (λ n. file_bytes d inp n 0) all ∙ e)

-- Hashing a text in parts is hashing it at once.
pub record IsStreaming {Context : Type 0} (sha : Sha Context) : Type 0 where
  pub update-[] : (ctx : Context) → sha.update ctx [] ≡ some ctx
  pub update-++ :
      (ctx : Context) (xs ys : List ℕ)
      → Option.bind (sha.update ctx xs) (λ ctx'. sha.update ctx' ys) ≡ sha.update ctx (xs ++ ys)

-- The digest of a text.
abbrev pub digest : {Context : Type 0} → Sha Context → List ℕ → Option (List ℕ)
digest sha text = Option.bind sha.init (λ ctx. Option.bind (sha.update ctx text) sha.final)

lift-Computes : {A : Type 0} (d : Disk) (o : Option A) → Computes d (lift o) o
lift-Computes d o st h = (refl, h)

module _ {Context : Type 0} (sha : Sha Context) (stream : IsStreaming sha) (fs : UnixFilesystem)
    (w : IsWhole fs.dfd) (inp : Inode) where
  stored_bytes-rest :
      (left b valid : ℕ) (buf : Buffer) (bytes : List ℕ)
      → stored_block fs.dfd inp b ≡ some (valid, buf)
      → stored_bytes fs.dfd inp (suc left) b ≡ some bytes
      → (rest : List ℕ) × (stored_bytes fs.dfd inp left (b + 1) ≡ some rest)
        × (bytes ≡ take valid buf ++ rest)
  unfolding stored_bytes Option.bind
  stored_bytes-rest left b valid buf bytes got e =
      elim (Option-cases (stored_bytes fs.dfd inp left (b + 1))) [
        | inl n ↦ ground (arith, got, n, e)
        | inr (rest, s) ↦ (rest, s, sym (eq_of_some (rw (got, s) at e)))
      ]

  hash_blocks-Computes :
      (get : ℕ → M (ℕ × Buffer)) (left b : ℕ) (ctx : Context) (bytes : List ℕ)
      → ((b : ℕ) → Computes fs.dfd (get b) (stored_block fs.dfd inp b))
      → stored_bytes fs.dfd inp left b ≡ some bytes
      → Computes fs.dfd (hash_blocks sha fs get left b ctx) (sha.update ctx bytes)
  unfolding hash_blocks stored_bytes Option.bind
  hash_blocks-Computes get zero b ctx bytes g e st h =
      (sym (ap (sha.update ctx) (sym (eq_of_some e)) ∙ stream.update-[] ctx), h)
  hash_blocks-Computes get (suc left) b ctx bytes g e st h =
      Computes-then fs.dfd (get b) (stored_block fs.dfd inp b)
        (λ (valid, buf). lift (sha.update ctx (take valid buf)) >>= λ ctx'.
          hash_blocks sha fs get left (b + 1) ctx')
        (sha.update ctx bytes) (g b)
        (λ (valid, buf) got.
          let (rest, e', split) = stored_bytes-rest left b valid buf bytes got e in
          Computes-≡ fs.dfd
            (lift (sha.update ctx (take valid buf)) >>= λ ctx'.
              hash_blocks sha fs get left (b + 1) ctx')
            _ (sha.update ctx bytes)
            (Computes-bind fs.dfd (lift (sha.update ctx (take valid buf))) _
              (λ ctx'. hash_blocks sha fs get left (b + 1) ctx') (λ ctx'. sha.update ctx' rest)
              (lift-Computes fs.dfd (sha.update ctx (take valid buf)))
              (λ ctx'. hash_blocks-Computes get left (b + 1) ctx' rest g e'))
            (stream.update-++ ctx (take valid buf) rest ∙ ap (sha.update ctx) (sym split)))
        (λ got. ground (arith, got, e)) st h

  -- The loop over the blocks, and the end of the digest.
  abbrev hashed : (get : ℕ → M (ℕ × Buffer)) → Context → M (List ℕ)
  hashed get ctx = hash_blocks sha fs get (num_blocks (inode_getsize inp)) 0 ctx >>= λ ctx'.
      lift (sha.final ctx')

  hashed-Computes :
      (get : ℕ → M (ℕ × Buffer)) (ctx : Context) (bytes : List ℕ)
      → ((b : ℕ) → Computes fs.dfd (get b) (stored_block fs.dfd inp b))
      → stored_bytes fs.dfd inp (num_blocks (inode_getsize inp)) 0 ≡ some bytes
      → Computes fs.dfd (hashed get ctx) (Option.bind (sha.update ctx bytes) sha.final)
  hashed-Computes get ctx bytes g e =
      Computes-bind fs.dfd (hash_blocks sha fs get (num_blocks (inode_getsize inp)) 0 ctx)
        (sha.update ctx bytes) (λ ctx'. lift (sha.final ctx')) sha.final
        (hash_blocks-Computes get (num_blocks (inode_getsize inp)) 0 ctx bytes g e)
        (λ ctx'. lift-Computes fs.dfd (sha.final ctx'))

  -- With a streaming hash, on a disk whose readable sectors are whole, with a faithful
  -- cache, and leaving it faithful: where all the bytes of an allocated file can be read,
  -- `optimized_chksumfile_byinode` with its valid inode yields the digest of these bytes: as many as
  -- the inode's size says, byte `p` being byte `p % 512` of the sector that the inode's map gives for
  -- block `p / 512`.
  pub optimized_chksumfile_byinode-Computes :
      (at : ℕ) (bytes : List ℕ)
      → is_allocated inp ≡ true
      → file_bytes fs.dfd inp (inode_getsize inp) 0 ≡ some bytes
      → (st : Image) → IsFaithful fs.dfd st
      → Yields fs.dfd (optimized_chksumfile_byinode sha fs at inp true st) (digest sha bytes)
  unfolding optimized_chksumfile_byinode
  optimized_chksumfile_byinode-Computes at bytes v e =
      Computes-bind fs.dfd (lift sha.init) sha.init
        (λ ctx.
          guard true
          >> (guard (is_allocated inp)
              >> hashed (λ bno. file_getblock_optimized fs bno at inp true) ctx))
        (λ ctx. Option.bind (sha.update ctx bytes) sha.final) (lift-Computes fs.dfd sha.init)
        (λ ctx.
          Computes-when fs.dfd (is_allocated inp)
            (hashed (λ bno. file_getblock_optimized fs bno at inp true) ctx) _
            (λ _.
              hashed-Computes (λ bno. file_getblock_optimized fs bno at inp true) ctx bytes
                (file_getblock_optimized-Computes fs w at inp)
                (stored_bytes-file fs.dfd inp bytes w e))
            (λ n. ground (arith, n, v)))

  abbrev opened_file : (inumber at : ℕ) → Context → Inode → M (List ℕ)
  opened_file inumber at ctx inp' =
      guard (is_allocated inp')
      >> (hash_blocks sha fs (λ bno. file_getblock fs inumber bno at)
            (num_blocks (inode_getsize inp')) 0 ctx
          >>= λ ctx'. lift (sha.final ctx'))

  stored_block-Computes :
      (inumber at b : ℕ)
      → stored_inode fs inumber ≡ some inp
      → Computes fs.dfd (file_getblock fs inumber b at) (stored_block fs.dfd inp b)
  unfolding Option.bind
  stored_block-Computes inumber at b s =
      Computes-≡ fs.dfd (file_getblock fs inumber b at) _ (stored_block fs.dfd inp b)
        (file_getblock-Computes fs w at inumber b)
        (ap (λ o. Option.bind o (λ inp'. stored_block fs.dfd inp' b)) s)

  opened_file-Computes :
      (inumber at : ℕ) (ctx : Context) (bytes : List ℕ)
      → stored_inode fs inumber ≡ some inp
      → is_allocated inp ≡ true
      → stored_bytes fs.dfd inp (num_blocks (inode_getsize inp)) 0 ≡ some bytes
      → Computes fs.dfd
          (opened_file inumber at ctx inp)
          (Option.bind (sha.update ctx bytes) sha.final)
  opened_file-Computes inumber at ctx bytes s v e =
      Computes-when fs.dfd (is_allocated inp) (hashed (λ bno. file_getblock fs inumber bno at) ctx)
        _
        (λ _.
          hashed-Computes (λ bno. file_getblock fs inumber bno at) ctx bytes
            (λ b. stored_block-Computes inumber at b s) e)
        (λ n. ground (arith, n, v))

  -- With a streaming hash, on a disk whose readable sectors are whole, with a faithful cache, and
  -- leaving it faithful: where the inode is on the disk, is allocated, and all the bytes of the file can
  -- be read, `chksumfile_byinumber` yields the digest of these bytes: as many as the inode's size says,
  -- byte `p` being byte `p % 512` of the sector that the inode's map gives for block `p / 512`.
  pub chksumfile_byinumber-Computes :
      (inumber at : ℕ) (bytes : List ℕ)
      → stored_inode fs inumber ≡ some inp
      → is_allocated inp ≡ true
      → file_bytes fs.dfd inp (inode_getsize inp) 0 ≡ some bytes
      → (st : Image) → IsFaithful fs.dfd st
      → Yields fs.dfd (chksumfile_byinumber sha fs inumber at st) (digest sha bytes)
  unfolding chksumfile_byinumber
  chksumfile_byinumber-Computes inumber at bytes s v e =
      Computes-bind fs.dfd (lift sha.init) sha.init
        (λ ctx. inode_iget fs inumber >>= opened_file inumber at ctx)
        (λ ctx. Option.bind (sha.update ctx bytes) sha.final) (lift-Computes fs.dfd sha.init)
        (λ ctx.
          Computes-then fs.dfd (inode_iget fs inumber) (some inp) (opened_file inumber at ctx)
            (Option.bind (sha.update ctx bytes) sha.final)
            (Computes-≡ fs.dfd (inode_iget fs inumber) _ (some inp)
              (inode_iget-Computes fs w inumber) s)
            (λ inp' same. rw (← eq_of_some same) (
              opened_file-Computes inumber at ctx bytes s v
                (stored_bytes-file fs.dfd inp bytes w e)))
            (λ n. ground (arith, n)))
