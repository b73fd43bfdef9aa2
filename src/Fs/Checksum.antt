-- ===== src/Fs/Checksum.antt =====
-- Checksums of files: assign2/assign1/chksumfile.c. OpenSSL's SHA-1 is a parameter.
pub mod Digest
pub mod Text
use cs.Prelude.{
  ℕ, zero, suc, ◌+◌, ◌*◌, ◌/◌, ◌%◌, Bool, true, false, Option, none, some, List, [], ◌∷◌, ◌++◌, ltb,
  ◌==◌, ◌&&◌, if◌then◌else◌, take,
}
use cs.Fs.Disk.{Buffer, sector_size}
use cs.Fs.Image.{Image, M, pure, failure, and_then, ◌>>=◌, ◌>>◌, guard}
use cs.Fs.Inode.{Inode, UnixFilesystem, is_allocated, inode_iget, inode_getsize}
use cs.Fs.File.{num_blocks, file_getblock, file_getblock_optimized}
use cs.Fs.Directory.{Name}
use cs.Fs.Pathname.{pathname_lookup}

abbrev pub sha_digest_length : ℕ
sha_digest_length = 20

-- `none` is the result 0 of a function of the library.
pub record Sha (Context : Type 0) : Type 0 where
  pub init : Option Context
  pub update : Context → List ℕ → Option Context
  pub final : Context → Option (List ℕ)

-- A call of the library, with `return -1` where it fails.
abbrev pub lift : {A : Type 0} → Option A → M A
lift o st = (o, st)

module _ {Context : Type 0} (sha : Sha Context) (fs : UnixFilesystem) where
  -- The loop over the blocks of a file, which `get` reads.
  unfoldable pub hash_blocks :
      (get : ℕ → M (ℕ × Buffer)) → (left block_num : ℕ) → Context → M Context
  hash_blocks get zero block_num ctx = pure ctx
  hash_blocks get (suc left) block_num ctx = do
    (bytes_moved, buf) ← get block_num
    ctx' ← lift (sha.update ctx (take bytes_moved buf))
    hash_blocks get left (block_num + 1) ctx'

  -- `at` is the address of the local inode of `file_getblock`.
  unfoldable pub chksumfile_byinumber : (inumber at : ℕ) → M (List ℕ)
  unfolding hash_blocks
  chksumfile_byinumber inumber at = do
    ctx ← lift sha.init
    inp ← inode_iget fs inumber
    guard (is_allocated inp)
    ctx' ←
        hash_blocks (λ bno. file_getblock fs inumber bno at) (num_blocks (inode_getsize inp)) 0 ctx
    lift (sha.final ctx')

  unfoldable pub optimized_chksumfile_byinode : (at : ℕ) → Inode → (iget_ok : Bool) → M (List ℕ)
  unfolding hash_blocks
  optimized_chksumfile_byinode at inp iget_ok = do
    ctx ← lift sha.init
    guard iget_ok
    guard (is_allocated inp)
    ctx' ←
        hash_blocks (λ bno. file_getblock_optimized fs bno at inp iget_ok)
          (num_blocks (inode_getsize inp)) 0 ctx
    lift (sha.final ctx')

  unfoldable pub chksumfile_bypathname : Name → (at : ℕ) → M (List ℕ)
  unfolding chksumfile_byinumber
  chksumfile_bypathname pathname at = do
    inumber ← pathname_lookup fs at pathname
    chksumfile_byinumber inumber at

-- `sprintf("%02x")` of each byte.
abbrev pub hex_digit : ℕ → ℕ
hex_digit n = if ltb n 10 then b'0' + n else b'W' + n

unfoldable pub chksumfile_cvt2string : List ℕ → List ℕ
chksumfile_cvt2string [] = []
chksumfile_cvt2string (c ∷ cs) = hex_digit (c / 16) ∷ hex_digit (c % 16) ∷ chksumfile_cvt2string cs

-- Two checksums of 20 bytes are compared byte by byte.
unfoldable pub chksumfile_compare : List ℕ → List ℕ → Bool
chksumfile_compare [] [] = true
chksumfile_compare [] (d ∷ ds) = false
chksumfile_compare (c ∷ cs) [] = false
chksumfile_compare (c ∷ cs) (d ∷ ds) = c == d && chksumfile_compare cs ds
