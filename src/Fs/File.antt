-- ===== src/Fs/File.antt =====
-- Blocks of files: assign2/assign1/file.c.
pub mod Blocks
pub mod Contents
pub mod Sizes
use cs.Prelude.{
  ℕ, zero, suc, ◌+◌, ◌-◌, ◌*◌, ◌/◌, ◌%◌, Bool, true, false, Option, none, some, List, ltb, leb,
  ◌==◌, ◌&&◌, if◌then◌else◌,
}
use cs.Fs.Disk.{Disk, Buffer, sector_size}
use cs.Fs.Image.{
  Image, M, pure, failure, and_then, ◌>>=◌, ◌>>◌, guard, count_read, diskimg_readsector, read_whole,
}
use cs.Fs.Inode.{
  Inode, UnixFilesystem, inodes_in_sector, max_inode_blocknum, inode_iget, inode_indexlookup,
  inode_getsize,
}

abbrev pub validate_file_getblock : UnixFilesystem → (inumber block_num : ℕ) → Bool
validate_file_getblock fs inumber block_num =
    ltb 0 inumber
    && leb inumber (fs.superblock.s_isize * inodes_in_sector)
    && ltb block_num max_inode_blocknum

abbrev pub validate_file_getblock_optimized : ℕ → Bool
validate_file_getblock_optimized block_num = ltb block_num max_inode_blocknum

-- A result that is not looked at before it is used: the block -1 is `none`.
abbrev pub attempted : {A : Type 0} → Option A × Image → Option (Option A) × Image
attempted (o, st) = (some o, st)

abbrev pub attempt : {A : Type 0} → M A → M (Option A)
attempt m st = attempted (m st)

-- `diskimg_readsector` of a block number; for the block -1 the cache has nothing and `lseek` fails.
abbrev pub read_block : Disk → Option ℕ → M (ℕ × Buffer)
read_block d none st = (none, count_read st)
read_block d (some block) st = diskimg_readsector d block st

-- The valid bytes of a block that was read whole.
unfoldable pub valid_bytes : (size block_num : ℕ) → ℕ
valid_bytes size block_num =
    if ltb size ((block_num + 1) * sector_size) then size % sector_size else sector_size

-- The blocks of the loop `for (offset = 0; offset < size; offset += 512)`.
unfoldable pub num_blocks : ℕ → ℕ
num_blocks size = (size + (sector_size - 1)) / sector_size

-- `iget_ok` is `inode_iget_ret >= 0`; the result is the number of valid bytes, with the buffer.
unfoldable pub file_getblock_optimized :
    UnixFilesystem → ℕ → (at : ℕ) → Inode → (iget_ok : Bool) → M (ℕ × Buffer)
unfolding inode_indexlookup inode_getsize valid_bytes
file_getblock_optimized fs block_num at inp iget_ok = do
  guard (validate_file_getblock_optimized block_num)
  guard iget_ok
  disk_block ← attempt (inode_indexlookup fs at inp block_num)
  buf ← read_whole (read_block fs.dfd disk_block)
  pure (valid_bytes (inode_getsize inp) block_num, buf)

-- `at` is the address of the local inode.
unfoldable pub file_getblock : UnixFilesystem → (inumber block_num at : ℕ) → M (ℕ × Buffer)
unfolding inode_iget inode_indexlookup inode_getsize valid_bytes
file_getblock fs inumber block_num at = do
  guard (validate_file_getblock fs inumber block_num)
  inp ← inode_iget fs inumber
  disk_block ← attempt (inode_indexlookup fs at inp block_num)
  buf ← read_whole (read_block fs.dfd disk_block)
  pure (valid_bytes (inode_getsize inp) block_num, buf)
