-- ===== src/Plain.antt =====
-- The file system reader before it was optimised: inode.c, file.c, directory.c, pathname.c and
-- chksumfile.c of assign1, over assign1/diskimg.c, which reads the disk and keeps no state. The
-- structures on the disk, and the helpers whose text is the same, are those of the later reader.
pub mod Agreement
pub mod Refinement
mod Tests
use cs.Prelude.{
  ℕ, zero, suc, ◌+◌, ◌-◌, ◌*◌, ◌/◌, ◌%◌, Bool, true, false, Option, none, some, List, [], ◌∷◌, ltb,
  leb, ◌==◌, ◌&&◌, if◌then◌else◌, get_or, take, drop, length,
}
use mathlib.Core.Option
use cs.Fs.Disk.{Disk, Buffer, sector_size, overwrite}
use cs.Fs.Inode.{
  Inode, UnixFilesystem, bootblock_sector, superblock_sector, inode_start_sector, root_inumber,
  bootblock_magic_num, inodes_in_sector, max_inode_blocknum,
  starting_blocknum_in_doubly_indirect_block, max_disk_block_indexes_in_block,
  max_direct_disk_block_indexes_in_inode, doubly_indirect_disk_block_index,
  num_single_indirection_indexes, word_at, decode_inode, decode_filsys, is_allocated, is_large,
  is_dir, inode_getsize,
}
use cs.Fs.File.{valid_bytes, num_blocks}
use cs.Fs.Directory.{Name, Direntv6, dirent_size, entries, key_name, lfind}
use cs.Fs.Pathname.{max_path, tokens, starts_with_slash}
use cs.Fs.Checksum.{Sha}

-- A result that may be -1, which is `none`.
infixl 5 ◌>>=◌ ◌>>◌
abbrev pub ◌>>=◌ : {A B : Type 0} → Option A → (A → Option B) → Option B
none >>= f = none
some a >>= f = f a

abbrev pub ◌>>◌ : {A B : Type 0} → Option A → Option B → Option B
m >> n = m >>= λ _. n

abbrev pub guard : Bool → Option (Unit {0})
guard true = some tt
guard false = none

unfoldable pub diskimg_readsector : Disk → ℕ → Option (ℕ × Buffer)
diskimg_readsector d sector =
    Option.map (λ bytes. (length bytes, overwrite bytes (d.stale sector))) (d.read sector)

-- A read that must yield a whole sector.
unfoldable pub read_whole : Option (ℕ × Buffer) → Option Buffer
read_whole m = do (n, buf) ← m; guard (n == sector_size); some buf

-- `unixfilesystem_init`; `allocated` says whether `malloc` gives memory.
unfoldable pub unixfilesystem_init : (allocated : Bool) → Disk → Option UnixFilesystem
unixfilesystem_init allocated d = do
  bootblock ← read_whole (diskimg_readsector d bootblock_sector)
  guard (word_at bootblock 0 == bootblock_magic_num)
  guard allocated
  superblock ← read_whole (diskimg_readsector d superblock_sector)
  some (record { dfd = d; superblock = decode_filsys superblock })

unfoldable pub calculate_sector_index_from_inumber : ℕ → ℕ
calculate_sector_index_from_inumber inumber =
    inode_start_sector + (inumber - root_inumber) / inodes_in_sector

unfoldable pub calculate_inode_offset_in_sector : ℕ → ℕ
calculate_inode_offset_in_sector inumber = (inumber - root_inumber) % inodes_in_sector

module _ (fs : UnixFilesystem) where
  abbrev pub validate_iget : ℕ → Bool
  validate_iget inumber = ltb 0 inumber && leb inumber (fs.superblock.s_isize * inodes_in_sector)

  unfoldable pub inode_iget : ℕ → Option Inode
  inode_iget inumber = do
    guard (validate_iget inumber)
    inode_sector ←
        read_whole (diskimg_readsector fs.dfd (calculate_sector_index_from_inumber inumber))
    some (decode_inode (drop (32 * calculate_inode_offset_in_sector inumber) inode_sector))

  unfoldable pub find_disk_block_for_small_files : Inode → ℕ → Option ℕ
  find_disk_block_for_small_files inp block_num =
      if ltb block_num max_direct_disk_block_indexes_in_inode
      then some (get_or inp.i_addr block_num 0)
      else none

  unfoldable pub find_disk_block_from_double_indirection_block : ℕ → Buffer → Option ℕ
  find_disk_block_from_double_indirection_block block_num double_indirection_block = do
    single_indirection_block ← read_whole (
        diskimg_readsector fs.dfd (
          word_at double_indirection_block
            (block_num / max_disk_block_indexes_in_block - num_single_indirection_indexes)))
    some (word_at single_indirection_block (block_num % max_disk_block_indexes_in_block))

  unfoldable pub find_disk_block_for_large_files : Inode → ℕ → Option ℕ
  find_disk_block_for_large_files inp block_num =
      if ltb block_num starting_blocknum_in_doubly_indirect_block
      then (do
        block_content ← read_whole (
            diskimg_readsector fs.dfd
              (get_or inp.i_addr (block_num / max_disk_block_indexes_in_block) 0))
        some (word_at block_content (block_num % max_disk_block_indexes_in_block)))
      else (do
        block_content ←
            read_whole
              (diskimg_readsector fs.dfd (get_or inp.i_addr doubly_indirect_disk_block_index 0))
        find_disk_block_from_double_indirection_block block_num block_content)

  unfoldable pub inode_indexlookup : Inode → ℕ → Option ℕ
  inode_indexlookup inp block_num =
      if ltb block_num max_inode_blocknum
      then (if is_large inp
          then find_disk_block_for_large_files inp block_num
          else find_disk_block_for_small_files inp block_num)
      else none

  abbrev pub validate_file_getblock : (inumber block_num : ℕ) → Bool
  validate_file_getblock inumber block_num =
      ltb 0 inumber
      && leb inumber (fs.superblock.s_isize * inodes_in_sector)
      && ltb block_num max_inode_blocknum

  -- `lseek` fails for the block -1.
  abbrev pub read_block : Option ℕ → Option (ℕ × Buffer)
  read_block none = none
  read_block (some block) = diskimg_readsector fs.dfd block

  unfoldable pub file_getblock : (inumber block_num : ℕ) → Option (ℕ × Buffer)
  file_getblock inumber block_num = do
    guard (validate_file_getblock inumber block_num)
    inp ← inode_iget inumber
    buf ← read_whole (read_block (inode_indexlookup inp block_num))
    some (valid_bytes (inode_getsize inp) block_num, buf)

  abbrev pub validate_directory_findname : ℕ → Bool
  validate_directory_findname dirinumber =
      ltb 0 dirinumber && leb dirinumber (fs.superblock.s_isize * inodes_in_sector)

  abbrev pub found_or : Option Direntv6 → Option Direntv6 → Option Direntv6
  found_or none rest = rest
  found_or (some e) rest = some e

  -- The loop over the blocks, from `block_num` on, with so many blocks left.
  unfoldable pub search_blocks : (key : Name) → (dirinumber left block_num : ℕ) → Option Direntv6
  search_blocks key dirinumber zero block_num = none
  search_blocks key dirinumber (suc left) block_num = do
    (valid_bytes, buf) ← file_getblock dirinumber block_num
    found_or (lfind key (entries (valid_bytes / dirent_size) buf))
        (search_blocks key dirinumber left (block_num + 1))

  unfoldable pub directory_findname : Name → ℕ → Option Direntv6
  directory_findname name dirinumber = do
    guard (validate_directory_findname dirinumber)
    dirin ← inode_iget dirinumber
    guard (is_allocated dirin && is_dir dirin)
    search_blocks (key_name name) dirinumber (num_blocks (inode_getsize dirin)) 0

  -- The loop over the tokens of the path.
  unfoldable pub walk : List Name → ℕ → Option ℕ
  walk [] inumber = some inumber
  walk (sub_path ∷ rest) inumber = do
    member ← directory_findname sub_path inumber
    walk rest member.d_inumber

  unfoldable pub pathname_lookup : Name → Option ℕ
  pathname_lookup pathname = do
    guard (starts_with_slash pathname && ltb (length pathname) max_path)
    walk (tokens pathname) root_inumber

  module _ {Context : Type 0} (sha : Sha Context) where
    -- The loop over the blocks of a file.
    unfoldable pub hash_blocks : (inumber left block_num : ℕ) → Context → Option Context
    hash_blocks inumber zero block_num ctx = some ctx
    hash_blocks inumber (suc left) block_num ctx = do
      (bytes_moved, buf) ← file_getblock inumber block_num
      ctx' ← sha.update ctx (take bytes_moved buf)
      hash_blocks inumber left (block_num + 1) ctx'

    unfoldable pub chksumfile_byinumber : ℕ → Option (List ℕ)
    chksumfile_byinumber inumber = do
      ctx ← sha.init
      inp ← inode_iget inumber
      guard (is_allocated inp)
      ctx' ← hash_blocks inumber (num_blocks (inode_getsize inp)) 0 ctx
      sha.final ctx'

    unfoldable pub chksumfile_bypathname : Name → Option (List ℕ)
    chksumfile_bypathname pathname = do
      inumber ← pathname_lookup pathname
      chksumfile_byinumber inumber
