-- ===== src/Fs/Inode.antt =====
-- Inodes and their block maps: assign2/assign1/inode.c, with the structures of ino.h, filsys.h and
-- unixfilesystem.c. Words are stored with the low byte first. A file system and an inode are always
-- there, so the tests for NULL pointers have no counterpart.
pub mod BlockMap
use cs.Prelude.{
  ℕ, zero, suc, ◌+◌, ◌-◌, ◌*◌, ◌/◌, ◌%◌, Bool, true, false, Option, none, some, List, [], ◌∷◌, ltb,
  leb, ◌==◌, ◌&&◌, if◌then◌else◌, get_or, take, drop,
}
use cs.Fs.Disk.{Disk, Buffer, sector_size}
use cs.Fs.Image.{
  M, pure, failure, ◌>>=◌, ◌>>◌, guard, diskimg_readsector, diskimg_readsector_inode, read_whole,
}

pub record Inode : Type 0 where
  pub i_mode : ℕ
  pub i_nlink : ℕ
  pub i_uid : ℕ
  pub i_gid : ℕ
  pub i_size0 : ℕ
  pub i_size1 : ℕ
  pub i_addr : List ℕ
  pub i_atime : List ℕ
  pub i_mtime : List ℕ

pub record Filsys : Type 0 where
  pub s_isize : ℕ
  pub s_fsize : ℕ
  pub s_nfree : ℕ
  pub s_free : List ℕ
  pub s_ninode : ℕ
  pub s_inode : List ℕ
  pub s_flock : ℕ
  pub s_ilock : ℕ
  pub s_fmod : ℕ
  pub s_ronly : ℕ
  pub s_time : List ℕ

-- `dfd` stands for the disk.
pub record UnixFilesystem : Type 0 where
  pub dfd : Disk
  pub superblock : Filsys

abbrev pub bootblock_sector : ℕ
bootblock_sector = 0

abbrev pub superblock_sector : ℕ
superblock_sector = 1

abbrev pub inode_start_sector : ℕ
inode_start_sector = 2

abbrev pub root_inumber : ℕ
root_inumber = 1

abbrev pub bootblock_magic_num : ℕ
bootblock_magic_num = 0o407

abbrev pub inodes_in_sector : ℕ
inodes_in_sector = 16

abbrev pub max_inode_blocknum : ℕ
max_inode_blocknum = 32768

abbrev pub starting_blocknum_in_doubly_indirect_block : ℕ
starting_blocknum_in_doubly_indirect_block = 1792

abbrev pub max_disk_block_indexes_in_block : ℕ
max_disk_block_indexes_in_block = 256

abbrev pub max_direct_disk_block_indexes_in_inode : ℕ
max_direct_disk_block_indexes_in_inode = 8

abbrev pub doubly_indirect_disk_block_index : ℕ
doubly_indirect_disk_block_index = 7

abbrev pub num_single_indirection_indexes : ℕ
num_single_indirection_indexes = 7

-- A byte of a buffer, the 16-bit word at an index, and `n` such words.
abbrev pub byte_at : Buffer → ℕ → ℕ
byte_at b i = get_or b i 0

abbrev pub word_at : Buffer → ℕ → ℕ
word_at b i = byte_at b (2 * i) + 256 * byte_at b (2 * i + 1)

unfoldable pub words : ℕ → Buffer → List ℕ
words zero b = []
words (suc n) b = word_at b 0 ∷ words n (drop 2 b)

-- `struct inode` at the start of 32 bytes.
unfoldable pub decode_inode : Buffer → Inode
unfolding words
decode_inode b = record {
  i_mode = word_at b 0;
  i_nlink = byte_at b 2;
  i_uid = byte_at b 3;
  i_gid = byte_at b 4;
  i_size0 = byte_at b 5;
  i_size1 = word_at b 3;
  i_addr = words 8 (drop 8 b);
  i_atime = words 2 (drop 24 b);
  i_mtime = words 2 (drop 28 b);
}

-- `struct filsys`.
unfoldable pub decode_filsys : Buffer → Filsys
unfolding words
decode_filsys b = record {
  s_isize = word_at b 0;
  s_fsize = word_at b 1;
  s_nfree = word_at b 2;
  s_free = words 100 (drop 6 b);
  s_ninode = word_at b 103;
  s_inode = words 100 (drop 208 b);
  s_flock = byte_at b 408;
  s_ilock = byte_at b 409;
  s_fmod = byte_at b 410;
  s_ronly = byte_at b 411;
  s_time = words 2 (drop 412 b);
}

-- `unixfilesystem_init`; `allocated` says whether `malloc` gives memory.
unfoldable pub unixfilesystem_init : (allocated : Bool) → Disk → M UnixFilesystem
unfolding decode_filsys
unixfilesystem_init allocated d = do
  bootblock ← read_whole (diskimg_readsector d bootblock_sector)
  guard (word_at bootblock 0 == bootblock_magic_num)
  guard allocated
  superblock ← read_whole (diskimg_readsector d superblock_sector)
  pure (record { dfd = d; superblock = decode_filsys superblock })

-- The bits of `i_mode`: IALLOC is 0100000, ILARG is 010000, and IFMT is 060000.
abbrev pub is_allocated : Inode → Bool
is_allocated inp = inp.i_mode / 32768 % 2 == 1

abbrev pub is_large : Inode → Bool
is_large inp = inp.i_mode / 4096 % 2 == 1

-- `(i_mode & IFMT) == IFDIR`, and `(i_mode & IFMT) == 0`.
abbrev pub is_dir : Inode → Bool
is_dir inp = inp.i_mode / 8192 % 4 == 2

abbrev pub is_regular : Inode → Bool
is_regular inp = inp.i_mode / 8192 % 4 == 0

unfoldable pub calculate_sector_index_from_inumber : ℕ → ℕ
calculate_sector_index_from_inumber inumber =
    inode_start_sector + (inumber - root_inumber) / inodes_in_sector

unfoldable pub calculate_inode_offset_in_sector : ℕ → ℕ
calculate_inode_offset_in_sector inumber = (inumber - root_inumber) % inodes_in_sector

abbrev pub validate_iget : UnixFilesystem → ℕ → Bool
validate_iget fs inumber = ltb 0 inumber && leb inumber (fs.superblock.s_isize * inodes_in_sector)

abbrev pub validate_indexlookup : ℕ → Bool
validate_indexlookup block_num = ltb block_num max_inode_blocknum

unfoldable pub inode_iget : UnixFilesystem → ℕ → M Inode
unfolding calculate_sector_index_from_inumber calculate_inode_offset_in_sector decode_inode
inode_iget fs inumber = do
  guard (validate_iget fs inumber)
  inode_sector ←
      read_whole (diskimg_readsector fs.dfd (calculate_sector_index_from_inumber inumber))
  pure (decode_inode (drop (32 * calculate_inode_offset_in_sector inumber) inode_sector))

unfoldable pub find_disk_block_for_small_files : Inode → ℕ → M ℕ
find_disk_block_for_small_files inp block_num =
    if ltb block_num max_direct_disk_block_indexes_in_inode
    then pure (get_or inp.i_addr block_num 0)
    else failure

-- `(((i_mode & IFMT) == IFDIR) << 16) | level`
abbrev pub type_and_indirection : Inode → ℕ → ℕ
type_and_indirection inp level = if is_dir inp then 65536 + level else level

-- The inode `inp` lies at the address `at`.
module _ (fs : UnixFilesystem) (at : ℕ) (inp : Inode) where
  abbrev pub read_indirect : ℕ → ℕ → M Buffer
  read_indirect block level =
      read_whole (diskimg_readsector_inode fs.dfd block at (type_and_indirection inp level))

  unfoldable pub find_disk_block_from_double_indirection_block : ℕ → Buffer → M ℕ
  find_disk_block_from_double_indirection_block block_num double_indirection_block = do
    single_indirection_block ←
        read_indirect
          (word_at double_indirection_block
            (block_num / max_disk_block_indexes_in_block - num_single_indirection_indexes))
          1
    pure (word_at single_indirection_block (block_num % max_disk_block_indexes_in_block))

  unfoldable pub find_disk_block_for_large_files : ℕ → M ℕ
  unfolding find_disk_block_from_double_indirection_block
  find_disk_block_for_large_files block_num =
      if ltb block_num starting_blocknum_in_doubly_indirect_block
      then (do
        block_content ←
            read_indirect (get_or inp.i_addr (block_num / max_disk_block_indexes_in_block) 0) 1
        pure (word_at block_content (block_num % max_disk_block_indexes_in_block)))
      else (do
        block_content ← read_indirect (get_or inp.i_addr doubly_indirect_disk_block_index 0) 2
        find_disk_block_from_double_indirection_block block_num block_content)

  unfoldable pub inode_indexlookup : ℕ → M ℕ
  unfolding find_disk_block_for_large_files find_disk_block_for_small_files
  inode_indexlookup block_num =
      if validate_indexlookup block_num
      then (if is_large inp
          then find_disk_block_for_large_files block_num
          else find_disk_block_for_small_files inp block_num)
      else failure

unfoldable pub inode_getsize : Inode → ℕ
inode_getsize inp = inp.i_size0 * 65536 + inp.i_size1
