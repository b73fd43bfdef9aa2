-- ===== src/Fs/Inode/BlockMap.antt =====
-- What the block map of assign2/assign1/inode.c computes, apart from the cache it reads through.
use cs.Prelude.{
  ℕ, ◌+◌, ◌-◌, ◌*◌, ◌/◌, ◌%◌, ◌≡◌, refl, true, false, Option, none, some, ltb, leb, ◌&&◌,
  if◌then◌else◌, get_or, drop, Bool-cases, inl, inr, arith,
}
use mathlib.Core.Option
use cs.Fs.Disk.{Disk, IsWhole}
use cs.Fs.Image.{Image, pure, ◌>>=◌, diskimg_readsector, read_whole}
use cs.Fs.Image.Computes.{
  Yields, IsFaithful, content, Computes, Computes-pure, Computes-failure, Computes-bind,
  Computes-if, diskimg_readsector-Computes, diskimg_readsector_inode-Computes, read_whole-Computes,
}
use cs.Fs.Inode.{
  Inode, UnixFilesystem, word_at, decode_inode, is_large, type_and_indirection,
  calculate_sector_index_from_inumber, calculate_inode_offset_in_sector, inode_iget, read_indirect,
  inode_indexlookup, validate_iget, find_disk_block_for_small_files,
  find_disk_block_for_large_files, find_disk_block_from_double_indirection_block,
}

-- The inode on the disk: 16 inodes of 32 bytes in each sector from sector 2 on, counted from 1.
abbrev pub stored_inode : UnixFilesystem → ℕ → Option Inode
stored_inode fs inumber =
    if ltb 0 inumber && leb inumber (fs.superblock.s_isize * 16)
    then Option.bind (content fs.dfd (2 + (inumber - 1) / 16))
        (λ sector. some (decode_inode (drop (32 * ((inumber - 1) % 16)) sector)))
    else none

-- Word `i` of the sector `s`.
abbrev pub stored_word : Disk → (s i : ℕ) → Option ℕ
stored_word d s i = Option.bind (content d s) (λ sector. some (word_at sector i))

-- Block `256 * i + j` of a large file, which is word `j` of an indirect block: that of the inode's
-- address `i`, or past those that of word `i - 7` of the doubly indirect block.
abbrev pub large_address : Disk → Inode → (i j : ℕ) → Option ℕ
large_address d inp i j =
    if ltb i 7
    then stored_word d (get_or inp.i_addr i 0) j
    else Option.bind (content d (get_or inp.i_addr 7 0))
        (λ sector. stored_word d (word_at sector (i - 7)) j)

abbrev pub block_address : Disk → Inode → ℕ → Option ℕ
block_address d inp b =
    if ltb b 32768
    then (if is_large inp
        then large_address d inp (b / 256) (b % 256)
        else (if ltb b 8 then some (get_or inp.i_addr b 0) else none))
    else none

pub div_small : (b : ℕ) → ltb b 1792 ≡ true → ltb (b / 256) 7 ≡ true
div_small b v = ground (arith, v)

pub div_large : (b : ℕ) → ltb b 1792 ≡ false → ltb (b / 256) 7 ≡ false
div_large b v = ground (arith, v)

module _ (fs : UnixFilesystem) (w : IsWhole fs.dfd) where
  -- On a disk whose readable sectors are whole, with a faithful cache, and leaving it faithful,
  -- `inode_iget` yields the inode that is stored on the disk, and fails when the number is out of
  -- range or the sector cannot be read.
  pub inode_iget-Computes :
      (inumber : ℕ) (st : Image)
      → IsFaithful fs.dfd st
      → Yields fs.dfd (inode_iget fs inumber st) (stored_inode fs inumber)
  unfolding inode_iget Option.bind calculate_sector_index_from_inumber
      calculate_inode_offset_in_sector
  inode_iget-Computes inumber = elim (Bool-cases (validate_iget fs inumber)) [
    | inl v ↦ λ st i. rw (v) (
        Computes-bind fs.dfd (read_whole (diskimg_readsector fs.dfd (2 + (inumber - 1) / 16))) _
          (λ b. pure (decode_inode (drop (32 * ((inumber - 1) % 16)) b))) _
          (read_whole-Computes fs.dfd (diskimg_readsector fs.dfd (2 + (inumber - 1) / 16))
            (2 + (inumber - 1) / 16) w
            (diskimg_readsector-Computes fs.dfd (2 + (inumber - 1) / 16) w))
          (λ b. Computes-pure fs.dfd (decode_inode (drop (32 * ((inumber - 1) % 16)) b))) st i)
    | inr v ↦ λ st i. rw (v) (refl, i)
  ]

  module _ (at : ℕ) (inp : Inode) where
    read_indirect-Computes :
        (block level : ℕ)
        → Computes fs.dfd (read_indirect fs at inp block level) (content fs.dfd block)
    read_indirect-Computes block level =
        read_whole-Computes fs.dfd _ block w
          (diskimg_readsector_inode-Computes fs.dfd block at (type_and_indirection inp level) w)

    indirect_word-Computes :
        (s level i : ℕ)
        → Computes fs.dfd
            (read_indirect fs at inp s level >>= λ b. pure (word_at b i))
            (stored_word fs.dfd s i)
    indirect_word-Computes s level i =
        Computes-bind fs.dfd _ _ _ _ (read_indirect-Computes s level)
          (λ b. Computes-pure fs.dfd (word_at b i))

    large_lookup :
        (b : ℕ)
        → Computes fs.dfd
            (find_disk_block_for_large_files fs at inp b)
            (large_address fs.dfd inp (b / 256) (b % 256))
    unfolding find_disk_block_for_large_files find_disk_block_from_double_indirection_block
    large_lookup b = elim (Bool-cases (ltb b 1792)) [
      | inl v ↦ λ st i.
          rw (v, div_small b v)
            (indirect_word-Computes (get_or inp.i_addr (b / 256) 0) 1 (b % 256) st i)
      | inr v ↦ λ st i.
          rw (v, div_large b v)
            (Computes-bind fs.dfd (read_indirect fs at inp (get_or inp.i_addr 7 0) 2) _
              (λ sector. read_indirect fs at inp (word_at sector (b / 256 - 7)) 1 >>= λ block.
                pure (word_at block (b % 256)))
              _ (read_indirect-Computes (get_or inp.i_addr 7 0) 2)
              (λ sector. indirect_word-Computes (word_at sector (b / 256 - 7)) 1 (b % 256)) st i)
    ]

    -- On a disk whose readable sectors are whole, with a faithful cache, and leaving it faithful,
    -- `inode_indexlookup` yields the address that the inode's direct, indirect and doubly indirect
    -- blocks on the disk give for the block, and fails when there is none.
    pub inode_indexlookup-Computes :
        (b : ℕ) (st : Image)
        → IsFaithful fs.dfd st
        → Yields fs.dfd (inode_indexlookup fs at inp b st) (block_address fs.dfd inp b)
    unfolding inode_indexlookup find_disk_block_for_small_files find_disk_block_for_large_files
        find_disk_block_from_double_indirection_block
    inode_indexlookup-Computes b =
        Computes-if fs.dfd (ltb b 32768) _ _ _ _
          (Computes-if fs.dfd (is_large inp) _ _ _ _ (large_lookup b) (
            Computes-if fs.dfd (ltb b 8) _ _ _ _ (Computes-pure fs.dfd _)
              (Computes-failure fs.dfd)))
          (Computes-failure fs.dfd)
