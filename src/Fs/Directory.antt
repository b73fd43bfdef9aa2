-- ===== src/Fs/Directory.antt =====
-- Directories: assign2/assign1/directory.c and direntv6.h.
pub mod Entries
pub mod Search
use cs.Prelude.{
  ℕ, zero, suc, ◌+◌, ◌-◌, ◌*◌, ◌/◌, ◌%◌, Bool, true, false, Option, none, some, List, [], ◌∷◌, ◌++◌,
  ltb, leb, ◌==◌, ◌&&◌, if◌then◌else◌, length, take, drop, replicate,
}
use cs.Fs.Disk.{Buffer, sector_size}
use cs.Fs.Image.{M, pure, failure, ◌>>=◌, ◌>>◌, guard}
use cs.Fs.Inode.{
  Inode, UnixFilesystem, inodes_in_sector, word_at, is_allocated, is_dir, inode_iget, inode_getsize,
}
use cs.Fs.File.{num_blocks, file_getblock_optimized}

abbrev pub Name : Type 0
Name = List ℕ

pub record Direntv6 : Type 0 where
  pub d_inumber : ℕ
  pub d_name : Name

abbrev pub dirent_size : ℕ
dirent_size = 16

abbrev pub name_size : ℕ
name_size = 14

unfoldable pub decode_dirent : Buffer → Direntv6
decode_dirent b = record { d_inumber = word_at b 0; d_name = take name_size (drop 2 b) }

-- The first `n` entries of a block.
unfoldable pub entries : ℕ → Buffer → List Direntv6
unfolding decode_dirent
entries zero b = []
entries (suc n) b = decode_dirent b ∷ entries n (drop dirent_size b)

abbrev pub validate_directory_findname : UnixFilesystem → ℕ → Bool
validate_directory_findname fs dirinumber =
    ltb 0 dirinumber && leb dirinumber (fs.superblock.s_isize * inodes_in_sector)

-- `strncpy` of at most 13 bytes, padded with zeros, and a zero at the end.
unfoldable pub key_name : Name → Name
key_name name = let cut = take (name_size - 1) name in cut ++ replicate (name_size - length cut) 0

-- `memcmp` yields 0.
unfoldable pub cmp_dir_entries : Name → Name → Bool
cmp_dir_entries [] [] = true
cmp_dir_entries [] (d ∷ ds) = false
cmp_dir_entries (c ∷ cs) [] = false
cmp_dir_entries (c ∷ cs) (d ∷ ds) = c == d && cmp_dir_entries cs ds

-- `lfind` over the entries of a block.
unfoldable pub lfind : Name → List Direntv6 → Option Direntv6
unfolding cmp_dir_entries
lfind key [] = none
lfind key (e ∷ es) = if cmp_dir_entries key e.d_name then some e else lfind key es

module _ (fs : UnixFilesystem) (key : Name) (at : ℕ) (dirinp : Inode) where
  -- The loop over the blocks, from `block_num` on, with so many blocks left.
  abbrev pub found_or : Option Direntv6 → M Direntv6 → M Direntv6
  found_or none rest = rest
  found_or (some e) rest = pure e

  unfoldable pub search_blocks : (left block_num : ℕ) → M Direntv6
  unfolding entries lfind
  search_blocks zero block_num = failure
  search_blocks (suc left) block_num = do
    (valid_bytes, buf) ← file_getblock_optimized fs block_num at dirinp true
    found_or (lfind key (entries (valid_bytes / dirent_size) buf))
        (search_blocks left (block_num + 1))

-- `at` is the address of the directory's inode.
unfoldable pub directory_findname_optimized :
    UnixFilesystem → Name → (at : ℕ) → Inode → (iget_ok : Bool) → M Direntv6
unfolding search_blocks key_name num_blocks inode_getsize
directory_findname_optimized fs name at dirinp iget_ok = do
  guard iget_ok
  guard (is_allocated dirinp && is_dir dirinp)
  search_blocks fs (key_name name) at dirinp (num_blocks (inode_getsize dirinp)) 0

unfoldable pub directory_findname : UnixFilesystem → Name → (dirinumber at : ℕ) → M Direntv6
unfolding search_blocks key_name num_blocks inode_getsize
directory_findname fs name dirinumber at = do
  guard (validate_directory_findname fs dirinumber)
  dirin ← inode_iget fs dirinumber
  guard (is_allocated dirin && is_dir dirin)
  search_blocks fs (key_name name) at dirin (num_blocks (inode_getsize dirin)) 0
