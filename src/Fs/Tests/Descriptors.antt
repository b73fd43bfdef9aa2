-- ===== src/Fs/Tests/Descriptors.antt =====
-- The table of open files of assign2/fileops.c at work.
use cs.Prelude.{◌≡◌, refl, inl, arith, true, false, some, [], ◌∷◌, replicate}
use cs.Fs.Directory.{Name}
use cs.Fs.Fileops.{Files, zero_file, optimized_fileops_open}
use cs.Fs.Fileops.Read.{fileops_read}
use cs.Fs.Fileops.Bytes.{IsReading}
use cs.Fs.Disk.{Buffer, disksim_readsector}
use cs.Fs.Inode.{inode_getsize}
use cs.Fs.File.{valid_bytes}
use cs.Fs.Tests.Store.{start, start-IsFaithful, sector_of, disk-IsWhole, file, fs}

abbrev pub files : Files
files = record {
  image = start;
  table = replicate 64 zero_file;
  num_opens = 0;
  num_reads = 0;
  num_getchars = 0;
  num_isfiles = 0;
}

abbrev pub name : Name
name = b'/' ∷ b'a' ∷ []

abbrev pub opened : Files
opened = (optimized_fileops_open name (some 2) file 9 true files).1

file_is_read : (fileops_read fs (λ fd. 9) 0 5 opened).0 ≡ (b'x' ∷ b'y' ∷ b'z' ∷ [], false)
unfolding fileops_read optimized_fileops_open cs.Fs.Inode.inode_getsize cs.Fs.File.num_blocks
    cs.Fs.File.file_getblock_optimized cs.Fs.Image.read_whole cs.Fs.Image.diskimg_readsector
    cs.Fs.Cache.fetch_sector_in_cache cs.Fs.Cache.max_cache_line cs.Fs.Cache.line_index
    cs.Fs.Disk.disksim_readsector
file_is_read = refl

pub opened-IsReading : IsReading fs disk-IsWhole (λ fd. 9) 0 opened
unfolding optimized_fileops_open
opened-IsReading = record {
  in_table = omega arith;
  is_open = refl;
  is_in_use = refl;
  has_inode = refl;
  window = (refl, inl refl);
  faithful = start-IsFaithful;
}

abbrev block : Buffer
block = sector_of (b'x' ∷ b'y' ∷ b'z' ∷ [])
