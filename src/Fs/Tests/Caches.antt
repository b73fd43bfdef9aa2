-- ===== src/Fs/Tests/Caches.antt =====
-- The cache of assign2/cachemem.c at work.
use cs.Prelude.{◌≡◌, refl, some, [], ◌∷◌, arith}
use cs.Fs.Disk.{Disk, Buffer, overwrite, sector_size, disksim_readsector}
use cs.Fs.Cache.{
  Cache, InodeCacheLine, fetch_sector_in_cache, save_sector_in_cache, save_sector_in_inode_cache,
  max_cache_line, line_index,
}
use cs.Fs.Cache.Coherence.{
  IsCoherent, fetch_sector_in_cache-agrees, save_sector_in_cache-IsCoherent,
}
use cs.Fs.Cache.Policies.{save_sector_in_inode_cache-IsCoherent}
use cs.Fs.Image.{diskimg_readsector, diskimg_readsector_inode}
use cs.Fs.Image.Computes.{
  content, Yields, diskimg_readsector-Computes, diskimg_readsector_inode-Computes,
}
use cs.Fs.Image.Short.{fetch_sector_in_cache-save, diskimg_readsector_short}
use cs.Fs.Tests.Store.{sector_of, disk, disk-IsWhole, start, start-IsFaithful}

abbrev four : Buffer
four = sector_of (2 ∷ 0 ∷ b'a' ∷ [])

abbrev saved : Cache
saved = save_sector_in_cache 4 four start.cache

saved-IsCoherent : IsCoherent (content disk) saved
saved-IsCoherent =
    save_sector_in_cache-IsCoherent (content disk) 4 four start.cache
      (λ _. unfold disksim_readsector in refl) start-IsFaithful

fetch_sector_in_cache-agrees_example : content disk 4 ≡ some four
unfolding max_cache_line
fetch_sector_in_cache-agrees_example =
    fetch_sector_in_cache-agrees (content disk) 4 saved four saved-IsCoherent (omega arith)
      (fetch_sector_in_cache-save 4 four start.cache refl (omega arith))

-- A line for the directory's indirection block.
abbrev line : InodeCacheLine
line = record { sector = 4; inp = 9; type_and_indirection = 65537; buf = four }

save_sector_in_inode_cache-IsCoherent_example :
    IsCoherent (content disk) (save_sector_in_inode_cache line saved)
save_sector_in_inode_cache-IsCoherent_example =
    save_sector_in_inode_cache-IsCoherent (content disk) line saved
      (λ _. unfold disksim_readsector in refl) saved-IsCoherent

diskimg_readsector-Computes_example :
    Yields disk (diskimg_readsector disk 4 start) (disksim_readsector disk 4)
diskimg_readsector-Computes_example =
    diskimg_readsector-Computes disk 4 disk-IsWhole start start-IsFaithful

diskimg_readsector_inode-Computes_example :
    Yields disk (diskimg_readsector_inode disk 4 9 65537 start) (disksim_readsector disk 4)
diskimg_readsector_inode-Computes_example =
    diskimg_readsector_inode-Computes disk 4 9 65537 disk-IsWhole start start-IsFaithful

-- A disk that ends within sector 3.
abbrev cut_disk : Disk
cut_disk = record { read = λ _. some (b'x' ∷ b'y' ∷ []); stale = λ _. [] }

diskimg_readsector_short_example :
    let buf = overwrite (b'x' ∷ b'y' ∷ []) [] in
    let first = diskimg_readsector cut_disk 3 start in
    (first.0 ≡ some (2, buf))
    × ((diskimg_readsector cut_disk 3 first.1).0 ≡ some (sector_size, buf))
unfolding max_cache_line line_index
diskimg_readsector_short_example =
    diskimg_readsector_short cut_disk 3 (b'x' ∷ b'y' ∷ []) start (omega arith) refl refl
      (omega arith) (unfold fetch_sector_in_cache in refl)
