-- ===== src/Fs/Image/Short.antt =====
-- What assign2/diskimg.c makes of a sector that can be read only in part, as at the end of a disk image
-- whose size is no multiple of 512.
use cs.Prelude.{
  ℕ, ◌<◌, ◌≡◌, ◌≢◌, refl, true, false, none, some, List, ◌==◌, length, arith, set, get_elem?,
  get_elem?-set_self, length-set,
}
use native.Mathlib.Nat.{mod-lt}
use cs.Fs.Disk.{Disk, Buffer, sector_size, disksim_readsector, overwrite}
use cs.Fs.Cache.{Cache, CacheLine, line_index, fetch_sector_in_cache, save_sector_in_cache}
use cs.Fs.Image.{Image, kept, diskimg_readsector}

fetch-hit :
    (s : ℕ) (c : Cache) (l : CacheLine)
    → c.allocated ≡ true
    → get_elem? c.lines (line_index s (length c.lines)) ≡ some l
    → l.sector ≡ s
    → fetch_sector_in_cache s c ≡ some l.buf
unfolding fetch_sector_in_cache
fetch-hit s c l a e h = ground arith

saved :
    (s : ℕ) (b : Buffer) (c : Cache)
    → c.allocated ≡ true
    → save_sector_in_cache s b c ≡ record c {
      lines = set c.lines (line_index s (length c.lines)) (record { sector = s; buf = b });
    }
unfolding save_sector_in_cache
saved s b c a = ground arith

line_index-lt : (s range : ℕ) → 0 < range → line_index s range < range
unfolding line_index
line_index-lt s range h = mod-lt _ h

-- In an allocated cache whose table has a line, a sector that was saved is found, with the bytes
-- saved.
pub fetch_sector_in_cache-save :
    (s : ℕ) (b : Buffer) (c : Cache)
    → c.allocated ≡ true
    → 0 < length c.lines
    → fetch_sector_in_cache s (save_sector_in_cache s b c) ≡ some b
fetch_sector_in_cache-save s b c a pos =
    let new : CacheLine = record { sector = s; buf = b } in
    let i = line_index s (length c.lines) in
    let ls = set c.lines i new in
    let found : get_elem? ls (line_index s (length ls)) ≡ some new =
      rw (length-set c.lines i new)
        (get_elem?-set_self c.lines i new (line_index-lt s (length c.lines) pos)) in
    rw (saved s b c a) (fetch-hit s (record c { lines = ls }) new a found refl)

-- With an allocated cache whose table has a line: a sector other than 0 that is not in the cache,
-- and of which the disk yields some bytes, is at first reported with their number; the same read
-- just after it reports 512 bytes, with the same buffer.
pub diskimg_readsector_short :
    (d : Disk) (s : ℕ) (bytes : List ℕ) (st : Image)
    → s ≢ 0
    → d.read s ≡ some bytes
    → st.cache.allocated ≡ true
    → 0 < length st.cache.lines
    → fetch_sector_in_cache s st.cache ≡ none
    → let buf = overwrite bytes (d.stale s) in
      let first = diskimg_readsector d s st in
      (first.0 ≡ some (length bytes, buf))
      × ((diskimg_readsector d s first.1).0 ≡ some (sector_size, buf))
unfolding diskimg_readsector disksim_readsector
diskimg_readsector_short d s bytes st ne read a pos miss =
    let nz : (s == 0) ≡ false = ground arith in
    let hit = fetch_sector_in_cache-save s (overwrite bytes (d.stale s)) st.cache a pos in
    (rw (nz, miss, read) refl, rw (nz, miss, read, kept, nz, hit) refl)
