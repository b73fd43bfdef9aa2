-- ===== src/Fs/Image.antt =====
-- Reading sectors through the cache: assign2/diskimg.c, over assign2/disksim.c and assign2/cachemem.c.
pub mod Computes
pub mod Short
use cs.Prelude.{ℕ, zero, suc, ◌+◌, Bool, true, false, Option, none, some, List, ◌==◌, if◌then◌else◌}
use cs.Fs.Disk.{Disk, Buffer, sector_size, disksim_readsector}
use cs.Fs.Cache.{
  Cache, InodeCacheLine, fetch_sector_in_cache, save_sector_in_cache, save_sector_in_inode_cache,
  erase_sector_in_inode_cache,
}

-- The cache, `numreads` of diskimg.c and `numreads` of disksim.c.
pub record Image : Type 0 where
  pub cache : Cache
  pub num_reads : ℕ
  pub sim_reads : ℕ

-- A function that may return -1, which is `none`, and may change the image's state.
abbrev pub M : Type 0 → Type 0
M A = Image → Option A × Image

abbrev pub pure : {A : Type 0} → A → M A
pure a st = (some a, st)

abbrev pub failure : {A : Type 0} → M A
failure st = (none, st)

abbrev pub and_then : {A B : Type 0} → Option A × Image → (A → M B) → Option B × Image
and_then (none, st) f = (none, st)
and_then (some a, st) f = f a st

infixl 5 ◌>>=◌ ◌>>◌
abbrev pub ◌>>=◌ : {A B : Type 0} → M A → (A → M B) → M B
◌>>=◌ m f st = and_then (m st) f

abbrev pub ◌>>◌ : {A B : Type 0} → M A → M B → M B
m >> n = m >>= λ _. n

-- An early `return FAILURE` unless the test holds.
abbrev pub guard : Bool → M (Unit {0})
guard true st = (some tt, st)
guard false st = (none, st)

abbrev pub count_read : Image → Image
count_read st = record st { num_reads = st.num_reads + 1 }

abbrev pub count_sim_read : Image → Image
count_sim_read st = record st { sim_reads = st.sim_reads + 1 }

-- What is done with a sector that came from the disk: `keep` saves it, but for sector 0.
abbrev pub kept :
    (Buffer → Cache → Cache) → ℕ → Option (ℕ × Buffer) → Image → Option (ℕ × Buffer) × Image
kept keep sector none st = (none, st)
kept keep sector (some (n, buf)) st =
    (some (n, buf), if sector == 0 then st else record st { cache = keep buf st.cache })

abbrev pub from_disk : Disk → (Buffer → Cache → Cache) → ℕ → M (ℕ × Buffer)
from_disk d keep sector st = kept keep sector (disksim_readsector d sector) (count_sim_read st)

abbrev pub from_cache : Disk → (Buffer → Cache → Cache) → ℕ → Option Buffer → M (ℕ × Buffer)
from_cache d keep sector none st = from_disk d keep sector st
from_cache d keep sector (some buf) st = (some (sector_size, buf), st)

-- `diskimg_readsector`: the number of bytes, and the buffer.
unfoldable pub diskimg_readsector : Disk → ℕ → M (ℕ × Buffer)
diskimg_readsector d sector st =
    from_cache d (save_sector_in_cache sector) sector
      (if sector == 0 then none else fetch_sector_in_cache sector st.cache) (count_read st)

-- `diskimg_readsector_inode`, for the inode at `inp`.
unfoldable pub diskimg_readsector_inode :
    Disk → (sector inp type_and_indirection : ℕ) → M (ℕ × Buffer)
diskimg_readsector_inode d sector inp t st =
    from_cache d
      (λ buf.
        save_sector_in_inode_cache
          (record { sector = sector; inp = inp; type_and_indirection = t; buf = buf }))
      sector (if sector == 0 then none else fetch_sector_in_cache sector st.cache) (count_read st)

unfoldable pub diskimg_bypass_cache_read_sector : Disk → ℕ → M (ℕ × Buffer)
diskimg_bypass_cache_read_sector d sector st =
    (disksim_readsector d sector, count_sim_read (count_read st))

-- A read that must yield a whole sector.
unfoldable pub read_whole : M (ℕ × Buffer) → M Buffer
read_whole m = do (n, buf) ← m; guard (n == sector_size); pure buf
