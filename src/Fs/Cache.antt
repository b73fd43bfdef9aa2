-- ===== src/Fs/Cache.antt =====
-- The sector cache: assign2/cachemem.c.
-- One region of memory holds 36 lines for indirection blocks, if it is large enough, and behind them a
-- direct-mapped table. A pointer to an inode is its address, 0 for NULL; it is a key and is never
-- followed.
pub mod Coherence
pub mod Policies
use cs.Prelude.{
  ℕ, zero, suc, ◌+◌, ◌-◌, ◌*◌, ◌/◌, ◌%◌, ◌^◌, Bool, true, false, Option, none, some, List, [], ◌∷◌,
  ltb, ◌==◌, not, ◌&&◌, ◌||◌, if◌then◌else◌, replicate, length, get_elem?, set,
}
use cs.Fs.Disk.{Buffer, sector_size}

pub record CacheLine : Type 0 where
  pub sector : ℕ
  pub buf : Buffer

pub record InodeCacheLine : Type 0 where
  pub sector : ℕ
  pub inp : ℕ
  pub type_and_indirection : ℕ
  pub buf : Buffer

-- `cache_is_allocated`, `inode_cache_is_enabled` and the two parts of the region.
pub record Cache : Type 0 where
  pub allocated : Bool
  pub inode_enabled : Bool
  pub lines : List CacheLine
  pub inode_lines : List InodeCacheLine

abbrev pub inode_cache_lines : ℕ
inode_cache_lines = 36

abbrev pub minimum_inode_cache_space : ℕ
minimum_inode_cache_space = 256

abbrev pub cachemem_max_size : ℕ
cachemem_max_size = 67108864

-- `sizeof(cache_line)` and `sizeof(inode_cache_line)` on a 64-bit machine, where the pointer is aligned
-- and the struct is filled up behind its buffer.
abbrev pub line_size : ℕ
line_size = 516

abbrev pub inode_line_size : ℕ
inode_line_size = 536

abbrev pub zero_buffer : Buffer
zero_buffer = replicate sector_size 0

abbrev pub zero_line : CacheLine
zero_line = record { sector = 0; buf = zero_buffer }

abbrev pub zero_inode_line : InodeCacheLine
zero_inode_line = record { sector = 0; inp = 0; type_and_indirection = 0; buf = zero_buffer }

-- The upper 16 bits say directory, the lower ones the level of indirection.
abbrev pub is_directory : ℕ → Bool
is_directory t = not (t / 65536 == 0)

abbrev pub is_singly_indirected : ℕ → Bool
is_singly_indirected t = t % 65536 == 1

-- `max_cache_line` for a region of so many KB.
unfoldable pub max_cache_line : (inode_enabled : Bool) → (size_in_kb : ℕ) → ℕ
max_cache_line false size = size * 1024 / line_size
max_cache_line true size = (size * 1024 - inode_cache_lines * inode_line_size) / line_size

abbrev pub no_cache : Cache
no_cache = record { allocated = false; inode_enabled = false; lines = []; inode_lines = [] }

-- The memory that `mmap` gives is filled with zeros.
abbrev pub fresh_cache : Bool → ℕ → Cache
fresh_cache enabled size = record {
  allocated = true;
  inode_enabled = enabled;
  lines = replicate (max_cache_line enabled size) zero_line;
  inode_lines = if enabled then replicate inode_cache_lines zero_inode_line else [];
}

-- `mapped` says whether `mmap` gives the memory; `none` is the result -1.
unfoldable pub cache_mem_init : (mapped : Bool) → (size_in_kb : ℕ) → Option Cache
cache_mem_init mapped size =
    if ltb (cachemem_max_size / 1024) size || not (size % 4 == 0)
    then none
    else if not mapped
    then none
    else some (fresh_cache (not (ltb size minimum_inode_cache_space)) size)

-- The index in the table: `unsigned long` arithmetic.
unfoldable pub line_index : (sector range : ℕ) → ℕ
line_index sector range = (sector - 1) * 2630849305 % 2 ^ 64 % range

abbrev pub holds : ℕ → Option CacheLine → Option Buffer
holds sector none = none
holds sector (some l) = if l.sector == sector then some l.buf else none

-- The first inode line with the sector.
unfoldable pub find_inode_line : ℕ → List InodeCacheLine → Option Buffer
find_inode_line sector [] = none
find_inode_line sector (l ∷ ls) =
    if l.sector == sector then some l.buf else find_inode_line sector ls

unfoldable pub fetch_sector_in_inode_cache : ℕ → Cache → Option Buffer
unfolding find_inode_line
fetch_sector_in_inode_cache sector c =
    if c.allocated && c.inode_enabled then find_inode_line sector c.inode_lines else none

abbrev pub or_inode_line : Option Buffer → ℕ → Cache → Option Buffer
or_inode_line none sector c = fetch_sector_in_inode_cache sector c
or_inode_line (some buf) sector c = some buf

-- `none` is CACHE_ERROR.
unfoldable pub fetch_sector_in_cache : ℕ → Cache → Option Buffer
unfolding fetch_sector_in_inode_cache
fetch_sector_in_cache sector c =
    if c.allocated
    then or_inode_line (holds sector (get_elem? c.lines (line_index sector (length c.lines))))
        sector c
    else none

unfoldable pub save_sector_in_cache : ℕ → Buffer → Cache → Cache
save_sector_in_cache sector buf c =
    if c.allocated
    then record c {
      lines =
          set c.lines (line_index sector (length c.lines)) (record { sector = sector; buf = buf });
    }
    else c

-- The search loops of the two replacement policies: the first line that a test picks is
-- overwritten; the line that was there comes back with the list.
abbrev pub keep_line :
    InodeCacheLine
    → Option (InodeCacheLine × List InodeCacheLine)
    → Option (InodeCacheLine × List InodeCacheLine)
keep_line l none = none
keep_line l (some (old, ls)) = some (old, l ∷ ls)

unfoldable pub replace_first :
    (InodeCacheLine → Bool)
    → InodeCacheLine
    → List InodeCacheLine
    → Option (InodeCacheLine × List InodeCacheLine)
replace_first pick new [] = none
replace_first pick new (l ∷ ls) =
    if pick l then some (l, new ∷ ls) else keep_line l (replace_first pick new ls)

-- An empty line, or one of a file other than this one.
abbrev pub free_for_file : ℕ → InodeCacheLine → Bool
free_for_file inp l = l.inp == 0 || not (is_directory l.type_and_indirection) && not (l.inp == inp)

-- The directory's own line of first indirection; an empty line or one of a file.
abbrev pub own_single : ℕ → InodeCacheLine → Bool
own_single inp l = l.inp == inp && is_singly_indirected l.type_and_indirection

abbrev pub free_for_directory : InodeCacheLine → Bool
free_for_directory l = l.inp == 0 || not (is_directory l.type_and_indirection)

abbrev pub single : InodeCacheLine → Bool
single l = is_singly_indirected l.type_and_indirection

-- The last resort of both policies: a line of first indirection moves to the table. The flag is
-- false for the result -1.
abbrev pub evicted : Cache → Option (InodeCacheLine × List InodeCacheLine) → Cache × Bool
evicted c none = (c, false)
evicted c (some (old, ls)) =
    (record (save_sector_in_cache old.sector old.buf c) { inode_lines = ls }, true)

unfoldable pub evict_single : InodeCacheLine → Cache → Cache × Bool
evict_single new c = evicted c (replace_first single new c.inode_lines)

-- A line that was found holds the new sector; if none was, something else is tried.
abbrev pub stored :
    Cache → Option (InodeCacheLine × List InodeCacheLine) → Cache × Bool → Cache × Bool
stored c none otherwise = otherwise
stored c (some (_, ls)) otherwise = (record c { inode_lines = ls }, true)

unfoldable pub save_file_sector_in_inode_cache : InodeCacheLine → Cache → Cache × Bool
save_file_sector_in_inode_cache new c =
    stored c (replace_first (free_for_file new.inp) new c.inode_lines) (evict_single new c)

unfoldable pub save_directory_sector_in_inode_cache : InodeCacheLine → Cache → Cache × Bool
save_directory_sector_in_inode_cache new c =
    stored c (replace_first (own_single new.inp) new c.inode_lines)
      (stored c (replace_first free_for_directory new c.inode_lines) (evict_single new c))

-- With no line found, the sector goes to the table.
abbrev pub or_save : InodeCacheLine → Cache × Bool → Cache
or_save new (c, true) = c
or_save new (c, false) = save_sector_in_cache new.sector new.buf c

unfoldable pub save_sector_in_inode_cache : InodeCacheLine → Cache → Cache
save_sector_in_inode_cache new c =
    if c.allocated && c.inode_enabled
    then or_save new (
        if is_directory new.type_and_indirection
        then save_directory_sector_in_inode_cache new c
        else save_file_sector_in_inode_cache new c)
    else if c.allocated
    then save_sector_in_cache new.sector new.buf c
    else c

-- `erase_sector_in_inode_cache`: the lines of an inode become empty; their sectors stay.
unfoldable pub erase_lines : ℕ → List InodeCacheLine → List InodeCacheLine
erase_lines inp [] = []
erase_lines inp (l ∷ ls) = (if l.inp == inp then record l { inp = 0 } else l) ∷ erase_lines inp ls

unfoldable pub erase_sector_in_inode_cache : ℕ → Cache → Cache
unfolding erase_lines
erase_sector_in_inode_cache inp c =
    if c.allocated && c.inode_enabled
    then record c { inode_lines = erase_lines inp c.inode_lines }
    else c
