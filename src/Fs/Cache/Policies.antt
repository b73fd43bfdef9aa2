-- ===== src/Fs/Cache/Policies.antt =====
-- The replacement policies of assign2/cachemem.c keep the cache coherent.
use cs.Prelude.{
  ℕ, zero, suc, ◌≡◌, refl, Bool, true, false, Option, none, some, List, [], ◌∷◌, ltb, not, ◌&&◌,
  if◌then◌else◌, replicate, All, arith,
}
use cs.Fs.Disk.{Buffer}
use cs.Fs.Cache.{
  Cache, InodeCacheLine, replace_first, evict_single, single, save_file_sector_in_inode_cache,
  save_directory_sector_in_inode_cache, save_sector_in_inode_cache, is_directory, free_for_file,
  own_single, free_for_directory, erase_lines, erase_sector_in_inode_cache, zero_line,
  zero_inode_line, cache_mem_init, max_cache_line, keep_line, evicted, stored, or_save,
}
use mathlib.Core.Path.{subst}
use cs.Fs.Cache.{fresh_cache, minimum_inode_cache_space}
use cs.Fs.Cache.Coherence.{
  LineAgrees, InodeLineAgrees, IsCoherent, IsCoherent-if, save_sector_in_cache-IsCoherent,
}

module _ (content : ℕ → Option Buffer) where
  -- The line that a search picked agreed, and so do the lines that it leaves.
  abbrev Replaced : Option (InodeCacheLine × List InodeCacheLine) → Type 0
  Replaced none = Unit {0}
  Replaced (some (old, ls)) = InodeLineAgrees content old × All (InodeLineAgrees content) ls

  Replaced-if :
      (b : Bool) (o q : Option (InodeCacheLine × List InodeCacheLine))
      → Replaced o
      → Replaced q
      → Replaced (if b then o else q)
  Replaced-if true o q h k = h
  Replaced-if false o q h k = k

  Replaced-keep_line :
      (l : InodeCacheLine) (o : Option (InodeCacheLine × List InodeCacheLine))
      → InodeLineAgrees content l
      → Replaced o
      → Replaced (keep_line l o)
  Replaced-keep_line l none h k = tt
  Replaced-keep_line l (some (old, ls)) h k = (k.0, (h, k.1))

  replace_first-Replaced :
      (pick : InodeCacheLine → Bool) (new : InodeCacheLine) (ls : List InodeCacheLine)
      → InodeLineAgrees content new
      → All (InodeLineAgrees content) ls
      → Replaced (replace_first pick new ls)
  unfolding replace_first
  replace_first-Replaced pick new [] n a = tt
  replace_first-Replaced pick new (l ∷ ls) n a =
      Replaced-if (pick l) (some (l, new ∷ ls)) (keep_line l (replace_first pick new ls))
        (a.0, (n, a.1))
        (Replaced-keep_line l (replace_first pick new ls) a.0
          (replace_first-Replaced pick new ls n a.1))

  evicted-IsCoherent :
      (c : Cache) (o : Option (InodeCacheLine × List InodeCacheLine))
      → IsCoherent content c
      → Replaced o
      → IsCoherent content (evicted c o).0
  evicted-IsCoherent c none h r = h
  evicted-IsCoherent c (some (old, ls)) h r =
      ((save_sector_in_cache-IsCoherent content old.sector old.buf c r.0 h).0, r.1)

  stored-IsCoherent :
      (c : Cache) (o : Option (InodeCacheLine × List InodeCacheLine)) (q : Cache × Bool)
      → IsCoherent content c
      → Replaced o
      → IsCoherent content q.0
      → IsCoherent content (stored c o q).0
  stored-IsCoherent c none q h r k = k
  stored-IsCoherent c (some (old, ls)) q h r k = (h.0, r.1)

  evict_single-IsCoherent :
      (new : InodeCacheLine) (c : Cache)
      → InodeLineAgrees content new
      → IsCoherent content c
      → IsCoherent content (evict_single new c).0
  unfolding evict_single
  evict_single-IsCoherent new c n h =
      evicted-IsCoherent c _ h (replace_first-Replaced single new c.inode_lines n h.1)

  save_file-IsCoherent :
      (new : InodeCacheLine) (c : Cache)
      → InodeLineAgrees content new
      → IsCoherent content c
      → IsCoherent content (save_file_sector_in_inode_cache new c).0
  unfolding save_file_sector_in_inode_cache
  save_file-IsCoherent new c n h =
      stored-IsCoherent c _ _ h
        (replace_first-Replaced (free_for_file new.inp) new c.inode_lines n h.1)
        (evict_single-IsCoherent new c n h)

  save_directory-IsCoherent :
      (new : InodeCacheLine) (c : Cache)
      → InodeLineAgrees content new
      → IsCoherent content c
      → IsCoherent content (save_directory_sector_in_inode_cache new c).0
  unfolding save_directory_sector_in_inode_cache
  save_directory-IsCoherent new c n h =
      stored-IsCoherent c _ _ h
        (replace_first-Replaced (own_single new.inp) new c.inode_lines n h.1)
        (stored-IsCoherent c _ _ h
          (replace_first-Replaced free_for_directory new c.inode_lines n h.1)
          (evict_single-IsCoherent new c n h))

  or_save-IsCoherent :
      (new : InodeCacheLine) (q : Cache × Bool)
      → InodeLineAgrees content new
      → IsCoherent content q.0
      → IsCoherent content (or_save new q)
  or_save-IsCoherent new (c, true) n h = h
  or_save-IsCoherent new (c, false) n h =
      save_sector_in_cache-IsCoherent content new.sector new.buf c n h

  chosen-IsCoherent :
      (b : Bool) (q r : Cache × Bool)
      → IsCoherent content q.0
      → IsCoherent content r.0
      → IsCoherent content (if b then q else r).0
  chosen-IsCoherent true q r h k = h
  chosen-IsCoherent false q r h k = k

  -- Saving an indirection block that agrees with the disk, or that of sector 0, in a coherent cache
  -- leaves it coherent, whatever line the replacement policy chooses and whatever line it moves.
  pub save_sector_in_inode_cache-IsCoherent :
      (new : InodeCacheLine) (c : Cache)
      → InodeLineAgrees content new
      → IsCoherent content c
      → IsCoherent content (save_sector_in_inode_cache new c)
  unfolding save_sector_in_inode_cache
  save_sector_in_inode_cache-IsCoherent new c n h =
      IsCoherent-if content (c.allocated && c.inode_enabled) _ _
        (or_save-IsCoherent new
          (if is_directory new.type_and_indirection
            then save_directory_sector_in_inode_cache new c
            else save_file_sector_in_inode_cache new c)
          n
          (chosen-IsCoherent (is_directory new.type_and_indirection)
            (save_directory_sector_in_inode_cache new c) (save_file_sector_in_inode_cache new c)
            (save_directory-IsCoherent new c n h) (save_file-IsCoherent new c n h)))
        (IsCoherent-if content c.allocated _ _
          (save_sector_in_cache-IsCoherent content new.sector new.buf c n h) h)

  erase_lines-All :
      (inp : ℕ) (ls : List InodeCacheLine)
      → All (InodeLineAgrees content) ls
      → All (InodeLineAgrees content) (erase_lines inp ls)
  unfolding erase_lines
  erase_lines-All inp [] a = tt
  erase_lines-All inp (l ∷ ls) a = (ground (arith, a.0), erase_lines-All inp ls a.1)

  pub erase_sector_in_inode_cache-IsCoherent :
      (inp : ℕ) (c : Cache)
      → IsCoherent content c
      → IsCoherent content (erase_sector_in_inode_cache inp c)
  unfolding erase_sector_in_inode_cache
  erase_sector_in_inode_cache-IsCoherent inp c h =
      IsCoherent-if content (c.allocated && c.inode_enabled) _ _
        (h.0, erase_lines-All inp c.inode_lines h.1) h

  replicate-lines : (n : ℕ) → All (LineAgrees content) (replicate n zero_line)
  replicate-lines zero = tt
  replicate-lines (suc n) = (λ ne. absurd (ne refl), replicate-lines n)

  replicate-inode_lines : (n : ℕ) → All (InodeLineAgrees content) (replicate n zero_inode_line)
  replicate-inode_lines zero = tt
  replicate-inode_lines (suc n) = (λ ne. absurd (ne refl), replicate-inode_lines n)

  fresh_cache-IsCoherent :
      (enabled : Bool) (size : ℕ) → IsCoherent content (fresh_cache enabled size)
  fresh_cache-IsCoherent true size =
      (replicate-lines (max_cache_line true size), replicate-inode_lines 36)
  fresh_cache-IsCoherent false size = (replicate-lines (max_cache_line false size), tt)

  -- A cache that `CacheMem_Init` has allocated is coherent with every disk.
  pub cache_mem_init-IsCoherent :
      (mapped : Bool) (size : ℕ) (c : Cache)
      → cache_mem_init mapped size ≡ some c
      → IsCoherent content c
  unfolding cache_mem_init
  cache_mem_init-IsCoherent mapped size c e =
      let enabled = not (ltb size minimum_inode_cache_space) in
      let same : fresh_cache enabled size ≡ c = ground arith in
      subst (IsCoherent content) same (fresh_cache-IsCoherent enabled size)
