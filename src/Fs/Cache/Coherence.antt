-- ===== src/Fs/Cache/Coherence.antt =====
-- The cache of assign2/cachemem.c holds what is on the disk, and every operation keeps it so.
use cs.Prelude.{
  ℕ, zero, suc, ◌≡◌, ◌≢◌, Bool, true, false, Option, none, some, List, [], ◌∷◌, ◌==◌, if◌then◌else◌,
  length, get_elem?, set, All, Bool-cases, Option-cases, arith, inl, inr, eq_of_some,
}
use cs.Fs.Disk.{Buffer}
use cs.Fs.Cache.{
  Cache, CacheLine, InodeCacheLine, holds, line_index, find_inode_line, fetch_sector_in_cache,
  save_sector_in_cache,
}

-- `content` says what a sector holds, if it can be read. A line with sector 0 is empty.
module _ (content : ℕ → Option Buffer) where
  abbrev pub LineAgrees : CacheLine → Type 0
  LineAgrees l = l.sector ≢ 0 → content l.sector ≡ some l.buf

  abbrev pub InodeLineAgrees : InodeCacheLine → Type 0
  InodeLineAgrees l = l.sector ≢ 0 → content l.sector ≡ some l.buf

  abbrev pub IsCoherent : Cache → Type 0
  IsCoherent c = All LineAgrees c.lines × All InodeLineAgrees c.inode_lines

  pub IsCoherent-if :
      (b : Bool) (c c' : Cache) → IsCoherent c → IsCoherent c' → IsCoherent (if b then c else c')
  IsCoherent-if true c c' h k = h
  IsCoherent-if false c c' h k = k

  set-All :
      (ls : List CacheLine) (i : ℕ) (l : CacheLine)
      → LineAgrees l
      → All LineAgrees ls
      → All LineAgrees (set ls i l)
  set-All [] i l h a = tt
  set-All (m ∷ ls) zero l h a = (h, a.1)
  set-All (m ∷ ls) (suc i) l h a = (a.0, set-All ls i l h a.1)

  get_elem?-All :
      (ls : List CacheLine) (i : ℕ) (l : CacheLine)
      → get_elem? ls i ≡ some l
      → All LineAgrees ls
      → LineAgrees l
  get_elem?-All [] i l e a = cc
  get_elem?-All (m ∷ ls) zero l e a = ground (arith, eq_of_some e)
  get_elem?-All (m ∷ ls) (suc i) l e a = get_elem?-All ls i l e a.1

  find_inode_line-agrees :
      (s : ℕ) (ls : List InodeCacheLine) (b : Buffer)
      → s ≢ 0
      → find_inode_line s ls ≡ some b
      → All InodeLineAgrees ls
      → content s ≡ some b
  unfolding find_inode_line
  find_inode_line-agrees s [] b ne e a = cc
  find_inode_line-agrees s (l ∷ ls) b ne e a = elim (Bool-cases (l.sector == s)) [
    | inl h ↦ ground (arith, h, a.0)
    | inr h ↦ find_inode_line-agrees s ls b ne (rw h at e) a.1
  ]

  holds-agrees :
      (s : ℕ) (ls : List CacheLine) (i : ℕ) (b : Buffer)
      → s ≢ 0
      → holds s (get_elem? ls i) ≡ some b
      → All LineAgrees ls
      → content s ≡ some b
  holds-agrees s ls i b ne e a = elim (Option-cases (get_elem? ls i)) [
    | inl g ↦ let bad : none ≡ some b = rw (g, holds) at e in cc
    | inr (l, g) ↦
        let hit : holds s (some l) ≡ some b = rw g at e in ground (arith, get_elem?-All ls i l g a)
  ]

  -- In a coherent cache, a hit for a sector other than 0 yields what the sector holds, from both
  -- parts of the cache.
  pub fetch_sector_in_cache-agrees :
      (s : ℕ) (c : Cache) (b : Buffer)
      → IsCoherent c
      → s ≢ 0
      → fetch_sector_in_cache s c ≡ some b
      → content s ≡ some b
  unfolding fetch_sector_in_cache
  fetch_sector_in_cache-agrees s c b h ne e =
      let i = line_index s (length c.lines) in
      ground (
        arith,
        holds-agrees s c.lines i b ne,
        find_inode_line-agrees s c.inode_lines b ne,
        h.0,
        h.1,
      )

  pub save_sector_in_cache-IsCoherent :
      (s : ℕ) (b : Buffer) (c : Cache)
      → (s ≢ 0 → content s ≡ some b)
      → IsCoherent c
      → IsCoherent (save_sector_in_cache s b c)
  unfolding save_sector_in_cache
  save_sector_in_cache-IsCoherent s b c e h =
      let new : CacheLine = record { sector = s; buf = b } in
      let i = line_index s (length c.lines) in
      IsCoherent-if c.allocated (record c { lines = set c.lines i new }) c
        (set-All c.lines i new e h.0, h.1) h
