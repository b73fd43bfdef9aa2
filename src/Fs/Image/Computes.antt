-- ===== src/Fs/Image/Computes.antt =====
-- Reading through the cache of assign2/diskimg.c yields what reading from the disk yields.
use cs.Prelude.{
  ℕ, ◌≡◌, refl, sym, Bool, true, false, Option, none, some, ◌==◌, if◌then◌else◌, Option-cases,
  Bool-cases, arith, inl, inr,
}
use mathlib.Core.Option
use cs.Fs.Disk.{Disk, Buffer, sector_size, disksim_readsector, IsWhole}
use cs.Fs.Cache.{Cache, fetch_sector_in_cache, save_sector_in_cache}
use cs.Fs.Cache.Coherence.{
  IsCoherent, fetch_sector_in_cache-agrees, save_sector_in_cache-IsCoherent,
}
use cs.Fs.Cache.Policies.{save_sector_in_inode_cache-IsCoherent}
use cs.Fs.Image.{
  Image, M, pure, failure, and_then, ◌>>=◌, ◌>>◌, guard, count_read, count_sim_read, kept,
  from_cache, diskimg_readsector, diskimg_readsector_inode, read_whole,
}

-- What a sector holds, if it can be read.
abbrev pub content : Disk → ℕ → Option Buffer
content d s = Option.map (λ r. r.1) (disksim_readsector d s)

-- The cache holds what is on the disk.
abbrev pub IsFaithful : Disk → Image → Type 0
IsFaithful d st = IsCoherent (content d) st.cache

-- A result `r`, and a faithful cache.
abbrev pub Yields : {A : Type 0} → Disk → Option A × Image → Option A → Type 0
Yields d p r = (p.0 ≡ r) × IsFaithful d p.1

-- From every state with a faithful cache, `m` returns `r` and leaves the cache faithful.
abbrev pub Computes : {A : Type 0} → Disk → M A → Option A → Type 0
Computes d m r = (st : Image) → IsFaithful d st → Yields d (m st) r

module _ (d : Disk) where
  pub Computes-pure : {A : Type 0} (a : A) → Computes d (pure a) (some a)
  Computes-pure a st h = (refl, h)

  pub Computes-failure : {A : Type 0} → Computes d (failure {A = A}) none
  Computes-failure st h = (refl, h)

  pub Computes-≡ :
      {A : Type 0} (m : M A) (r r' : Option A) → Computes d m r → r ≡ r' → Computes d m r'
  Computes-≡ m r r' h e st i = rw (← e) (h st i)

  and_then-Computes :
      {A B : Type 0} (p : Option A × Image) (r : Option A) (f : A → M B) (g : A → Option B)
      → p.0 ≡ r
      → IsFaithful d p.1
      → ((a : A) → Computes d (f a) (g a))
      → ((and_then p f).0 ≡ Option.bind r g) × IsFaithful d (and_then p f).1
  unfolding Option.bind
  and_then-Computes (none, st) r f g e h k = rw (← e) (refl, h)
  and_then-Computes (some a, st) r f g e h k = rw (← e) (k a st h)

  pub Computes-bind :
      {A B : Type 0} (m : M A) (r : Option A) (f : A → M B) (g : A → Option B)
      → Computes d m r
      → ((a : A) → Computes d (f a) (g a))
      → Computes d (m >>= f) (Option.bind r g)
  Computes-bind m r f g h k st i = let (e, i') = h st i in and_then-Computes (m st) r f g e i' k

  -- `keep` may be given the contents of the sector.
  abbrev Keeps : (Buffer → Cache → Cache) → ℕ → Type 0
  Keeps keep s =
      (b : Buffer) (c : Cache)
      → content d s ≡ some b
      → IsCoherent (content d) c
      → IsCoherent (content d) (keep b c)

  whole-content :
      (s n : ℕ) (b : Buffer) → IsWhole d → disksim_readsector d s ≡ some (n, b) → n ≡ sector_size
  unfolding disksim_readsector
  whole-content s n b w e = elim (Option-cases (d.read s)) [
    | inl g ↦ ground (arith, g)
    | inr (bytes, g) ↦ ground (arith, g, w s bytes g)
  ]

  content-read :
      (s : ℕ) (b : Buffer)
      → IsWhole d
      → content d s ≡ some b
      → disksim_readsector d s ≡ some (sector_size, b)
  content-read s b w e = elim (Option-cases (disksim_readsector d s)) [
    | inl g ↦ ground (arith, g)
    | inr ((n, b'), g) ↦ ground (arith, g, whole-content s n b' w g)
  ]

  kept-Computes :
      (keep : Buffer → Cache → Cache) (s : ℕ) (o : Option (ℕ × Buffer)) (st : Image)
      → Keeps keep s
      → disksim_readsector d s ≡ o
      → IsFaithful d st
      → ((kept keep s o st).0 ≡ o) × IsFaithful d (kept keep s o st).1
  kept-Computes keep s none st k e h = (refl, h)
  kept-Computes keep s (some (n, b)) st k e h = elim (Bool-cases (s == 0)) [
    | inl z ↦ rw (z, kept) (refl, h)
    | inr nz ↦ rw (nz, kept) (refl, k b st.cache (rw e) h)
  ]

  from_cache-Computes :
      (keep : Buffer → Cache → Cache) (s : ℕ) (o : Option Buffer) (st : Image)
      → IsWhole d
      → Keeps keep s
      → ((b : Buffer) → o ≡ some b → content d s ≡ some b)
      → IsFaithful d st
      → ((from_cache d keep s o st).0 ≡ disksim_readsector d s)
        × IsFaithful d (from_cache d keep s o st).1
  from_cache-Computes keep s none st w k hit h =
      kept-Computes keep s (disksim_readsector d s) (count_sim_read st) k refl h
  from_cache-Computes keep s (some b) st w k hit h = (sym (content-read s b w (hit b refl)), h)

  looked_up :
      (s : ℕ) (c : Cache) (b : Buffer)
      → IsCoherent (content d) c
      → (if s == 0 then none else fetch_sector_in_cache s c) ≡ some b
      → content d s ≡ some b
  looked_up s c b h e = elim (Bool-cases (s == 0)) [
    | inl z ↦ ground (arith, z)
    | inr nz ↦ fetch_sector_in_cache-agrees (content d) s c b h (ground arith) (rw nz at e)
  ]

  -- On a disk whose readable sectors are whole, with a faithful cache: `diskimg_readsector` yields what
  -- `disksim_readsector` reads from the disk, a failure included, and leaves the cache faithful.
  pub diskimg_readsector-Computes :
      (s : ℕ)
      → IsWhole d
      → (st : Image) → IsFaithful d st
      → Yields d (diskimg_readsector d s st) (disksim_readsector d s)
  unfolding diskimg_readsector
  diskimg_readsector-Computes s w st h =
      from_cache-Computes (save_sector_in_cache s) s _ (count_read st) w
        (λ b c e i. save_sector_in_cache-IsCoherent (content d) s b c (λ _. e) i)
        (λ b. looked_up s st.cache b h) h

  -- On a disk whose readable sectors are whole, with a faithful cache: `diskimg_readsector_inode` yields
  -- what `disksim_readsector` reads from the disk, a failure included, for every inode and kind of
  -- block, and leaves the cache faithful.
  pub diskimg_readsector_inode-Computes :
      (s inp t : ℕ)
      → IsWhole d
      → (st : Image) → IsFaithful d st
      → Yields d (diskimg_readsector_inode d s inp t st) (disksim_readsector d s)
  unfolding diskimg_readsector_inode
  diskimg_readsector_inode-Computes s inp t w st h =
      from_cache-Computes _ s _ (count_read st) w
        (λ b c e i. save_sector_in_inode_cache-IsCoherent (content d) _ c (λ _. e) i)
        (λ b. looked_up s st.cache b h) h

  -- A bind whose two parts are known at the result.
  pub Computes-then :
      {A B : Type 0} (m : M A) (r : Option A) (f : A → M B) (q : Option B)
      → Computes d m r
      → ((a : A) → r ≡ some a → Computes d (f a) q)
      → (r ≡ none → q ≡ none)
      → Computes d (m >>= f) q
  Computes-then m r f q h k z st i = let (e, i') = h st i in and_then-then (m st) e i'
    where
      and_then-then :
          (p : Option _ × Image)
          → p.0 ≡ r
          → IsFaithful d p.1
          → ((and_then p f).0 ≡ q) × IsFaithful d (and_then p f).1
      and_then-then (none, st') e i' = (sym (z (sym e)), i')
      and_then-then (some a, st') e i' = k a (sym e) st' i'

  pub Computes-guard : (b : Bool) → Computes d (guard b) (if b then some tt else none)
  Computes-guard true st h = (refl, h)
  Computes-guard false st h = (refl, h)

  -- A guarded computation.
  pub Computes-when :
      {A : Type 0} (b : Bool) (m : M A) (r : Option A)
      → (b ≡ true → Computes d m r)
      → (b ≡ false → r ≡ none)
      → Computes d (guard b >> m) r
  Computes-when true m r h k st i = h refl st i
  Computes-when false m r h k st i = (sym (k refl), i)

  pub Computes-if :
      {A : Type 0} (b : Bool) (m m' : M A) (r r' : Option A)
      → Computes d m r
      → Computes d m' r'
      → Computes d (if b then m else m') (if b then r else r')
  Computes-if true m m' r r' h h' = h
  Computes-if false m m' r r' h h' = h'

  -- A read that must yield a whole sector yields what the sector holds.
  pub read_whole-Computes :
      (m : M (ℕ × Buffer)) (s : ℕ)
      → IsWhole d
      → Computes d m (disksim_readsector d s)
      → Computes d (read_whole m) (content d s)
  unfolding read_whole
  read_whole-Computes m s w h =
      Computes-then m (disksim_readsector d s) _ (content d s) h
        (λ (n, b) e st i. rw (whole-content s n b w e, e) (refl, i)) (λ e. rw e)
