-- ===== src/Fs/Fileops/Keeps.antt =====
-- What Fileops_getchar of assign2/fileops.c leaves as it is.
use cs.Prelude.{
  ℕ, zero, suc, ◌+◌, ◌-◌, ◌/◌, ◌%◌, ◌<◌, ◌≡◌, ◌≢◌, refl, sym, ap, ◌∙◌, true, false, none, some,
  List, [], ◌∷◌, length, get_or, set, ltb, leb, if◌then◌else◌, Bool-cases, inl, inr, arith,
  length-set,
}
use cs.Fs.Inode.{UnixFilesystem, inode_getsize}
use cs.Fs.File.{num_blocks, file_getblock_optimized}
use cs.Fs.Fileops.{OpenFile, Files, FileContent, zero_file, slot, set_slot, is_free}
use cs.Fs.Fileops.Read.{
  Char, char, end_of_file, aborted, can_read, char_of, fileops_getchar, prefetch_blocks,
  prefetch_file_contents, prefetch_needed, prefetched_file_content,
}
use cs.Fs.Fileops.Table.{get_or-set_self, get_or-set_ne}
use cs.Fs.Fileops.Prefetch.{suc_of}

get_or-set_same :
    {A : Type 0} (g : OpenFile → A) (fs : List OpenFile) (fd : ℕ) (f : OpenFile)
    → g f ≡ g (get_or fs fd zero_file)
    → g (get_or (set fs fd f) fd zero_file) ≡ g (get_or fs fd zero_file)
get_or-set_same g [] fd f h = refl
get_or-set_same g (x ∷ fs) zero f h = h
get_or-set_same g (x ∷ fs) (suc fd) f h = get_or-set_same g fs fd f h

-- The other slots, and of this one what the prefetching leaves.
abbrev pub IsKept : (fd : ℕ) → Files → Files → Type 0
IsKept fd st st' =
    ((slot st' fd).cursor ≡ (slot st fd).cursor)
    × ((slot st' fd).inode ≡ (slot st fd).inode)
    × ((slot st' fd).pathname ≡ (slot st fd).pathname)
    × ((fd' : ℕ) → fd ≢ fd' → slot st' fd' ≡ slot st fd')
    × (length st'.table ≡ length st.table)

set_slot-IsKept :
    (fd : ℕ) (st : Files) (f : OpenFile)
    → f.cursor ≡ (slot st fd).cursor
    → f.inode ≡ (slot st fd).inode
    → f.pathname ≡ (slot st fd).pathname
    → IsKept fd st (set_slot st fd f)
set_slot-IsKept fd st f c i p = (
  get_or-set_same (λ (g : OpenFile). g.cursor) st.table fd f c,
  get_or-set_same (λ (g : OpenFile). g.inode) st.table fd f i,
  get_or-set_same (λ (g : OpenFile). g.pathname) st.table fd f p,
  λ fd' ne. get_or-set_ne st.table fd fd' f ne,
  length-set st.table fd f,
)

IsKept-trans :
    (fd : ℕ) (st st1 st2 : Files) → IsKept fd st st1 → IsKept fd st1 st2 → IsKept fd st st2
IsKept-trans fd st st1 st2 (c, i, p, others, long) (c', i', p', others', long') =
    (c' ∙ c, i' ∙ i, p' ∙ p, λ fd' ne. others' fd' ne ∙ others fd' ne, long' ∙ long)

in_range : (fs : List OpenFile) (fd : ℕ) → is_free (get_or fs fd zero_file) ≡ false → fd < length fs
in_range [] fd h = ground (arith, h)
in_range (f ∷ fs) zero h = omega arith
in_range (f ∷ fs) (suc fd) h = let low = in_range fs fd h in omega (arith, low)

module _ (fs : UnixFilesystem) (at : ℕ) where
  prefetch_blocks-IsKept :
      (left b i fd : ℕ) (st : Files) → IsKept fd st (prefetch_blocks fs at left b i fd st)
  unfolding prefetch_blocks
  prefetch_blocks-IsKept zero b i fd st = (refl, refl, refl, λ fd' ne. refl, refl)
  prefetch_blocks-IsKept (suc left) b i fd st =
      let f : OpenFile = slot st fd in
      let p = file_getblock_optimized fs b at f.inode f.inode_iget_ok st.image in
      let st1 : Files = record st { image = p.1 } in
      let g : OpenFile = record f { content = set f.content i p.0 } in
      IsKept-trans fd st (set_slot st1 fd g)
        (prefetch_blocks fs at left (b + 1) (i + 1) fd (set_slot st1 fd g))
        (set_slot-IsKept fd st1 g refl refl refl)
        (prefetch_blocks-IsKept left (b + 1) (i + 1) fd (set_slot st1 fd g))

module _ (fs : UnixFilesystem) (at : ℕ → ℕ) (fd : ℕ) where
  prefetch_file_contents-IsKept : (st : Files) → IsKept fd st (prefetch_file_contents fs at fd st)
  unfolding prefetch_file_contents
  prefetch_file_contents-IsKept st =
      let f : OpenFile = slot st fd in
      let next = f.stored_blocks in
      let blocks = num_blocks (inode_getsize f.inode) in
      let stored = if leb blocks (next + 1) then blocks else next + 1 in
      let st1 : Files = set_slot st fd (record f { stored_blocks = stored }) in
      IsKept-trans fd st st1 (prefetch_blocks fs (at fd) (stored - next) next 0 fd st1)
        (set_slot-IsKept fd st (record f { stored_blocks = stored }) refl refl refl)
        (prefetch_blocks-IsKept fs (at fd) (stored - next) next 0 fd st1)

  -- What a call does to the table: it reads one byte before the end and moves on by one, or it moves
  -- nothing; the other slots stay.
  abbrev pub IsRead : Files → Char × Files → Type 0
  IsRead st (char c, st') =
      ((slot st fd).cursor < inode_getsize (slot st fd).inode)
      × ((slot st' fd).cursor ≡ (slot st fd).cursor + 1)
      × ((slot st' fd).inode ≡ (slot st fd).inode)
      × ((slot st' fd).pathname ≡ (slot st fd).pathname)
      × ((fd' : ℕ) → fd ≢ fd' → slot st' fd' ≡ slot st fd')
      × (length st'.table ≡ length st.table)
  IsRead st (end_of_file, st') = IsKept fd st st'
  IsRead st (aborted, st') = IsKept fd st st'

  open-in_table : (st : Files) → is_free (slot st fd) ≡ false → fd < length st.table
  open-in_table st h = in_range st.table fd h

  char_of-IsRead :
      (o : FileContent) (offset : ℕ) (st st1 : Files)
      → is_free (slot st1 fd) ≡ false
      → (slot st fd).cursor < inode_getsize (slot st fd).inode
      → IsKept fd st st1
      → IsRead st (char_of o fd offset st1)
  char_of-IsRead none offset st st1 taken inside k = k
  char_of-IsRead (some (v, buf)) offset st st1 taken inside (c, i, p, others, long) =
      elim (Bool-cases (ltb offset v)) [
        | inl read ↦
            let f : OpenFile = record (slot st1 fd) { cursor = (slot st1 fd).cursor + 1 } in
            let self = get_or-set_self st1.table fd f (open-in_table st1 taken) in
            rw (read) (
              inside,
              ap {A = OpenFile} (λ g. g.cursor) self ∙ ap suc_of c,
              ap {A = OpenFile} (λ g. g.inode) self ∙ i,
              ap {A = OpenFile} (λ g. g.pathname) self ∙ p,
              λ fd' ne. get_or-set_ne st1.table fd fd' f ne ∙ others fd' ne,
              length-set st1.table fd f ∙ long,
            )
        | inr short ↦ rw (short) (c, i, p, others, long)
      ]

  free_as : (f g : OpenFile) → f.pathname ≡ g.pathname → is_free f ≡ is_free g
  free_as f g e = ap (λ o. elim o [ none ↦ true | some _ ↦ false ]) e

  free-same : (st st' : Files) → IsKept fd st st' → is_free (slot st fd) ≡ is_free (slot st' fd)
  free-same st st' (c, i, p, others, long) =
      ap (λ o. elim o [ none ↦ true | some _ ↦ false ]) (sym p)

  pub fileops_getchar-IsRead : (st : Files) → IsRead st (fileops_getchar fs at fd st)
  unfolding fileops_getchar
  fileops_getchar-IsRead st =
      let f : OpenFile = slot st fd in
      let st1 : Files = record st { num_getchars = st.num_getchars + 1 } in
      let b = f.cursor / 512 in
      elim (Bool-cases (can_read f)) [
        | inl can ↦ elim (Bool-cases (prefetch_needed st1 fd b)) [
          | inl needed ↦
              let kept = prefetch_file_contents-IsKept st1 in
              let st2 = prefetch_file_contents fs at fd st1 in
              let taken : is_free f ≡ false = ground (arith, can) in
              rw (can, needed)
                (char_of-IsRead (prefetched_file_content st2 fd b) (f.cursor % 512) st st2
                  (sym (free-same st1 st2 kept) ∙ taken) (ground (arith, can)) kept)
          | inr ready ↦
              rw (can, ready)
                (char_of-IsRead (prefetched_file_content st1 fd b) (f.cursor % 512) st st1
                  (ground (arith, can)) (ground (arith, can))
                  (refl, refl, refl, λ fd' ne. refl, refl))
        ]
        | inr cannot ↦ rw (cannot) (refl, refl, refl, λ fd' ne. refl, refl)
      ]

  -- No file is opened or closed.
  pub IsRead-free :
      (st : Files) (r : Char × Files) → IsRead st r → is_free (slot r.1 fd) ≡ is_free (slot st fd)
  IsRead-free st (char c, st') (inside, moved, kept, named, others, long) =
      free_as (slot st' fd) (slot st fd) named
  IsRead-free st (end_of_file, st') (c, i, p, others, long) = free_as (slot st' fd) (slot st fd) p
  IsRead-free st (aborted, st') (c, i, p, others, long) = free_as (slot st' fd) (slot st fd) p

  -- The other slots stay as they are.
  pub IsRead-others :
      (st : Files) (r : Char × Files) (fd' : ℕ)
      → IsRead st r
      → fd ≢ fd'
      → (slot r.1 fd' ≡ slot st fd') × (length r.1.table ≡ length st.table)
  IsRead-others st (char c, st') fd' (inside, moved, kept, named, others, long) ne =
      (others fd' ne, long)
  IsRead-others st (end_of_file, st') fd' (c, i, p, others, long) ne = (others fd' ne, long)
  IsRead-others st (aborted, st') fd' (c, i, p, others, long) ne = (others fd' ne, long)
