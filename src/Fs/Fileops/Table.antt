-- ===== src/Fs/Fileops/Table.antt =====
-- The table of open files in assign2/fileops.c.
use cs.Prelude.{
  ℕ, zero, suc, ◌+◌, ◌<◌, ◌≤◌, ◌≡◌, ◌≢◌, ◌↔◌, refl, ap, true, Option, none, some, List, [], ◌∷◌,
  if◌then◌else◌, length, get_or, set, Bool-cases, Option-cases, inl, inr, eq_of_some, arith,
}
use cs.Fs.Inode.{Inode}
use cs.Fs.Directory.{Name}
use cs.Fs.Fileops.{
  OpenFile, Files, zero_file, slot, is_free, find_slot, opened_file, take_slot,
  optimized_fileops_open, fileops_tell,
}

-- The number of files that are open.
pub count_open : List OpenFile → ℕ
count_open [] = 0
count_open (f ∷ fs) = (if is_free f then 0 else 1) + count_open fs

pub get_or-set_self :
    (fs : List OpenFile) (fd : ℕ) (f : OpenFile)
    → fd < length fs
    → get_or (set fs fd f) fd zero_file ≡ f
get_or-set_self [] fd f h = ground arith
get_or-set_self (g ∷ fs) zero f h = refl
get_or-set_self (g ∷ fs) (suc fd) f h = get_or-set_self fs fd f (omega arith)

pub get_or-set_ne :
    (fs : List OpenFile) (fd fd' : ℕ) (f : OpenFile)
    → fd ≢ fd'
    → get_or (set fs fd f) fd' zero_file ≡ get_or fs fd' zero_file
get_or-set_ne [] fd fd' f h = refl
get_or-set_ne (g ∷ fs) zero zero f h = absurd (h refl)
get_or-set_ne (g ∷ fs) zero (suc fd') f h = refl
get_or-set_ne (g ∷ fs) (suc fd) zero f h = refl
get_or-set_ne (g ∷ fs) (suc fd) (suc fd') f h = get_or-set_ne fs fd fd' f (λ e. h (ap suc e))

pub find_slot-free :
    (fs : List OpenFile) (fd : ℕ)
    → find_slot fs ≡ some fd
    → (fd < length fs) × (is_free (get_or fs fd zero_file) ≡ true)
unfolding find_slot
find_slot-free [] fd e = ground arith
find_slot-free (f ∷ fs) fd e = elim (Bool-cases (is_free f)) [
  | inl v ↦ ground (arith, v)
  | inr v ↦ elim (Option-cases (find_slot fs)) [
    | inl n ↦ ground (arith, v, n)
    | inr (fd', s) ↦
        let same : suc fd' ≡ fd = ground (arith, v, s) in
        let (low, free) = find_slot-free fs fd' s in rw (← same) (omega arith, free)
  ]
]

count_open-le : (fs : List OpenFile) → count_open fs ≤ length fs
unfolding count_open
count_open-le [] = omega arith
count_open-le (f ∷ fs) = let rest = count_open-le fs in ground (arith, rest)

find_slot-none : (fs : List OpenFile) → (find_slot fs ≡ none) ↔ (count_open fs ≡ length fs)
unfolding find_slot count_open
find_slot-none [] = ground arith
find_slot-none (f ∷ fs) =
    let rest = find_slot-none fs in let le = count_open-le fs in ground (arith, rest, le)

-- What is known of a slot that was taken.
abbrev IsFresh : ℕ → Files → Files → Type 0
IsFresh fd st st' =
    (fileops_tell fd st ≡ none)
    × (fileops_tell fd st' ≡ some 0)
    × ((fd' : ℕ) → fd ≢ fd' → slot st' fd' ≡ slot st fd')

take_slot-IsFresh :
    (o : Option ℕ) (pathname : Name) (inumber : ℕ) (inode : Inode) (inp : ℕ) (st : Files) (fd : ℕ)
    → find_slot st.table ≡ o
    → (take_slot o pathname inumber inode inp st).0 ≡ some fd
    → IsFresh fd st (take_slot o pathname inumber inode inp st).1
unfolding fileops_tell
take_slot-IsFresh none pathname inumber inode inp st fd s e = ground (arith, e)
take_slot-IsFresh (some fd'') pathname inumber inode inp st fd s e =
    let (low, free) = find_slot-free st.table fd'' s in
    let set_self =
      get_or-set_self st.table fd'' (opened_file pathname inumber inode inp (slot st fd'')) low in
    rw (← eq_of_some e) (
      rw free refl,
      rw set_self refl,
      λ fd' ne.
          get_or-set_ne st.table fd'' fd' (opened_file pathname inumber inode inp (slot st fd''))
            ne,
    )

-- A file that `optimized_fileops_open` opens was not open under its descriptor, is at its first byte,
-- and no other slot of the table changes.
pub optimized_fileops_open-IsFresh :
    (pathname : Name) (inumber : ℕ) (inode : Inode) (inp : ℕ) (st : Files) (fd : ℕ)
    → (optimized_fileops_open pathname (some inumber) inode inp true st).0 ≡ some fd
    → IsFresh fd st (optimized_fileops_open pathname (some inumber) inode inp true st).1
unfolding optimized_fileops_open fileops_tell
optimized_fileops_open-IsFresh pathname inumber inode inp st fd e =
    take_slot-IsFresh (find_slot st.table) pathname inumber inode inp
      (record st { num_opens = st.num_opens + 1 }) fd refl e

-- With an inode that could be read, `optimized_fileops_open` fails exactly when the number of open
-- files is the length of the table.
pub optimized_fileops_open-full :
    (pathname : Name) (inumber : ℕ) (inode : Inode) (inp : ℕ) (st : Files)
    → ((optimized_fileops_open pathname (some inumber) inode inp true st).0 ≡ none)
      ↔ (count_open st.table ≡ length st.table)
unfolding optimized_fileops_open fileops_tell
optimized_fileops_open-full pathname inumber inode inp st =
    let full = find_slot-none st.table in
    elim (Option-cases (find_slot st.table)) [
      | inl n ↦ ground (arith, full, n)
      | inr (fd, s) ↦ ground (arith, full, s)
    ]
