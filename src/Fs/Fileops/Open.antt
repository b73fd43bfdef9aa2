-- ===== src/Fs/Fileops/Open.antt =====
-- Which descriptors of the table in assign2/fileops.c are open.
use cs.Prelude.{
  ℕ, zero, suc, ◌+◌, ◌≡◌, ◌≢◌, ◌⊎◌, refl, sym, ap, ◌∙◌, Bool, true, false, Option, none, some, List,
  [], ◌∷◌, get_or, set, ◌==◌, Bool-cases, inl, inr, arith,
}
use mathlib.Core.Path.{subst}
use cs.Fs.Inode.{Inode, UnixFilesystem, inode_iget}
use cs.Fs.Directory.{Name}
use cs.Fs.Pathname.{pathname_lookup}
use cs.Fs.Fileops.{
  OpenFile, Files, zero_file, slot, is_free, find_slot, opened_file, take_slot,
  optimized_fileops_open, fileops_open, fileops_close, optimized_fileops_isfile, open_inumber,
  open_inode, on_image,
}
use cs.Fs.Fileops.Read.{
  Char, char, end_of_file, aborted, after_char, fileops_getchar, read_chars, fileops_read,
}
use cs.Fs.Fileops.Keeps.{IsRead-free, IsRead-others, fileops_getchar-IsRead}
use cs.Fs.Fileops.Table.{find_slot-free, get_or-set_ne}

-- The same descriptors are open.
abbrev pub IsOpenAs : Files → Files → Type 0
IsOpenAs st st' = (fd : ℕ) → is_free (slot st' fd) ≡ is_free (slot st fd)

-- One more descriptor is open.
abbrev pub IsOpened : (fd : ℕ) → Files → Files → Type 0
IsOpened fd st st' =
    (is_free (slot st fd) ≡ true)
    × ((fd' : ℕ) → fd ≢ fd' → is_free (slot st' fd') ≡ is_free (slot st fd'))

-- What an attempt to open does.
abbrev pub IsAttempt : Files → Option ℕ × Files → Type 0
IsAttempt st (none, st') = IsOpenAs st st'
IsAttempt st (some fd, st') = IsOpened fd st st'

take_slot-IsAttempt :
    (o : Option ℕ) (pathname : Name) (inumber : ℕ) (inode : Inode) (inp : ℕ) (st : Files)
    → find_slot st.table ≡ o
    → IsAttempt st (take_slot o pathname inumber inode inp st)
take_slot-IsAttempt none pathname inumber inode inp st e = λ fd. refl
take_slot-IsAttempt (some fd) pathname inumber inode inp st e =
    let (low, free) = find_slot-free st.table fd e in
    (
      free,
      λ fd' ne.
          ap is_free (
            get_or-set_ne st.table fd fd' (opened_file pathname inumber inode inp (slot st fd)) ne),
    )

pub optimized_fileops_open-IsAttempt :
    (pathname : Name) (inumber : ℕ) (inode : Inode) (inp : ℕ) (ok : Bool) (st : Files)
    → IsAttempt st (optimized_fileops_open pathname (some inumber) inode inp ok st)
unfolding optimized_fileops_open
optimized_fileops_open-IsAttempt pathname inumber inode inp true st =
    take_slot-IsAttempt (find_slot st.table) pathname inumber inode inp
      (record st { num_opens = st.num_opens + 1 }) refl
optimized_fileops_open-IsAttempt pathname inumber inode inp false st = λ fd. refl

IsAttempt-image :
    (st st0 : Files) (r : Option ℕ × Files)
    → st.table ≡ st0.table
    → IsAttempt st r
    → IsAttempt st0 r
IsAttempt-image st st0 (none, st') e h = λ fd. h fd ∙ ap (λ t. is_free (get_or t fd zero_file)) e
IsAttempt-image st st0 (some fd, st') e (free, others) = (
  ap (λ t. is_free (get_or t fd zero_file)) (sym e) ∙ free,
  λ fd' ne. others fd' ne ∙ ap (λ t. is_free (get_or t fd' zero_file)) e,
)

open_inode-IsAttempt :
    (o : Option Inode) (st : Files) (pathname : Name) (inumber inp : ℕ)
    → IsAttempt st (open_inode (o, st) pathname inumber inp)
open_inode-IsAttempt none st pathname inumber inp = λ fd. refl
open_inode-IsAttempt (some inode) st pathname inumber inp =
    take_slot-IsAttempt (find_slot st.table) pathname inumber inode inp st refl

open_inumber-IsAttempt :
    (fs : UnixFilesystem) (o : Option ℕ) (st : Files) (pathname : Name) (inp : ℕ)
    → IsAttempt st (open_inumber fs (o, st) pathname inp)
open_inumber-IsAttempt fs none st pathname inp = λ fd. refl
open_inumber-IsAttempt fs (some inumber) st pathname inp =
    let p = on_image (inode_iget fs inumber st.image) st in
    IsAttempt-image p.1 st (open_inode p pathname inumber inp) refl
      (open_inode-IsAttempt p.0 p.1 pathname inumber inp)

pub fileops_open-IsAttempt :
    (fs : UnixFilesystem) (pathname : Name) (local inp : ℕ) (st : Files)
    → IsAttempt st (fileops_open fs pathname local inp st)
unfolding fileops_open
fileops_open-IsAttempt fs pathname local inp st =
    let p =
      on_image (pathname_lookup fs local pathname st.image)
        (record st { num_opens = st.num_opens + 1 }) in
    IsAttempt-image p.1 st (open_inumber fs p pathname inp) refl
      (open_inumber-IsAttempt fs p.0 p.1 pathname inp)

same_or_not : (fd fd' : ℕ) → (fd ≡ fd') ⊎ (fd ≢ fd')
same_or_not fd fd' = elim (Bool-cases (fd == fd')) [
  | inl e ↦ inl (ground (arith, e))
  | inr e ↦ inr (λ same. ground (arith, e, same))
]

pub fileops_getchar-IsOpenAs :
    (fs : UnixFilesystem) (at : ℕ → ℕ) (fd : ℕ) (st : Files)
    → IsOpenAs st (fileops_getchar fs at fd st).1
fileops_getchar-IsOpenAs fs at fd st fd' =
    let r = fileops_getchar fs at fd st in
    let read = fileops_getchar-IsRead fs at fd st in
    elim (same_or_not fd fd') [
      | inl same ↦
          subst (λ n. is_free (slot r.1 n) ≡ is_free (slot st n)) same
            (IsRead-free fs at fd st r read)
      | inr ne ↦ ap is_free (IsRead-others fs at fd st r fd' read ne).0
    ]

pub set-is_free :
    (fs : List OpenFile) (fd : ℕ) (f : OpenFile)
    → is_free f ≡ true
    → is_free (get_or (set fs fd f) fd zero_file) ≡ true
set-is_free [] fd f h = refl
set-is_free (g ∷ fs) zero f h = h
set-is_free (g ∷ fs) (suc fd) f h = set-is_free fs fd f h

-- A descriptor that was closed is not open, and the others stay.
pub fileops_close-frees :
    (fd : ℕ) (st : Files)
    → (is_free (slot (fileops_close fd st).1 fd) ≡ true)
      × ((fd' : ℕ) → fd ≢ fd' → is_free (slot (fileops_close fd st).1 fd') ≡ is_free (slot st fd'))
unfolding fileops_close
fileops_close-frees fd st = elim (Bool-cases (is_free (slot st fd))) [
  | inl free ↦ rw (free) (free, λ fd' ne. refl)
  | inr taken ↦
      let f : OpenFile = record (slot st fd) { pathname = none } in
      rw (taken)
        (set-is_free st.table fd f refl, λ fd' ne. ap is_free (get_or-set_ne st.table fd fd' f ne))
]

-- A file that was opened and then closed.
pub opened-closed :
    (fd : ℕ) (st st1 st2 : Files)
    → IsOpened fd st st1
    → IsOpenAs st1 st2
    → IsOpenAs st (fileops_close fd st2).1
opened-closed fd st st1 st2 (free, others) same fd' =
    let (freed, kept) = fileops_close-frees fd st2 in
    elim (same_or_not fd fd') [
      | inl e ↦
          subst (λ n. is_free (slot (fileops_close fd st2).1 n) ≡ is_free (slot st n)) e
            (freed ∙ sym free)
      | inr ne ↦ kept fd' ne ∙ same fd' ∙ others fd' ne
    ]

-- Two files that were opened one after the other and then closed.
pub both-closed :
    (fd1 fd2 : ℕ) (st st1 st2 st3 : Files)
    → IsOpened fd1 st st1
    → IsOpened fd2 st1 st2
    → IsOpenAs st2 st3
    → IsOpenAs st (fileops_close fd2 (fileops_close fd1 st3).1).1
both-closed fd1 fd2 st st1 st2 st3 (free1, others1) (free2, others2) same fd =
    let st4 = (fileops_close fd1 st3).1 in
    let (freed1, kept1) = fileops_close-frees fd1 st3 in
    let (freed2, kept2) = fileops_close-frees fd2 st4 in
    let first_free : fd1 ≡ fd → is_free (slot st fd) ≡ true =
      λ e. subst (λ n. is_free (slot st n) ≡ true) e free1 in
    elim (same_or_not fd2 fd) [
      | inl e2 ↦
          let now = subst (λ n. is_free (slot (fileops_close fd2 st4).1 n) ≡ true) e2 freed2 in
          let then_free = subst (λ n. is_free (slot st1 n) ≡ true) e2 free2 in
          elim (same_or_not fd1 fd) [
            | inl e1 ↦ now ∙ sym (first_free e1)
            | inr ne1 ↦ now ∙ sym then_free ∙ others1 fd ne1
          ]
      | inr ne2 ↦ elim (same_or_not fd1 fd) [
        | inl e1 ↦
            let closed = subst (λ n. is_free (slot st4 n) ≡ true) e1 freed1 in
            kept2 fd ne2 ∙ closed ∙ sym (first_free e1)
        | inr ne1 ↦ kept2 fd ne2 ∙ kept1 fd ne1 ∙ same fd ∙ others2 fd ne2 ∙ others1 fd ne1
      ]
    ]

pub IsOpenAs-trans : (st st1 st2 : Files) → IsOpenAs st st1 → IsOpenAs st1 st2 → IsOpenAs st st2
IsOpenAs-trans st st1 st2 h k fd = k fd ∙ h fd

after_char-IsOpenAs :
    (c : Char) (rest : (List ℕ × Bool) × Files) (st st' : Files)
    → IsOpenAs st st'
    → IsOpenAs st rest.1
    → IsOpenAs st (after_char c rest st').1
after_char-IsOpenAs (char c) ((cs, failed), st2) st st' h k = k
after_char-IsOpenAs end_of_file rest st st' h k = h
after_char-IsOpenAs aborted rest st st' h k = h

read_chars-IsOpenAs :
    (fs : UnixFilesystem) (at : ℕ → ℕ) (fd n : ℕ) (st st1 : Files)
    → IsOpenAs st st1
    → IsOpenAs st (read_chars fs at fd n st1).1
unfolding read_chars
read_chars-IsOpenAs fs at fd zero st st1 h = h
read_chars-IsOpenAs fs at fd (suc n) st st1 h =
    let r = fileops_getchar fs at fd st1 in
    let same = IsOpenAs-trans st st1 r.1 h (fileops_getchar-IsOpenAs fs at fd st1) in
    after_char-IsOpenAs r.0 (read_chars fs at fd n r.1) st r.1 same
      (read_chars-IsOpenAs fs at fd n st r.1 same)

pub fileops_read-IsOpenAs :
    (fs : UnixFilesystem) (at : ℕ → ℕ) (fd n : ℕ) (st : Files)
    → IsOpenAs st (fileops_read fs at fd n st).1
unfolding fileops_read
fileops_read-IsOpenAs fs at fd n st =
    read_chars-IsOpenAs fs at fd n st (record st { num_reads = st.num_reads + 1 }) (λ fd'. refl)

pub optimized_fileops_isfile-IsOpenAs :
    (fs : UnixFilesystem) (inumber : ℕ) (st : Files)
    → IsOpenAs st (optimized_fileops_isfile fs inumber st).1
unfolding optimized_fileops_isfile
optimized_fileops_isfile-IsOpenAs fs inumber st fd = refl
