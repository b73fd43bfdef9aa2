-- ===== src/Search/Pathstore/Descriptors.antt =====
-- The descriptors that assign2/pathstore.c leaves open.
use cs.Prelude.{
  ℕ, zero, suc, ◌+◌, refl, Bool, true, false, Option, none, some, List, [], ◌∷◌, ◌==◌, Bool-cases,
  inl, inr,
}
use cs.Fs.Inode.{Inode, UnixFilesystem}
use cs.Fs.Directory.{Name}
use cs.Fs.Checksum.{Sha, chksumfile_compare, optimized_chksumfile_byinode}
use cs.Fs.Fileops.{Files, fileops_open, on_image}
use cs.Fs.Fileops.Read.{Char, char, end_of_file, aborted, fileops_getchar}
use cs.Fs.Fileops.Open.{
  IsOpenAs, IsOpened, IsAttempt, fileops_getchar-IsOpenAs, fileops_open-IsAttempt, IsOpenAs-trans,
  opened-closed, both-closed,
}
use cs.Search.Outcome.{Outcome, Whenever, Whenever-bind}
use cs.Search.Pathstore.{
  PathstoreElement, Pathstore, Stored, checked_char, compared, same_content, compare_open,
  open_second, open_first, is_same_file, same_file_is_in_store, add_element, unless_same,
  chksum_or_zeros, store_unless_known, simple_pathname_in_store_check, pathstore_path,
}

pub checked_char-IsOpenAs :
    (st : Files) (r : Char × Files)
    → IsOpenAs st r.1
    → Whenever (λ (ch, st'). IsOpenAs st st') (checked_char r)
checked_char-IsOpenAs st (char c, st') h = h
checked_char-IsOpenAs st (end_of_file, st') h = h
checked_char-IsOpenAs st (aborted, st') h = tt

-- The same descriptors are open as in a state.
abbrev pub SameFiles : {A : Type 0} → Files → A × Files → Type 0
SameFiles st (a, st') = IsOpenAs st st'

abbrev pub SameStored : {A : Type 0} → Files → A × Stored → Type 0
SameStored st (a, (st', store)) = IsOpenAs st st'

module _ (fs : UnixFilesystem) (at : ℕ → ℕ) where
  compared-Same :
      (ch1 ch2 : Option ℕ) (again : Outcome (Bool × Files)) (st st' : Files)
      → IsOpenAs st st'
      → Whenever (SameFiles st) again
      → Whenever (SameFiles st) (compared ch1 ch2 again st')
  compared-Same none none again st st' h k = h
  compared-Same none (some d) again st st' h k = h
  compared-Same (some c) none again st st' h k = h
  compared-Same (some c) (some d) again st st' h k = elim (Bool-cases (c == d)) [
    | inl e ↦ rw (e) k
    | inr e ↦ rw (e) h
  ]

  next-Same :
      (fd : ℕ) (st st1 : Files)
      → IsOpenAs st st1
      → Whenever (SameFiles st) (checked_char (fileops_getchar fs at fd st1))
  next-Same fd st st1 h = checked_char-IsOpenAs st (fileops_getchar fs at fd st1) (
      IsOpenAs-trans st st1 (fileops_getchar fs at fd st1).1 h
        (fileops_getchar-IsOpenAs fs at fd st1))

  same_content-Same :
      (n fd1 fd2 : ℕ) (st st1 : Files)
      → IsOpenAs st st1
      → Whenever (SameFiles st) (same_content fs at n fd1 fd2 st1)
  unfolding same_content
  same_content-Same zero fd1 fd2 st st1 h = tt
  same_content-Same (suc n) fd1 fd2 st st1 h =
      Whenever-bind (SameFiles st) (SameFiles st) (checked_char (fileops_getchar fs at fd1 st1)) _
        (next-Same fd1 st st1 h)
        (λ (ch1, st2) k.
          Whenever-bind (SameFiles st) (SameFiles st) (checked_char (fileops_getchar fs at fd2 st2))
            _ (next-Same fd2 st st2 k)
            (λ (ch2, st3) k'.
              compared-Same ch1 ch2 (same_content fs at n fd1 fd2 st3) st st3 k'
                (same_content-Same n fd1 fd2 st st3 k')))

module _ (fs : UnixFilesystem) (at : ℕ → ℕ) (local inp fuel : ℕ) where
  compare_open-Same :
      (fd1 fd2 : ℕ) (st st1 st2 : Files) (store : Pathstore)
      → IsOpened fd1 st st1
      → IsOpened fd2 st1 st2
      → Whenever (SameStored st) (compare_open fs at local inp fuel fd1 fd2 st2 store)
  compare_open-Same fd1 fd2 st st1 st2 store h k =
      Whenever-bind (SameFiles st2) (SameStored st) (same_content fs at fuel fd1 fd2 st2) _
        (same_content-Same fs at fuel fd1 fd2 st2 st2 (λ fd. refl))
        (λ (same, st3) l. both-closed fd1 fd2 st st1 st2 st3 h k l)

  open_second-Same :
      (r : Option ℕ × Files) (fd1 : ℕ) (st st1 : Files) (store : Pathstore)
      → IsOpened fd1 st st1
      → IsAttempt st1 r
      → Whenever (SameStored st) (open_second fs at local inp fuel r fd1 store)
  open_second-Same (none, st2) fd1 st st1 store h k = opened-closed fd1 st st1 st2 h k
  open_second-Same (some fd2, st2) fd1 st st1 store h k =
      compare_open-Same fd1 fd2 st st1 st2 store h k

  open_first-Same :
      (r : Option ℕ × Files) (pathname2 : Name) (st : Files) (store : Pathstore)
      → IsAttempt st r
      → Whenever (SameStored st) (open_first fs at local inp fuel r pathname2 store)
  open_first-Same (none, st1) pathname2 st store h = h
  open_first-Same (some fd1, st1) pathname2 st store h =
      open_second-Same (fileops_open fs pathname2 local inp st1) fd1 st st1 store h
        (fileops_open-IsAttempt fs pathname2 local inp st1)

  is_same_file-Same :
      (pathname1 pathname2 : Name) (chksum incoming : List ℕ) (st : Files) (store : Pathstore)
      → Whenever
          (SameStored st)
          (is_same_file fs at local inp fuel pathname1 pathname2 chksum incoming (st, store))
  unfolding is_same_file
  is_same_file-Same pathname1 pathname2 chksum incoming st store =
      elim (Bool-cases (chksumfile_compare chksum incoming)) [
        | inl same ↦ rw (same) (
            open_first-Same (fileops_open fs pathname1 local inp st) pathname2 st
              (record store { num_compares = store.num_compares + 1 })
              (fileops_open-IsAttempt fs pathname1 local inp st))
        | inr other ↦ rw (other) (λ fd. refl)
      ]

  same_file_is_in_store-Same :
      (es : List PathstoreElement) (pathname : Name) (incoming : List ℕ) (st st1 : Files)
      (store : Pathstore)
      → IsOpenAs st st1
      → Whenever
          (SameStored st)
          (same_file_is_in_store fs at local inp fuel es pathname incoming (st1, store))
  unfolding same_file_is_in_store
  same_file_is_in_store-Same [] pathname incoming st st1 store h = h
  same_file_is_in_store-Same (e ∷ es) pathname incoming st st1 store h =
      Whenever-bind (SameStored st1) (SameStored st)
        (is_same_file fs at local inp fuel pathname e.pathname e.pathchksumstring incoming
          (st1, store))
        _ (is_same_file-Same pathname e.pathname e.pathchksumstring incoming st1 store)
        (λ (same, (st2, store2)) k. elim (Bool-cases same) [
          | inl e' ↦ rw (e') (IsOpenAs-trans st st1 st2 h k)
          | inr e' ↦ rw (e') (
              same_file_is_in_store-Same es pathname incoming st st2 store2
                (IsOpenAs-trans st st1 st2 h k))
        ])

  add_element-Same :
      (allocated : Bool) (pathname : Name) (chksum : List ℕ) (st st1 : Files) (store : Pathstore)
      → IsOpenAs st st1
      → Whenever
          (SameStored st)
          (add_element fs at local inp fuel allocated pathname chksum (st1, store))
  add_element-Same true pathname chksum st st1 store h = h
  add_element-Same false pathname chksum st st1 store h = h

  unless_same-Same :
      (allocated : Bool) (pathname : Name) (incoming : List ℕ) (same : Bool) (st st1 : Files)
      (store : Pathstore)
      → IsOpenAs st st1
      → Whenever
          (SameStored st)
          (unless_same fs at local inp fuel allocated pathname incoming (same, (st1, store)))
  unless_same-Same allocated pathname incoming true st st1 store h = h
  unless_same-Same allocated pathname incoming false st st1 store h =
      add_element-Same allocated pathname incoming st st1 store h

  store_unless_known-Same :
      (o : Option ℕ) (allocated : Bool) (pathname : Name) (chksum : Option (List ℕ))
      (st1 st : Files) (store : Pathstore)
      → IsOpenAs st st1
      → Whenever
          (SameStored st)
          (store_unless_known fs at local inp fuel o allocated pathname (chksum, st1) (st, store))
  store_unless_known-Same (some count) allocated pathname chksum st1 st store h = λ fd. refl
  store_unless_known-Same none allocated pathname chksum st1 st store h =
      let incoming = chksum_or_zeros fs at local inp fuel chksum in
      Whenever-bind (SameStored st) (SameStored st)
        (same_file_is_in_store fs at local inp fuel store.element_list pathname incoming
          (st1, store))
        _ (same_file_is_in_store-Same store.element_list pathname incoming st st1 store h)
        (λ (same, (st2, store2)) k.
          unless_same-Same allocated pathname incoming same st st2 store2 k)

  -- Whenever `Pathstore_path` returns, the same descriptors are open as before.
  pub pathstore_path-SameStored :
      {Context : Type 0} (sha : Sha Context) (allocated : Bool) (garbage : List ℕ) (pathname : Name)
      (discard : Bool) (at_inode : ℕ) (inode : Inode) (ok : Bool) (st : Files) (store : Pathstore)
      → Whenever (SameStored st) (
          pathstore_path fs at local inp fuel sha allocated garbage pathname discard at_inode inode
            ok
            (st, store))
  unfolding pathstore_path
  pathstore_path-SameStored sha allocated garbage pathname false at_inode inode ok st store =
      add_element-Same allocated pathname garbage st st
        (record store { num_stores = store.num_stores + 1 }) (λ fd. refl)
  pathstore_path-SameStored sha allocated garbage pathname true at_inode inode ok st store =
      let p = on_image (optimized_chksumfile_byinode sha fs at_inode inode ok st.image) st in
      store_unless_known-Same (simple_pathname_in_store_check 0 store.element_list pathname)
        allocated pathname p.0 p.1 st (record store { num_stores = store.num_stores + 1 })
        (λ fd. refl)
