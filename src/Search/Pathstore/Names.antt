-- ===== src/Search/Pathstore/Names.antt =====
-- The path names that assign2/pathstore.c keeps.
use cs.Prelude.{
  ℕ, ◌+◌, ◌≡◌, refl, sym, ap, Bool, true, false, Option, none, some, List, [], ◌∷◌, Bool-cases,
  Option-cases, inl, inr, arith, same_text, All,
}
use mathlib.Core.Path.{subst}
use cs.Fs.Inode.{Inode, UnixFilesystem}
use cs.Fs.Directory.{Name}
use cs.Fs.Checksum.{Sha, chksumfile_compare, optimized_chksumfile_byinode}
use cs.Fs.Fileops.{Files, on_image, fileops_open}
use cs.Search.Outcome.{Whenever, Whenever-bind, Whenever-any, done}
use cs.Search.Pathstore.{
  PathstoreElement, Pathstore, Stored, simple_pathname_in_store_check, compare_open, open_second,
  open_first, is_same_file, same_file_is_in_store, unless_same, chksum_or_zeros, store_new,
  pathstore_path, same_content, count_result,
}

-- The name is not one of the elements'.
abbrev pub IsNew : Name → List PathstoreElement → Type 0
IsNew pathname es = All (λ (e : PathstoreElement). same_text pathname e.pathname ≡ false) es

-- No two elements have one name.
abbrev pub IsDistinct : List PathstoreElement → Type 0
IsDistinct [] = Unit
IsDistinct (e ∷ es) = IsNew e.pathname es × IsDistinct es

simple_pathname_in_store_check-none :
    (count : ℕ) (es : List PathstoreElement) (pathname : Name)
    → simple_pathname_in_store_check count es pathname ≡ none
    → IsNew pathname es
unfolding simple_pathname_in_store_check
simple_pathname_in_store_check-none count [] pathname h = tt
simple_pathname_in_store_check-none count (e ∷ es) pathname h =
    elim (Bool-cases (same_text pathname e.pathname)) [
      | inl same ↦ ground (arith, rw same at h)
      | inr other ↦
          (other, simple_pathname_in_store_check-none (count + 1) es pathname (rw other at h))
    ]

module _ (fs : UnixFilesystem) (at : ℕ → ℕ) (local inp fuel : ℕ) where
  -- The comparison of two files leaves the elements.
  abbrev Leaves : List PathstoreElement → Bool × Stored → Type 0
  Leaves es (same, (st, store)) = store.element_list ≡ es

  count_result-elements :
      (same : Bool) (store : Pathstore)
      → (count_result same store).element_list ≡ store.element_list
  count_result-elements true store = refl
  count_result-elements false store = refl

  compare_open-Leaves :
      (fd1 fd2 : ℕ) (st : Files) (store : Pathstore)
      → Whenever (Leaves store.element_list) (compare_open fs at local inp fuel fd1 fd2 st store)
  compare_open-Leaves fd1 fd2 st store =
      Whenever-bind (λ a. Unit {0}) (Leaves store.element_list) (same_content fs at fuel fd1 fd2 st)
        _ (Whenever-any (same_content fs at fuel fd1 fd2 st))
        (λ (same, st1) u. count_result-elements same store)

  open_second-Leaves :
      (o : Option ℕ × Files) (fd1 : ℕ) (store : Pathstore)
      → Whenever (Leaves store.element_list) (open_second fs at local inp fuel o fd1 store)
  open_second-Leaves (none, st) fd1 store = refl
  open_second-Leaves (some fd2, st) fd1 store = compare_open-Leaves fd1 fd2 st store

  open_first-Leaves :
      (o : Option ℕ × Files) (pathname2 : Name) (store : Pathstore)
      → Whenever (Leaves store.element_list) (open_first fs at local inp fuel o pathname2 store)
  open_first-Leaves (none, st) pathname2 store = refl
  open_first-Leaves (some fd1, st) pathname2 store =
      open_second-Leaves (fileops_open fs pathname2 local inp st) fd1 store

  is_same_file-Leaves :
      (pathname1 pathname2 : Name) (chksum incoming : List ℕ) (st : Files) (store : Pathstore)
      → Whenever
          (Leaves store.element_list)
          (is_same_file fs at local inp fuel pathname1 pathname2 chksum incoming (st, store))
  unfolding is_same_file
  is_same_file-Leaves pathname1 pathname2 chksum incoming st store =
      elim (Bool-cases (chksumfile_compare chksum incoming)) [
        | inl same ↦ rw (same) (
            open_first-Leaves (fileops_open fs pathname1 local inp st) pathname2
              (record store { num_compares = store.num_compares + 1 }))
        | inr other ↦ rw (other) refl
      ]

  same_file_is_in_store-Leaves :
      (es : List PathstoreElement) (pathname : Name) (incoming : List ℕ) (st : Files)
      (store : Pathstore)
      → Whenever
          (Leaves store.element_list)
          (same_file_is_in_store fs at local inp fuel es pathname incoming (st, store))
  unfolding same_file_is_in_store
  same_file_is_in_store-Leaves [] pathname incoming st store = refl
  same_file_is_in_store-Leaves (e ∷ es) pathname incoming st store =
      Whenever-bind (Leaves store.element_list) (Leaves store.element_list)
        (is_same_file fs at local inp fuel pathname e.pathname e.pathchksumstring incoming
          (st, store))
        _ (is_same_file-Leaves pathname e.pathname e.pathchksumstring incoming st store)
        (λ (same, (st', store')) left. elim (Bool-cases same) [
          | inl e ↦ rw (e) left
          | inr e ↦ rw (e) (
              subst
                (λ l.
                  Whenever (Leaves l)
                    (same_file_is_in_store fs at local inp fuel es pathname incoming (st', store')))
                left (same_file_is_in_store-Leaves es pathname incoming st' store'))
        ])

  -- Either the name is put before the elements, which do not have it, or they stay.
  abbrev pub IsKeptName : Name → List PathstoreElement → Option Name × Stored → Type 0
  IsKeptName pathname es (none, (st, store)) = store.element_list ≡ es
  IsKeptName pathname es (some kept, (st, store)) =
      (e : PathstoreElement) × (store.element_list ≡ e ∷ es)
      × (e.pathname ≡ pathname)
      × (kept ≡ pathname)
      × IsNew pathname es

  unless_same-IsKeptName :
      (allocated : Bool) (pathname : Name) (incoming : List ℕ) (es : List PathstoreElement)
      (same : Bool) (st : Files) (store : Pathstore)
      → IsNew pathname es
      → store.element_list ≡ es
      → Whenever
          (IsKeptName pathname es)
          (unless_same fs at local inp fuel allocated pathname incoming (same, (st, store)))
  unless_same-IsKeptName allocated pathname incoming es true st store new left = left
  unless_same-IsKeptName true pathname incoming es false st store new left = (
    record { pathname = pathname; pathchksumstring = incoming },
    ap (λ l. record { pathname = pathname; pathchksumstring = incoming } ∷ l) left,
    refl,
    refl,
    new,
  )
  unless_same-IsKeptName false pathname incoming es false st store new left = left

  store_new-IsKeptName :
      (allocated : Bool) (pathname : Name) (chksum : Option (List ℕ)) (st : Files)
      (store : Pathstore)
      → IsNew pathname store.element_list
      → Whenever
          (IsKeptName pathname store.element_list)
          (store_new fs at local inp fuel allocated pathname (chksum, st) store)
  store_new-IsKeptName allocated pathname chksum st store new =
      let incoming = chksum_or_zeros fs at local inp fuel chksum in
      Whenever-bind (Leaves store.element_list) (IsKeptName pathname store.element_list)
        (same_file_is_in_store fs at local inp fuel store.element_list pathname incoming
          (st, store))
        _ (same_file_is_in_store-Leaves store.element_list pathname incoming st store)
        (λ (same, (st', store')) left.
          unless_same-IsKeptName allocated pathname incoming store.element_list same st' store' new
            left)

  pathstore_path-IsKeptName :
      {Context : Type 0} (sha : Sha Context) (allocated : Bool) (garbage : List ℕ) (pathname : Name)
      (at_inode : ℕ) (inode : Inode) (ok : Bool) (st : Files) (store : Pathstore)
      → Whenever (IsKeptName pathname store.element_list) (
          pathstore_path fs at local inp fuel sha allocated garbage pathname true at_inode inode ok
            (st, store))
  unfolding pathstore_path
  pathstore_path-IsKeptName sha allocated garbage pathname at_inode inode ok st store =
      elim (Option-cases (simple_pathname_in_store_check 0 store.element_list pathname)) [
        | inl none' ↦
            let p = on_image (optimized_chksumfile_byinode sha fs at_inode inode ok st.image) st in
            rw (none') (
              store_new-IsKeptName allocated pathname p.0 p.1
                (record store { num_stores = store.num_stores + 1 })
                (simple_pathname_in_store_check-none 0 store.element_list pathname none'))
        | inr (count, found) ↦ rw (found) refl
      ]

  IsKeptName-IsDistinct :
      (pathname : Name) (es : List PathstoreElement) (r : Option Name × Stored)
      → IsDistinct es
      → IsKeptName pathname es r
      → IsDistinct r.1.1.element_list
  IsKeptName-IsDistinct pathname es (none, (st, store)) d left = subst IsDistinct (sym left) d
  IsKeptName-IsDistinct pathname es (some kept, (st, store)) d (e, is, name, same, new) =
      subst IsDistinct (sym is) (subst (λ k. IsNew k es) (sym name) new, d)

  -- Where duplicate files are discarded, a result of `Pathstore_path` leaves a store in which no two
  -- elements have one path name, if there were no such two before.
  pub pathstore_path-IsDistinct :
      {Context : Type 0} (sha : Sha Context) (allocated : Bool) (garbage : List ℕ) (pathname : Name)
      (at_inode : ℕ) (inode : Inode) (ok : Bool) (st : Files) (store : Pathstore)
      (r : Option Name × Stored)
      → IsDistinct store.element_list
      → pathstore_path fs at local inp fuel sha allocated garbage pathname true at_inode inode ok
          (st, store)
        ≡ done r
      → IsDistinct r.1.1.element_list
  pathstore_path-IsDistinct sha allocated garbage pathname at_inode inode ok st store r d e =
      IsKeptName-IsDistinct pathname store.element_list r d (
        subst (Whenever (IsKeptName pathname store.element_list)) e
          (pathstore_path-IsKeptName sha allocated garbage pathname at_inode inode ok st store))

  check-found :
      (count : ℕ) (es : List PathstoreElement) (pathname : Name)
      → ¬ IsNew pathname es
      → (n : ℕ) × (simple_pathname_in_store_check count es pathname ≡ some n)
  unfolding simple_pathname_in_store_check
  check-found count [] pathname h = absurd (h tt)
  check-found count (e ∷ es) pathname h = elim (Bool-cases (same_text pathname e.pathname)) [
    | inl same ↦ (count + 1, rw (same) refl)
    | inr other ↦
        let (n, found) = check-found (count + 1) es pathname (λ new. h (other, new)) in
        (n, rw (other) found)
  ]

  -- Where duplicate files are discarded and an element has the path name, `Pathstore_path` returns NULL
  -- with the elements and the open files as they are, no sector is read, and one more duplicate is
  -- counted.
  pub pathstore_path-known :
      {Context : Type 0} (sha : Sha Context) (allocated : Bool) (garbage : List ℕ) (pathname : Name)
      (at_inode : ℕ) (inode : Inode) (ok : Bool) (st : Files) (store : Pathstore)
      → ¬ IsNew pathname store.element_list
      → (store' : Pathstore) × (pathstore_path fs at local inp fuel sha allocated garbage pathname
            true at_inode inode ok
            (st, store)
          ≡ done (none, (st, store')))
        × (store'.element_list ≡ store.element_list)
        × (store'.num_dups ≡ store.num_dups + 1)
  unfolding pathstore_path
  pathstore_path-known sha allocated garbage pathname at_inode inode ok st store h =
      let (n, found) = check-found 0 store.element_list pathname h in
      rw (found) (_, refl, refl, refl)
