-- ===== src/Search/Pathstore/Contents.antt =====
-- The comparison of two files in assign2/pathstore.c.
use cs.Prelude.{
  ℕ, zero, suc, ◌+◌, ◌-◌, ◌<◌, ◌≤◌, ◌≡◌, ◌≢◌, refl, sym, ap, ◌∙◌, Bool, Option, none, some, List,
  [], ◌∷◌, length, Bool-cases, inl, inr, arith, ◌==◌, same_text,
}
use mathlib.Core.Path.{subst}
use cs.Fs.Disk.{IsWhole}
use cs.Fs.Image.Computes.{IsFaithful}
use cs.Fs.Inode.{Inode, UnixFilesystem, inode_getsize, is_allocated}
use cs.Fs.Fileops.{OpenFile, Files, slot, is_free}
use cs.Fs.Fileops.Read.{Char, char, end_of_file, aborted, fileops_getchar}
use cs.Fs.Fileops.Prefetch.{IsWindow}
use cs.Fs.Fileops.Keeps.{IsRead, IsRead-others, fileops_getchar-IsRead}
use cs.Fs.Fileops.Stream.{IsReader, IsReader-next}
use cs.Search.Outcome.{Outcome, done, out_of_fuel, Ends, Ends-bind, Ends-≢}
use cs.Search.Pathstore.{checked_char, compared, same_content}
use cs.Search.Characters.{bytes_left, chars_left, checked_char-left}

module _ (fs : UnixFilesystem) (w : IsWhole fs.dfd) (at : ℕ → ℕ) where
  -- Another slot is read from.
  IsReader-other :
      (fd : ℕ) (inode : Inode) (c : ℕ) (bs : List ℕ) (st st' : Files)
      → IsReader fs w at fd inode c bs st
      → slot st' fd ≡ slot st fd
      → length st'.table ≡ length st.table
      → IsFaithful fs.dfd st'.image
      → IsReader fs w at fd inode c bs st'
  IsReader-other fd inode c bs st st' h same long faithful = record {
    reading = record {
      in_table = rw (long) h.reading.in_table;
      is_open = ap is_free same ∙ h.reading.is_open;
      is_in_use = ap {A = OpenFile} (λ g. is_allocated g.inode) same ∙ h.reading.is_in_use;
      has_inode = ap {A = OpenFile} (λ g. g.inode_iget_ok) same ∙ h.reading.has_inode;
      window = subst (IsWindow fs.dfd) (sym same) h.reading.window;
      faithful = faithful;
    };
    at_cursor = ap {A = OpenFile} (λ g. g.cursor) same ∙ h.at_cursor;
    at_inode = ap {A = OpenFile} (λ g. g.inode) same ∙ h.at_inode;
    bytes = h.bytes;
  }

  abbrev head : List ℕ → Option ℕ
  head [] = none
  head (b ∷ bs) = some b

  abbrev tail : List ℕ → List ℕ
  tail [] = []
  tail (b ∷ bs) = bs

  abbrev after : (c : ℕ) → List ℕ → ℕ
  after c [] = c
  after c (b ∷ bs) = c + 1

  -- What one of two readers does when the other is read.
  abbrev IsPair :
      (fd1 fd2 : ℕ) → (inode1 inode2 : Inode) → (c1 c2 : ℕ) → (bs1 bs2 : List ℕ) → Files → Type 0
  IsPair fd1 fd2 inode1 inode2 c1 c2 bs1 bs2 st =
      IsReader fs w at fd1 inode1 c1 bs1 st × IsReader fs w at fd2 inode2 c2 bs2 st

  checked_char-first :
      (fd1 fd2 : ℕ) (inode1 inode2 : Inode) (c1 c2 : ℕ) (bs1 bs2 : List ℕ) (st : Files)
      → fd1 ≢ fd2
      → IsPair fd1 fd2 inode1 inode2 c1 c2 bs1 bs2 st
      → (st' : Files) × (checked_char (fileops_getchar fs at fd1 st) ≡ done (head bs1, st'))
        × IsPair fd1 fd2 inode1 inode2 (after c1 bs1) c2 (tail bs1) bs2 st'
  checked_char-first fd1 fd2 inode1 inode2 c1 c2 [] bs2 st ne (h1, h2) =
      let (read, h1') = IsReader-next fs w at fd1 inode1 c1 [] st h1 in
      let st' : Files = (fileops_getchar fs at fd1 st).1 in
      let (same, long) =
        IsRead-others fs at fd1 st (fileops_getchar fs at fd1 st) fd2
          (fileops_getchar-IsRead fs at fd1 st) ne in
      (
        st',
        ap (λ k. checked_char (k, st')) read,
        (h1', IsReader-other fd2 inode2 c2 bs2 st st' h2 same long h1'.reading.faithful),
      )
  checked_char-first fd1 fd2 inode1 inode2 c1 c2 (b ∷ bs1) bs2 st ne (h1, h2) =
      let (read, tell, h1') = IsReader-next fs w at fd1 inode1 c1 (b ∷ bs1) st h1 in
      let st' : Files = (fileops_getchar fs at fd1 st).1 in
      let (same, long) =
        IsRead-others fs at fd1 st (fileops_getchar fs at fd1 st) fd2
          (fileops_getchar-IsRead fs at fd1 st) ne in
      (
        st',
        ap (λ k. checked_char (k, st')) read,
        (h1', IsReader-other fd2 inode2 c2 bs2 st st' h2 same long h1'.reading.faithful),
      )

  shorter : (bs : List ℕ) (b n : ℕ) → head bs ≡ some b → length bs < suc n → length (tail bs) < n
  shorter [] b n e low = ground (arith, e)
  shorter (c ∷ cs) b n e low = omega (arith, low)

  compared-same_text :
      (bs1 bs2 : List ℕ) (again : Outcome (Bool × Files)) (st : Files)
      → ((b : ℕ)
          → head bs1 ≡ some b
          → (st' : Files) × (again ≡ done (same_text (tail bs1) (tail bs2), st')))
      → (st' : Files) × (compared (head bs1) (head bs2) again st ≡ done (same_text bs1 bs2, st'))
  unfolding same_text
  compared-same_text [] [] again st h = (st, refl)
  compared-same_text [] (d ∷ ds) again st h = (st, refl)
  compared-same_text (c ∷ cs) [] again st h = (st, refl)
  compared-same_text (c ∷ cs) (d ∷ ds) again st h = elim (Bool-cases (c == d)) [
    | inl e ↦ let (st', same) = h c refl in (st', rw (e) same)
    | inr e ↦ (st, rw (e) refl)
  ]

  -- On a disk whose readable sectors are whole: of two different open files with faithful caches, whose
  -- bytes that are left can all be read, and with more fuel than bytes of the first one, the loop of
  -- `IsSameFile` ends and says whether the bytes that are left are the same.
  pub same_content-same_text :
      (n fd1 fd2 : ℕ) (inode1 inode2 : Inode) (c1 c2 : ℕ) (bs1 bs2 : List ℕ) (st : Files)
      → fd1 ≢ fd2
      → length bs1 < n
      → IsReader fs w at fd1 inode1 c1 bs1 st
      → IsReader fs w at fd2 inode2 c2 bs2 st
      → (st' : Files) × (same_content fs at n fd1 fd2 st ≡ done (same_text bs1 bs2, st'))
  unfolding same_content
  same_content-same_text zero fd1 fd2 inode1 inode2 c1 c2 bs1 bs2 st ne low h1 h2 =
      ground (arith, low)
  same_content-same_text (suc n) fd1 fd2 inode1 inode2 c1 c2 bs1 bs2 st ne low h1 h2 =
      let (st1, read1, (h1', h2')) =
        checked_char-first fd1 fd2 inode1 inode2 c1 c2 bs1 bs2 st ne (h1, h2) in
      let (st2, read2, (h2'', h1'')) =
        checked_char-first fd2 fd1 inode2 inode1 c2 (after c1 bs1) bs2 (tail bs1) st1
          (λ e. ne (sym e)) (h2', h1') in
      rw (read1, read2)
        (compared-same_text bs1 bs2 (same_content fs at n fd1 fd2 st2) st2 (λ b e.
          same_content-same_text n fd1 fd2 inode1 inode2 (after c1 bs1) (after c2 bs2) (tail bs1)
            (tail bs2) st2 ne (shorter bs1 b n e low) h1'' h2''))

module _ (fs : UnixFilesystem) (at : ℕ → ℕ) where
  checked_char-others :
      (fd fd' : ℕ) (st : Files) (r : Char × Files)
      → fd ≢ fd'
      → IsRead fs at fd st r
      → Ends (λ (ch, st'). slot st' fd' ≡ slot st fd') (checked_char r)
  checked_char-others fd fd' st (char c, st') ne h =
      (IsRead-others fs at fd st (char c, st') fd' h ne).0
  checked_char-others fd fd' st (end_of_file, st') ne h =
      (IsRead-others fs at fd st (end_of_file, st') fd' h ne).0
  checked_char-others fd fd' st (aborted, st') ne h = tt

  abbrev Any : Bool × Files → Type 0
  Any r = Unit {0}

  compared-Ends :
      (n m fd1 : ℕ) (ch1 ch2 : Option ℕ) (st1 st2 : Files) (again : Outcome (Bool × Files))
      → chars_left fd1 ch1 st1 ≤ m
      → m ≤ n
      → slot st2 fd1 ≡ slot st1 fd1
      → (bytes_left fd1 st2 < n → Ends Any again)
      → Ends Any (compared ch1 ch2 again st2)
  compared-Ends n m fd1 none none st1 st2 again k low same h = tt
  compared-Ends n m fd1 none (some d) st1 st2 again k low same h = tt
  compared-Ends n m fd1 (some c) none st1 st2 again k low same h = tt
  compared-Ends n m fd1 (some c) (some d) st1 st2 again k low same h =
      let as_many : bytes_left fd1 st2 ≡ bytes_left fd1 st1 =
        ap {A = OpenFile} (λ g. inode_getsize g.inode - g.cursor) same in
      elim (Bool-cases (c == d)) [
        | inl e ↦ rw (e) (h (omega (arith, k, low, as_many)))
        | inr e ↦ rw (e) tt
      ]

  same_content-Ends :
      (n fd1 fd2 : ℕ) (st : Files)
      → fd1 ≢ fd2
      → bytes_left fd1 st < n
      → Ends Any (same_content fs at n fd1 fd2 st)
  unfolding same_content
  same_content-Ends zero fd1 fd2 st ne low = ground (arith, low)
  same_content-Ends (suc n) fd1 fd2 st ne low =
      Ends-bind (λ (ch, st'). chars_left fd1 ch st' ≤ bytes_left fd1 st) Any
        (checked_char (fileops_getchar fs at fd1 st)) _
        (checked_char-left fs at fd1 st (fileops_getchar fs at fd1 st)
          (fileops_getchar-IsRead fs at fd1 st))
        (λ (ch1, st1) k.
          Ends-bind (λ (ch2, st2). slot st2 fd1 ≡ slot st1 fd1) Any
            (checked_char (fileops_getchar fs at fd2 st1)) _
            (checked_char-others fd2 fd1 st1 (fileops_getchar fs at fd2 st1) (λ e. ne (sym e))
              (fileops_getchar-IsRead fs at fd2 st1))
            (λ (ch2, st2) same.
              compared-Ends n (bytes_left fd1 st) fd1 ch1 ch2 st1 st2
                (same_content fs at n fd1 fd2 st2) k (omega (arith, low)) same
                (same_content-Ends n fd1 fd2 st2 ne)))

  -- On every disk: with more fuel than there are bytes from the cursor of the first of two different
  -- descriptors to the end of its file, the loop of `IsSameFile` ends, or an assertion fails.
  pub same_content-ends :
      (n fd1 fd2 : ℕ) (st : Files)
      → fd1 ≢ fd2
      → bytes_left fd1 st < n
      → same_content fs at n fd1 fd2 st ≢ out_of_fuel
  same_content-ends n fd1 fd2 st ne low = Ends-≢ Any _ (same_content-Ends n fd1 fd2 st ne low)
