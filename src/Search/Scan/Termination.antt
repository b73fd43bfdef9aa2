-- ===== src/Search/Scan/Termination.antt =====
-- The loops of Scan_File in assign2/scan.c end on every disk.
use cs.Prelude.{
  ℕ, zero, suc, ◌+◌, ◌≤◌, ◌<◌, ◌≡◌, ◌≢◌, refl, Bool, true, Option, none, some, Bool-cases, inl, inr,
  arith,
}
use cs.Fs.Inode.{UnixFilesystem}
use cs.Fs.Directory.{Name}
use cs.Fs.Fileops.{fileops_tell}
use cs.Fs.Fileops.Read.{fileops_getchar}
use cs.Fs.Fileops.Keeps.{fileops_getchar-IsRead}
use cs.Search.Outcome.{done, out_of_fuel, on_some, Ends, Ends-bind, Ends-weaken, Ends-≢}
use cs.Search.Index.{Text, Lhash, Index, index_store_entry}
use cs.Search.Words.{isalpha}
use cs.Search.Pathstore.{checked_char}
use cs.Search.Characters.{bytes_left, chars_left, checked_char-left}
use cs.Search.Scan.{
  Scanner, next_char, count_char, skip, read_word, store_word, scan_word, scan_words, scan_open,
}

module _ {Table : Type 0} (lh : Lhash Table) (allocated : Index Table → Bool) (fs : UnixFilesystem)
    (at : ℕ → ℕ) (fd : ℕ) where
  -- At most so many characters are left.
  abbrev IsLeft : ℕ → Option ℕ × Scanner Table → Type 0
  IsLeft m (ch, s) = chars_left fd ch s.files ≤ m

  next_char-Ends :
      (s : Scanner Table)
      → Ends (IsLeft (bytes_left fd s.files)) (next_char lh allocated fs at fd s)
  next_char-Ends s =
      Ends-bind (λ (ch, st'). chars_left fd ch st' ≤ bytes_left fd s.files)
        (IsLeft (bytes_left fd s.files)) (checked_char (fileops_getchar fs at fd s.files)) _
        (checked_char-left fs at fd s.files (fileops_getchar fs at fd s.files)
          (fileops_getchar-IsRead fs at fd s.files))
        (λ (ch, st') h. h)

  abbrev IsLetter : Option ℕ → Type 0
  IsLetter none = Unit {0}
  IsLetter (some c) = isalpha c ≡ true

  -- At most so many characters are left from the first letter on.
  abbrev IsFound : ℕ → Option ℕ × Scanner Table → Type 0
  IsFound m (ch, s) = (chars_left fd ch s.files ≤ m) × IsLetter ch

  skipped-Ends :
      (n m : ℕ) (ch : Option ℕ) (s : Scanner Table)
      → chars_left fd ch s.files ≤ m
      → m ≤ n
      → ((c : ℕ)
          → bytes_left fd s.files < n
          → Ends
              (IsFound (bytes_left fd s.files + 1))
              (skip lh allocated fs at n fd c (count_char lh allocated fs at s)))
      → Ends (IsFound (m + 1)) (
          on_some ch
            (λ c. skip lh allocated fs at n fd c (count_char lh allocated fs at s))
            (done (none, s)))
  skipped-Ends n m none s h low ih = (omega arith, tt)
  skipped-Ends n m (some c) s h low ih =
      Ends-weaken (IsFound (bytes_left fd s.files + 1)) (IsFound (m + 1)) _
        (ih c (omega (arith, h, low))) (λ (ch, s') (k, letter). (omega (arith, h, k), letter))

  skip-Ends :
      (n c : ℕ) (s : Scanner Table)
      → bytes_left fd s.files < n
      → Ends (IsFound (bytes_left fd s.files + 1)) (skip lh allocated fs at n fd c s)
  unfolding skip
  skip-Ends zero c s h = ground (arith, h)
  skip-Ends (suc n) c s h = elim (Bool-cases (isalpha c)) [
    | inl a ↦ rw (a) (omega arith, a)
    | inr a ↦ rw (a) (
        Ends-bind (IsLeft (bytes_left fd s.files)) (IsFound (bytes_left fd s.files + 1))
          (next_char lh allocated fs at fd s) _ (next_char-Ends s)
          (λ (ch, s') k.
            skipped-Ends n (bytes_left fd s.files) ch s' k (omega (arith, h))
              (λ c'. skip-Ends n c' (count_char lh allocated fs at s'))))
  ]

  -- At most so many characters are left after a word.
  abbrev IsWordLeft : ℕ → (Text × Option ℕ) × Scanner Table → Type 0
  IsWordLeft m ((word, ch), s) = chars_left fd ch s.files ≤ m

  -- A word that begins with a letter leaves fewer characters.
  read_letter-Ends :
      (room c : ℕ) (s : Scanner Table)
      → isalpha c ≡ true
      → ((ch : Option ℕ) (s : Scanner Table)
          → Ends
              (IsWordLeft (chars_left fd ch s.files))
              (read_word lh allocated fs at room fd ch s))
      → Ends
          (IsWordLeft (bytes_left fd s.files))
          (read_word lh allocated fs at (suc room) fd (some c) s)
  unfolding read_word
  read_letter-Ends room c s a ih = rw (a) (
      Ends-bind (IsLeft (bytes_left fd s.files)) (IsWordLeft (bytes_left fd s.files))
        (next_char lh allocated fs at fd s) _ (next_char-Ends s)
        (λ (ch, s') k.
          Ends-bind (IsWordLeft (chars_left fd ch s'.files)) (IsWordLeft (bytes_left fd s.files))
            (read_word lh allocated fs at room fd ch (count_char lh allocated fs at s')) _
            (ih ch (count_char lh allocated fs at s'))
            (λ ((word, ch'), s'') k'. omega (arith, k, k'))))

  read_word-Ends :
      (room : ℕ) (ch : Option ℕ) (s : Scanner Table)
      → Ends (IsWordLeft (chars_left fd ch s.files)) (read_word lh allocated fs at room fd ch s)
  unfolding read_word
  read_word-Ends zero ch s = omega arith
  read_word-Ends (suc room) none s = omega arith
  read_word-Ends (suc room) (some c) s = elim (Bool-cases (isalpha c)) [
    | inl a ↦
        Ends-weaken (IsWordLeft (bytes_left fd s.files)) (IsWordLeft (bytes_left fd s.files + 1)) _
          (read_letter-Ends room c s a (read_word-Ends room))
          (λ ((word, ch), s') k. omega (arith, k))
    | inr a ↦ rw (a) (omega arith)
  ]

  store_word-Ends :
      (word : Text) (pathname : Name) (offset : Option ℕ) (s : Scanner Table)
      → Ends (λ s'. s'.files ≡ s.files) (store_word lh allocated fs at word pathname offset s)
  store_word-Ends word pathname offset s =
      elim (Bool-cases (index_store_entry lh (allocated s.ind) word pathname offset s.ind).0) [
        | inl ok ↦ rw (ok) refl
        | inr bad ↦ rw (bad) tt
      ]

  abbrev Any : Scanner Table → Type 0
  Any s = Unit {0}

  scan_word-Ends :
      (n : ℕ) (pathname : Name) (ch : Option ℕ) (s : Scanner Table)
      → chars_left fd ch s.files ≤ suc n
      → IsLetter ch
      → ((ch : Option ℕ) (s : Scanner Table)
          → chars_left fd ch s.files ≤ n
          → Ends Any (scan_words lh allocated fs at n fd pathname ch s))
      → Ends Any (
          scan_word lh allocated fs at
            (scan_words lh allocated fs at n fd pathname)
            fd
            pathname
            ch
            s)
  scan_word-Ends n pathname none s h letter ih = tt
  scan_word-Ends n pathname (some c) s h letter ih =
      Ends-bind (IsWordLeft (bytes_left fd s.files)) Any
        (read_word lh allocated fs at 64 fd (some c) s) _
        (read_letter-Ends 63 c s letter (read_word-Ends 63))
        (λ ((word, ch), s2) k.
          Ends-bind (λ s3. s3.files ≡ s2.files) Any
            (store_word lh allocated fs at word pathname (fileops_tell fd s.files) s2) _
            (store_word-Ends word pathname (fileops_tell fd s.files) s2)
            (λ s3 same. ih ch s3 (rw (same) (omega (arith, k, h)))))

  scan_words-Ends :
      (n : ℕ) (pathname : Name) (ch : Option ℕ) (s : Scanner Table)
      → chars_left fd ch s.files ≤ n
      → Ends Any (scan_words lh allocated fs at n fd pathname ch s)
  unfolding scan_words
  scan_words-Ends zero pathname none s h = tt
  scan_words-Ends (suc n) pathname none s h = tt
  scan_words-Ends zero pathname (some c) s h = ground (arith, h)
  scan_words-Ends (suc n) pathname (some c) s h =
      Ends-bind (IsFound (bytes_left fd s.files + 1)) Any (skip lh allocated fs at (suc n) fd c s) _
        (skip-Ends (suc n) c s (omega (arith, h)))
        (λ (first, s1) (k, letter).
          scan_word-Ends n pathname first s1 (omega (arith, k, h)) letter
            (scan_words-Ends n pathname))

  -- On every disk: with at least as much fuel as there are bytes from the cursor to the end of the file,
  -- the loops of `Scan_File` over an open file end, or an assertion fails.
  pub scan_open-Ends :
      (fuel : ℕ) (pathname : Name) (s : Scanner Table)
      → bytes_left fd s.files ≤ fuel
      → scan_open lh allocated fs at fuel fd pathname s ≢ out_of_fuel
  unfolding scan_open
  scan_open-Ends fuel pathname s h = Ends-≢ Any _ (
      Ends-bind (IsLeft (bytes_left fd s.files)) Any (next_char lh allocated fs at fd s) _
        (next_char-Ends s)
        (λ (ch, s1) k.
          Ends-bind Any Any
            (scan_words lh allocated fs at fuel fd pathname ch (count_char lh allocated fs at s1)) _
            (scan_words-Ends fuel pathname ch (count_char lh allocated fs at s1)
              (omega (arith, k, h)))
            (λ s2 u. tt)))
