-- ===== src/Search/Scan/Loops.antt =====
-- The loops of Scan_File in assign2/scan.c find the words of a file.
use cs.Prelude.{
  ℕ, zero, suc, ◌+◌, ◌≤◌, ◌≡◌, refl, sym, ap, ◌∙◌, Bool, true, Option, none, some, List, [], ◌∷◌,
  length, map, Bool-cases, inl, inr, ◌⊎◌, eq_of_some, arith,
}
use mathlib.Core.Path.{subst}
use cs.Fs.Inode.{UnixFilesystem}
use cs.Fs.Directory.{Name}
use cs.Fs.Fileops.{Files, fileops_tell}
use cs.Fs.Fileops.Stream.{IsStream}
use cs.Search.Outcome.{Outcome, done}
use cs.Search.Index.{Text, Lhash, Index, index_store_entry}
use cs.Search.Index.Session.{Occurrence, store_all}
use cs.Search.Words.{isalpha, prefix, rest, words, words-letter, words-other, length-rest}
use cs.Search.Scan.{
  Scanner, next_char, count_char, skip, read_word, store_word, scan_word, scan_words,
}

abbrev pub head : List ℕ → Option ℕ
head [] = none
head (c ∷ cs) = some c

-- The words of a file with their locations.
abbrev pub occurrences : Name → List (Text × ℕ) → List Occurrence
occurrences pathname ws = map (λ (w, o). (w, record { pathname = pathname; offset = some o })) ws

module _ {Table : Type 0} (lh : Lhash Table) (allocated : Index Table → Bool) (fs : UnixFilesystem)
    (at : ℕ → ℕ) (fd : ℕ) (last : Files) where
  -- The first of these characters was read, so many came before it, and the others follow.
  abbrev pub IsAt : List ℕ → (p : ℕ) → Files → Type 0
  IsAt [] p st = st ≡ last
  IsAt (c ∷ cs) p st = (fileops_tell fd st ≡ some (p + 1)) × IsStream fs at fd cs (p + 1) st last

  next_char-IsAt :
      (c : ℕ) (cs : List ℕ) (p : ℕ) (s : Scanner Table)
      → IsAt (c ∷ cs) p s.files
      → (files : Files) × (next_char lh allocated fs at fd s
          ≡ done (head cs, record s { files = files }))
        × IsAt cs (p + 1) files
  next_char-IsAt c [] p s (tell, stream) = (last, rw (stream) refl, refl)
  next_char-IsAt c (d ∷ ds) p s (tell, (next, got, tell', stream)) =
      (next, rw (got) refl, (tell', stream))

  -- The letters in front are read as the word.
  read_word-prefix :
      (room : ℕ) (cs : List ℕ) (p : ℕ) (s : Scanner Table)
      → IsAt cs p s.files
      → (s' : Scanner Table) × (read_word lh allocated fs at room fd (head cs) s
          ≡ done ((prefix room cs, head (rest room cs)), s'))
        × IsAt (rest room cs) (p + length (prefix room cs)) s'.files
        × (s'.ind ≡ s.ind)
  unfolding read_word
  read_word-prefix zero cs p s h = (s, refl, subst (λ q. IsAt cs q s.files) (omega arith) h, refl)
  read_word-prefix (suc room) [] p s h = (s, refl, h, refl)
  read_word-prefix (suc room) (c ∷ cs) p s h = elim (Bool-cases (isalpha c)) [
    | inl a ↦
        let (files, read, h') = next_char-IsAt c cs p s h in
        let s1 : Scanner Table = count_char lh allocated fs at (record s { files = files }) in
        let (s2, word, h2, same) = read_word-prefix room cs (p + 1) s1 h' in
        rw (a) (
          s2,
          rw (read, word) refl,
          subst (λ q. IsAt (rest room cs) q s2.files) (omega arith) h2,
          same,
        )
    | inr a ↦ rw (a) (s, refl, subst (λ q. IsAt (c ∷ cs) q s.files) (omega arith) h, refl)
  ]

  -- After the characters before a word come these, of which the first is a letter if there is one.
  abbrev IsSkipped : List ℕ → (p : ℕ) → Outcome (Option ℕ × Scanner Table) → Index Table → Type 0
  IsSkipped cs p r ind =
      (cs' : List ℕ) × (p' : ℕ) × (s' : Scanner Table) × (r ≡ done (head cs', s'))
      × IsAt cs' p' s'.files
      × (s'.ind ≡ ind)
      × (words p' cs' ≡ words p cs)
      × (length cs' ≤ length cs)
      × ((cs' ≡ []) ⊎ ((c : ℕ) × (ds : List ℕ) × (cs' ≡ c ∷ ds) × (isalpha c ≡ true)))

  skip-IsSkipped :
      (n c : ℕ) (cs : List ℕ) (p : ℕ) (s : Scanner Table)
      → length (c ∷ cs) ≤ n
      → IsAt (c ∷ cs) p s.files
      → IsSkipped (c ∷ cs) p (skip lh allocated fs at n fd c s) s.ind
  unfolding skip
  skip-IsSkipped zero c cs p s low h = ground (arith, low)
  skip-IsSkipped (suc n) c [] p s low h = elim (Bool-cases (isalpha c)) [
    | inl a ↦ rw (a) (c ∷ [], p, s, refl, h, refl, refl, omega arith, inr (c, [], refl, a))
    | inr a ↦
        let (files, read, h') = next_char-IsAt c [] p s h in
        let s1 : Scanner Table = record s { files = files } in
        rw (a) (
          [],
          p + 1,
          s1,
          rw (read) refl,
          h',
          refl,
          sym (words-other p c [] a),
          omega arith,
          inl refl,
        )
  ]
  skip-IsSkipped (suc n) c (d ∷ ds) p s low h = elim (Bool-cases (isalpha c)) [
    | inl a ↦ rw (a) (c ∷ d ∷ ds, p, s, refl, h, refl, refl, omega arith, inr (c, d ∷ ds, refl, a))
    | inr a ↦
        let (files, read, h') = next_char-IsAt c (d ∷ ds) p s h in
        let s1 : Scanner Table = count_char lh allocated fs at (record s { files = files }) in
        let (cs', p', s', r, h2, same, found, shorter, first) =
          skip-IsSkipped n d ds (p + 1) s1 (omega (arith, low)) h' in
        rw (a) (
          cs',
          p',
          s',
          rw (read) r,
          h2,
          same,
          found ∙ sym (words-other p c (d ∷ ds) a),
          omega (arith, shorter),
          first,
        )
  ]

  store_word-done :
      (k : Text) (pathname : Name) (o : ℕ) (calls : List Occurrence) (s : Scanner Table)
      (ind : Index Table)
      → store_all lh allocated ((k, record { pathname = pathname; offset = some o }) ∷ calls) s.ind
        ≡ some ind
      → (s' : Scanner Table) × (store_word lh allocated fs at k pathname (some o) s ≡ done s')
        × (s'.files ≡ s.files)
        × (store_all lh allocated calls s'.ind ≡ some ind)
  unfolding store_all
  store_word-done k pathname o calls s ind e =
      elim (Bool-cases (index_store_entry lh (allocated s.ind) k pathname (some o) s.ind).0) [
        | inl ok ↦ (
          record s {
            ind = (index_store_entry lh (allocated s.ind) k pathname (some o) s.ind).1;
            num_words = s.num_words + 1;
          },
          rw (ok) refl,
          refl,
          rw ok at e,
        )
        | inr bad ↦ ground (arith, rw bad at e)
      ]

  store_all-nil :
      (pathname : Name) (p : ℕ) (ind ind' : Index Table)
      → store_all lh allocated (occurrences pathname (words p [])) ind ≡ some ind'
      → ind ≡ ind'
  unfolding store_all cs.Search.Words.split
  store_all-nil pathname p ind ind' e = eq_of_some e

  -- The run ends with all the characters read and all the words stored.
  abbrev pub IsScanned : Index Table → Outcome (Scanner Table) → Type 0
  IsScanned ind r = (s' : Scanner Table) × (r ≡ done s') × (s'.files ≡ last) × (s'.ind ≡ ind)

  scan_word-IsScanned :
      (n : ℕ) (pathname : Name) (cs : List ℕ) (p : ℕ) (s : Scanner Table) (ind : Index Table)
      → length cs ≤ suc n
      → IsAt cs p s.files
      → ((cs ≡ []) ⊎ ((c : ℕ) × (ds : List ℕ) × (cs ≡ c ∷ ds) × (isalpha c ≡ true)))
      → store_all lh allocated (occurrences pathname (words p cs)) s.ind ≡ some ind
      → ((cs : List ℕ) (p : ℕ) (s : Scanner Table)
          → length cs ≤ n
          → IsAt cs p s.files
          → store_all lh allocated (occurrences pathname (words p cs)) s.ind ≡ some ind
          → IsScanned ind (scan_words lh allocated fs at n fd pathname (head cs) s))
      → IsScanned ind (
          scan_word lh allocated fs at
            (scan_words lh allocated fs at n fd pathname)
            fd
            pathname
            (head cs)
            s)
  scan_word-IsScanned n pathname [] p s ind low h first e ih =
      (s, refl, h, store_all-nil pathname p s.ind ind e)
  scan_word-IsScanned n pathname (c ∷ cs) p s ind low h first e ih =
      let a : isalpha c ≡ true = ground (arith, first) in
      let cs' : List ℕ = c ∷ cs in
      let e' = rw (words-letter p c cs a) at e in
      let (s2, word, h2, same) = read_word-prefix 64 cs' p s h in
      let (s3, stored, kept, e3) =
        store_word-done (prefix 64 cs') pathname (p + 1)
          (occurrences pathname (words (p + length (prefix 64 cs')) (rest 64 cs'))) s2 ind
          (rw (same) e') in
      let shorter = length-rest 63 cs in
      let left : rest 64 cs' ≡ rest 63 cs = rw (a) refl in
      let fits : length (rest 64 cs') ≤ n = omega (arith, low, shorter, ap length left) in
      let (tell, stream) = h in
      let (s4, scanned, files, ind4) =
        ih (rest 64 cs') (p + length (prefix 64 cs')) s3 fits (rw (kept) h2) e3 in
      (s4, rw (tell, word, stored) scanned, files, ind4)

  -- From a file that is open, of which one character was read, the loop stores the words of what is left
  -- of it with their positions, if there is room for them all.
  pub scan_words-IsScanned :
      (n : ℕ) (pathname : Name) (cs : List ℕ) (p : ℕ) (s : Scanner Table) (ind : Index Table)
      → length cs ≤ n
      → IsAt cs p s.files
      → store_all lh allocated (occurrences pathname (words p cs)) s.ind ≡ some ind
      → IsScanned ind (scan_words lh allocated fs at n fd pathname (head cs) s)
  unfolding scan_words
  scan_words-IsScanned zero pathname [] p s ind low h e =
      (s, refl, h, store_all-nil pathname p s.ind ind e)
  scan_words-IsScanned (suc n) pathname [] p s ind low h e =
      (s, refl, h, store_all-nil pathname p s.ind ind e)
  scan_words-IsScanned zero pathname (c ∷ cs) p s ind low h e = ground (arith, low)
  scan_words-IsScanned (suc n) pathname (c ∷ cs) p s ind low h e =
      let (cs', p', s1, skipped, h1, same, found, shorter, first) =
        skip-IsSkipped (suc n) c cs p s low h in
      let e1 : store_all lh allocated (occurrences pathname (words p' cs')) s1.ind ≡ some ind =
        rw (found, same) e in
      rw (skipped) (
        scan_word-IsScanned n pathname cs' p' s1 ind (omega (arith, shorter, low)) h1 first e1
          (λ ds q s'. scan_words-IsScanned n pathname ds q s' ind))
