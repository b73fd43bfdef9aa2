-- ===== src/Search/Query/Newlines.antt =====
-- The two loops of TestServiceByFileOfWords in assign2/disksearch.c.
use cs.Prelude.{
  ℕ, ◌-◌, ◌<◌, ◌≤◌, ◌≡◌, refl, sym, ap, ◌∙◌, Bool, true, false, some, List, [], ◌∷◌, ◌++◌, ltb,
  ◌==◌, ◌||◌, Bool-cases, inl, inr, arith, All, if◌then◌else◌, same_text, same_text_iff, length,
  map, replicate, length-append,
}
use mathlib.Core.Path.{subst}
use cs.Fs.Directory.{Name}
use cs.Search.Index.{Text, IndexLocation, Lhash, Index, index_retrieve_entry}
use cs.Search.Index.Refinement.{IsLhash, Implements, index_retrieve_entry-Implements}
use cs.Search.Index.Session.{newest}
use cs.Search.Words.{isalpha, words}
use cs.Search.Words.Positions.{IsWordAt, words-AreWordsAt}
use cs.Search.Scan.Loops.{occurrences}
use cs.Search.Tree.{until_nul}
use cs.Search.Query.{
  Line, not_found, found, query_word, print_locations, fgets, next_lines, lines_of, strip_newline,
  ask_stripped, ask_lines, test_service_by_file_of_words,
}

not_letters : (k : Text) → ¬ All (λ c. isalpha c ≡ true) (k ++ b'\n' ∷ [])
not_letters [] (h, rest) = ground (arith, h)
not_letters (c ∷ cs) (h, rest) = not_letters cs rest

newest-newline :
    (pathname : Name) (p : ℕ) (bs : List ℕ) (ws : List (List ℕ × ℕ)) (f : Text → List IndexLocation)
    (k : Text)
    → All (IsWordAt p bs) ws
    → newest (occurrences pathname ws) f (k ++ b'\n' ∷ []) ≡ f (k ++ b'\n' ∷ [])
unfolding newest
newest-newline pathname p bs [] f k h = refl
newest-newline pathname p bs ((w, o) ∷ ws) f k ((n, at, text, some', most, letters), rest) =
    let new : IndexLocation = record { pathname = pathname; offset = some o } in
    let other : same_text w (k ++ b'\n' ∷ []) ≡ false =
      elim (Bool-cases (same_text w (k ++ b'\n' ∷ []))) [
        | inl same ↦ absurd (
            not_letters k (
              subst (All (λ c. isalpha c ≡ true)) ((same_text_iff w (k ++ b'\n' ∷ [])).0 same)
                letters))
        | inr differ ↦ differ
      ] in
    newest-newline pathname p bs ws (λ k'. if same_text w k' then new ∷ f k' else f k') k rest
    ∙ rw (other) refl

-- A word that a line holds: it fits with its newline, and has no newline and no NUL.
abbrev pub IsLine : Text → Type 0
IsLine w = (length w < 64) × All (λ c. (c == 0 || c == b'\n') ≡ false) w

abbrev pub with_newline : Text → Text
with_newline w = w ++ b'\n' ∷ []

-- A file of words, one on each line.
unfoldable pub text_of : List Text → List ℕ
text_of [] = []
text_of (w ∷ ws) = w ++ b'\n' ∷ text_of ws

-- What is printed for a word with these locations.
abbrev pub answer : Text → List IndexLocation → List Line
answer k [] = not_found k ∷ []
answer k (l ∷ ls) = map (found k) (l ∷ ls)

-- What is printed for the words in order.
unfoldable pub answers : (Text → List IndexLocation) → List Text → List Line
answers f [] = []
answers f (w ∷ ws) = answer w (f w) ++ answers f ws

fgets-line :
    (w : Text) (room : ℕ) (rest : List ℕ)
    → All (λ c. (c == 0 || c == b'\n') ≡ false) w
    → length w ≤ room
    → fgets room (w ++ b'\n' ∷ rest) ≡ (with_newline w, lines_of rest)
unfolding fgets
fgets-line [] room rest l h = refl
fgets-line (c ∷ w) room rest (l, ls) h =
    let goes_on : (c == b'\n' || room == 0) ≡ false = ground (arith, l, h) in
    rw (goes_on) (
      ap {A = List ℕ × List Text} (λ (r, r'). (c ∷ r, r'))
        (fgets-line w (room - 1) rest ls (omega (arith, h))))

next_lines-with_newline :
    (w : Text) (ls : List Text) → next_lines (with_newline w, ls) ≡ with_newline w ∷ ls
next_lines-with_newline [] ls = refl
next_lines-with_newline (c ∷ w) ls = refl

lines_of-text_of : (ws : List Text) → All IsLine ws → lines_of (text_of ws) ≡ map with_newline ws
unfolding text_of
lines_of-text_of [] l = unfold fgets in refl
lines_of-text_of (w ∷ ws) ((fits, l), ls) =
    ap next_lines (fgets-line w 63 (text_of ws) l (omega (arith, fits)))
    ∙ next_lines-with_newline w (lines_of (text_of ws))
    ∙ ap (λ r. with_newline w ∷ r) (lines_of-text_of ws ls)

until_nul-with_newline :
    (w : Text)
    → All (λ c. (c == 0 || c == b'\n') ≡ false) w
    → until_nul (with_newline w) ≡ with_newline w
unfolding until_nul
until_nul-with_newline [] l = refl
until_nul-with_newline (c ∷ w) (l, ls) =
    let here : (c == 0) ≡ false = ground (arith, l) in
    rw (here) (ap (λ r. c ∷ r) (until_nul-with_newline w ls))

strip_newline-with_newline : (w : Text) → strip_newline (with_newline w) ≡ w
unfolding strip_newline
strip_newline-with_newline [] = refl
strip_newline-with_newline (c ∷ []) = refl
strip_newline-with_newline (c ∷ d ∷ w) = ap (λ r. c ∷ r) (strip_newline-with_newline (d ∷ w))

module _ {Table : Type 0} (lh : Lhash Table) (laws : IsLhash lh) where
  nothing_found :
      (k : Text) (printed : Bool) (r : List IndexLocation × Index Table)
      → r.0 ≡ []
      → (print_locations lh k printed r).0.0 ≡ false
  nothing_found k printed ([], ind) e = refl
  nothing_found k printed (l ∷ ls, ind) e = ground (arith, e)

  -- An index that holds the words of a file, and nothing else, has no line with its newline.
  query_word-newline :
      (pathname : Name) (p : ℕ) (bs : List ℕ) (ind : Index Table) (line : Text) (printed : Bool)
      → Implements lh laws ind (newest (occurrences pathname (words p bs)) (λ k. []))
      → (query_word lh (line ++ b'\n' ∷ []) printed ind).0.0 ≡ false
  unfolding query_word
  query_word-newline pathname p bs ind line printed h =
      nothing_found (line ++ b'\n' ∷ []) printed (index_retrieve_entry lh (line ++ b'\n' ∷ []) ind)
        ((index_retrieve_entry-Implements lh laws (line ++ b'\n' ∷ []) ind
            (newest (occurrences pathname (words p bs)) (λ k. [])) h).0
          ∙ newest-newline pathname p bs (words p bs) (λ k. []) line (words-AreWordsAt p bs))

  retrieved :
      (k : Text) (printed : Bool) (r : List IndexLocation × Index Table)
      → (print_locations lh k printed r).1 ≡ r.1
  retrieved k printed ([], ind) = refl
  retrieved k printed (l ∷ ls, ind) = refl

  answered :
      (k : Text) (r : List IndexLocation × Index Table) (ls : List IndexLocation)
      → r.0 ≡ ls
      → (print_locations lh k true r).0.1 ≡ answer k ls
  answered k ([], ind) ls e = ap (answer k) e
  answered k (l ∷ ls', ind) ls e = ap (answer k) e

  query_word-Implements :
      (k : Text) (printed : Bool) (ind : Index Table) (f : Text → List IndexLocation)
      → Implements lh laws ind f
      → Implements lh laws (query_word lh k printed ind).1 f
  unfolding query_word
  query_word-Implements k printed ind f h =
      subst (λ i. Implements lh laws i f)
        (sym (retrieved k printed (index_retrieve_entry lh k ind)))
        (index_retrieve_entry-Implements lh laws k ind f h).1

  query_word-answer :
      (k : Text) (ind : Index Table) (f : Text → List IndexLocation)
      → Implements lh laws ind f
      → (query_word lh k true ind).0.1 ≡ answer k (f k)
  unfolding query_word
  query_word-answer k ind f h =
      answered k (index_retrieve_entry lh k ind) (f k)
        (index_retrieve_entry-Implements lh laws k ind f h).0

  ask_stripped-line :
      (w : Text) (ws : List Text) (ind : Index Table)
      → IsLine w
      → ask_stripped lh (map with_newline (w ∷ ws)) ind ≡ (
          let (r, next) = query_word lh w true ind in
          let (rest, last) = ask_stripped lh (map with_newline ws) next in (r.1 ++ rest, last))
  unfolding ask_stripped
  ask_stripped-line w ws ind (fits, l) =
      let asked : ltb 0 (length (with_newline w)) ≡ true =
        ground (arith, length-append w (b'\n' ∷ [])) in
      rw (until_nul-with_newline w l, strip_newline-with_newline w, asked) refl

  ask_lines-line :
      (w : Text) (ws : List Text) (ind : Index Table)
      → IsLine w
      → ask_lines lh (map with_newline (w ∷ ws)) ind ≡ (
          let (r, next) = query_word lh (with_newline w) false ind in
          let (rest, last) = ask_lines lh (map with_newline ws) next in (r.0 ∷ rest, last))
  unfolding ask_lines
  ask_lines-line w ws ind (fits, l) = rw (until_nul-with_newline w l) refl

  ask_stripped-answers :
      (ws : List Text) (ind : Index Table) (f : Text → List IndexLocation)
      → All IsLine ws
      → Implements lh laws ind f
      → ((ask_stripped lh (map with_newline ws) ind).0 ≡ answers f ws)
        × Implements lh laws (ask_stripped lh (map with_newline ws) ind).1 f
  unfolding answers
  ask_stripped-answers [] ind f l h = unfold ask_stripped in (refl, h)
  ask_stripped-answers (w ∷ ws) ind f (l, ls) h =
      let next = (query_word lh w true ind).1 in
      let rest = ask_stripped-answers ws next f ls (query_word-Implements w true ind f h) in
      rw (ask_stripped-line w ws ind l) (
        ap (λ a. a ++ (ask_stripped lh (map with_newline ws) next).0) (query_word-answer w ind f h)
            ∙ ap (λ a. answer w (f w) ++ a) rest.0,
        rest.1,
      )

  module _ (pathname : Name) (p : ℕ) (bs : List ℕ) where
    -- What the index of the words of one file gives for a word.
    abbrev pub one_file : Text → List IndexLocation
    one_file = newest (occurrences pathname (words p bs)) (λ k. [])

    ask_lines-newline :
        (ws : List Text) (ind : Index Table)
        → All IsLine ws
        → Implements lh laws ind one_file
        → ((ask_lines lh (map with_newline ws) ind).0 ≡ replicate (length ws) false)
          × Implements lh laws (ask_lines lh (map with_newline ws) ind).1 one_file
    ask_lines-newline [] ind l h = unfold ask_lines in (refl, h)
    ask_lines-newline (w ∷ ws) ind (l, ls) h =
        let next = (query_word lh (with_newline w) false ind).1 in
        let rest =
          ask_lines-newline ws next ls
            (query_word-Implements (with_newline w) false ind one_file h) in
        rw (ask_lines-line w ws ind l) (
          ap (λ r. r ∷ (ask_lines lh (map with_newline ws) next).0)
                (query_word-newline pathname p bs ind w false h)
              ∙ ap (λ rs. false ∷ rs) rest.0,
          rest.1,
        )

    -- With a hash table that does what OpenSSL documents, an index that holds the words of one file, and
    -- nothing else, and a file of words with one on each line, each of fewer than 64 characters, with no
    -- NUL and no newline, and each with a newline after it: the first loop of
    -- `TestServiceByFileOfWords` prints for each word the locations that the index gives for it, or that
    -- it is not found, and in the timed loop no line is found, whatever the words are. The index still
    -- gives the same afterwards.
    pub test_service_by_file_of_words-newline :
        (ws : List Text) (ind : Index Table)
        → All IsLine ws
        → Implements lh laws ind one_file
        → (ind' : Index Table) × (test_service_by_file_of_words lh (some (text_of ws)) ind
            ≡ some ((answers one_file ws, replicate (length ws) false), ind'))
          × Implements lh laws ind' one_file
    unfolding test_service_by_file_of_words
    test_service_by_file_of_words-newline ws ind l h =
        let first = ask_stripped-answers ws ind one_file l h in
        let second = ask_lines-newline ws (ask_stripped lh (map with_newline ws) ind).1 l first.1 in
        (
          (ask_lines lh (map with_newline ws) (ask_stripped lh (map with_newline ws) ind).1).1,
          rw (lines_of-text_of ws l) (
              ap
                (λ a. some (
                  (
                    a,
                    (ask_lines lh (map with_newline ws)
                        (ask_stripped lh (map with_newline ws) ind).1).0,
                  ),
                  (ask_lines lh (map with_newline ws)
                      (ask_stripped lh (map with_newline ws) ind).1).1,
                ))
                first.0
              ∙ ap
                  (λ b. some (
                    (answers one_file ws, b),
                    (ask_lines lh (map with_newline ws)
                        (ask_stripped lh (map with_newline ws) ind).1).1,
                  ))
                  second.0),
          second.1,
        )
