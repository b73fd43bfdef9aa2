-- ===== src/Search/Words.antt =====
-- The words of a text: maximal runs of letters, cut after 64 letters, as assign2/scan.c indexes them.
pub mod Positions
use cs.Prelude.{
  ℕ, zero, suc, ◌+◌, ◌-◌, ◌≤◌, ◌<◌, ◌≡◌, refl, sym, ap, ◌∙◌, Bool, true, false, List, [], ◌∷◌, ◌++◌,
  leb, ◌&&◌, ◌||◌, if◌then◌else◌, length, take, Bool-cases, inl, inr, arith,
}

-- `isalpha` of the C locale.
abbrev pub isalpha : ℕ → Bool
isalpha c = leb b'A' c && leb c b'Z' || leb b'a' c && leb c b'z'

abbrev pub max_word_size : ℕ
max_word_size = 64

-- The letters that go on with a word that has so much room left, and the words after them. A word has
-- the number of characters up to its first one, that one included; `p` were before.
unfoldable pub split : (room p : ℕ) → List ℕ → List ℕ × List (List ℕ × ℕ)
split room p [] = ([], [])
split zero p (c ∷ cs) =
    let (w, ws) = split (if isalpha c then 63 else 0) (p + 1) cs in
    if isalpha c then ([], (c ∷ w, p + 1) ∷ ws) else ([], ws)
split (suc room) p (c ∷ cs) =
    let (w, ws) = split (if isalpha c then room else 0) (p + 1) cs in
    if isalpha c then (c ∷ w, ws) else ([], ws)

abbrev pub words : (p : ℕ) → List ℕ → List (List ℕ × ℕ)
words p cs = (split 0 p cs).1

-- The letters in front, so many at most, and what is left.
abbrev pub prefix : ℕ → List ℕ → List ℕ
prefix zero cs = []
prefix (suc room) [] = []
prefix (suc room) (c ∷ cs) = if isalpha c then c ∷ prefix room cs else []

abbrev pub rest : ℕ → List ℕ → List ℕ
rest zero cs = cs
rest (suc room) [] = []
rest (suc room) (c ∷ cs) = if isalpha c then rest room cs else c ∷ cs

pub split-zero : (p : ℕ) (cs : List ℕ) → split 0 p cs ≡ ([], words p cs)
unfolding split
split-zero p [] = refl
split-zero p (c ∷ cs) = elim (Bool-cases (isalpha c)) [
  | inl a ↦ rw (a, words) refl
  | inr a ↦ rw (a, words) refl
]

pub words-other : (p c : ℕ) (cs : List ℕ) → isalpha c ≡ false → words p (c ∷ cs) ≡ words (p + 1) cs
unfolding split
words-other p c cs a = rw (a, words) refl

pub split-prefix :
    (room p : ℕ) (cs : List ℕ)
    → split room p cs ≡ (prefix room cs, words (p + length (prefix room cs)) (rest room cs))
unfolding split
split-prefix zero p cs = split-zero p cs ∙ ap (λ q. ([], words q cs)) (omega arith)
split-prefix (suc room) p [] = refl
split-prefix (suc room) p (c ∷ cs) = elim (Bool-cases (isalpha c)) [
  | inl a ↦ rw (a) (
      ap (λ (w, ws). (c ∷ w, ws)) (split-prefix room (p + 1) cs)
      ∙ ap (λ q. (c ∷ prefix room cs, words q (rest room cs))) (omega arith))
  | inr a ↦
      rw (a) (
        ap (λ ws. ([], ws)) (sym (words-other p c cs a) ∙ ap (λ q. words q (c ∷ cs)) (omega arith)))
]

pub words-letter :
    (p c : ℕ) (cs : List ℕ)
    → isalpha c ≡ true
    → words p (c ∷ cs)
      ≡ (prefix 64 (c ∷ cs), p + 1) ∷ words (p + length (prefix 64 (c ∷ cs))) (rest 64 (c ∷ cs))
unfolding split
words-letter p c cs a =
    rw (a, words)
      (ap (λ (w, ws). (c ∷ w, p + 1) ∷ ws) (split-prefix 63 (p + 1) cs)
        ∙ ap (λ q. (c ∷ prefix 63 cs, p + 1) ∷ words q (rest 63 cs)) (omega arith))

pub length-rest : (room : ℕ) (cs : List ℕ) → length (rest room cs) ≤ length cs
length-rest zero cs = omega arith
length-rest (suc room) [] = omega arith
length-rest (suc room) (c ∷ cs) = elim (Bool-cases (isalpha c)) [
  | inl a ↦ let shorter = length-rest room cs in rw (a) (omega (arith, shorter))
  | inr a ↦ rw (a) (omega arith)
]
