-- ===== src/Search/Words/Positions.antt =====
-- Where the words that assign2/scan.c finds stand in a text.
use cs.Prelude.{
  ℕ, zero, suc, ◌+◌, ◌≤◌, ◌<◌, ◌≡◌, refl, sym, ap, ◌∙◌, true, List, [], ◌∷◌, ◌++◌, if◌then◌else◌,
  length, take, drop, Bool-cases, inl, inr, arith, All, All-mono,
}
use cs.Search.Words.{isalpha, split, words, prefix, split-zero, split-prefix}

-- The word stands in the text after so many characters, which its number counts with its first
-- letter and `p` more; it is made of letters, at least one and at most 64.
abbrev pub IsWordAt : (p : ℕ) → List ℕ → List ℕ × ℕ → Type 0
IsWordAt p cs (w, o) =
    (k : ℕ) × (o ≡ p + k + 1)
    × (take (length w) (drop k cs) ≡ w)
    × (0 < length w)
    × (length w ≤ 64)
    × All (λ c. isalpha c ≡ true) w

take-prefix : (room : ℕ) (cs : List ℕ) → take (length (prefix room cs)) cs ≡ prefix room cs
take-prefix zero cs = refl
take-prefix (suc room) [] = refl
take-prefix (suc room) (c ∷ cs) = elim (Bool-cases (isalpha c)) [
  | inl a ↦ rw (a) (ap (λ l. c ∷ l) (take-prefix room cs))
  | inr a ↦ rw (a) refl
]

length-prefix : (room : ℕ) (cs : List ℕ) → length (prefix room cs) ≤ room
length-prefix zero cs = omega arith
length-prefix (suc room) [] = omega arith
length-prefix (suc room) (c ∷ cs) = elim (Bool-cases (isalpha c)) [
  | inl a ↦ let low = length-prefix room cs in rw (a) (omega (arith, low))
  | inr a ↦ rw (a) (omega arith)
]

prefix-letters : (room : ℕ) (cs : List ℕ) → All (λ c. isalpha c ≡ true) (prefix room cs)
prefix-letters zero cs = tt
prefix-letters (suc room) [] = tt
prefix-letters (suc room) (c ∷ cs) = elim (Bool-cases (isalpha c)) [
  | inl a ↦ rw (a) (a, prefix-letters room cs)
  | inr a ↦ rw (a) tt
]

shift :
    (p c : ℕ) (cs : List ℕ) (ws : List (List ℕ × ℕ))
    → All (IsWordAt (p + 1) cs) ws
    → All (IsWordAt p (c ∷ cs)) ws
shift p c cs ws h =
    All-mono ws
      (λ (w, o) (k, at, text, some', most, letters).
        (suc k, omega (arith, at), text, some', most, letters))
      h

first-IsWordAt :
    (p c : ℕ) (cs : List ℕ)
    → isalpha c ≡ true
    → IsWordAt p (c ∷ cs) (c ∷ (split 63 (p + 1) cs).0, p + 1)
first-IsWordAt p c cs a =
    let is : (split 63 (p + 1) cs).0 ≡ prefix 63 cs =
      ap {A = List ℕ × List (List ℕ × ℕ)} (λ r. r.0) (split-prefix 63 (p + 1) cs) in
    let low = length-prefix 63 cs in
    rw (is) (
      0,
      omega arith,
      ap (λ l. c ∷ l) (take-prefix 63 cs),
      omega arith,
      omega (arith, low),
      (a, prefix-letters 63 cs),
    )

split-IsWordAt : (room p : ℕ) (cs : List ℕ) → All (IsWordAt p cs) (split room p cs).1
unfolding split
split-IsWordAt room p [] = tt
split-IsWordAt zero p (c ∷ cs) = elim (Bool-cases (isalpha c)) [
  | inl a ↦
      let tail = shift p c cs (split 63 (p + 1) cs).1 (split-IsWordAt 63 (p + 1) cs) in
      rw (a) (first-IsWordAt p c cs a, tail)
  | inr a ↦ rw (a) (shift p c cs (split 0 (p + 1) cs).1 (split-IsWordAt 0 (p + 1) cs))
]
split-IsWordAt (suc room) p (c ∷ cs) = elim (Bool-cases (isalpha c)) [
  | inl a ↦ rw (a) (shift p c cs (split room (p + 1) cs).1 (split-IsWordAt room (p + 1) cs))
  | inr a ↦ rw (a) (shift p c cs (split 0 (p + 1) cs).1 (split-IsWordAt 0 (p + 1) cs))
]

-- Each word of a text stands in the text at its position and has from 1 to 64 letters.
pub words-AreWordsAt : (p : ℕ) (cs : List ℕ) → All (IsWordAt p cs) (words p cs)
words-AreWordsAt p cs = split-IsWordAt 0 p cs

-- The letters of a text.
pub letters : List ℕ → List ℕ
letters [] = []
letters (c ∷ cs) = if isalpha c then c ∷ letters cs else letters cs

-- The texts of words, one after the other.
pub texts : List (List ℕ × ℕ) → List ℕ
texts [] = []
texts ((w, o) ∷ ws) = w ++ texts ws

-- Where there is no room, no word goes on.
no_letters :
    (p : ℕ) (cs all : List ℕ)
    → (split 0 p cs).0 ++ texts (split 0 p cs).1 ≡ all
    → texts (split 0 p cs).1 ≡ all
no_letters p cs all h =
    let nothing : (split 0 p cs).0 ≡ [] =
      ap {A = List ℕ × List (List ℕ × ℕ)} (λ r. r.0) (split-zero p cs) in
    sym (ap (λ l. l ++ texts (split 0 p cs).1) nothing) ∙ h

split-letters :
    (room p : ℕ) (cs : List ℕ) → (split room p cs).0 ++ texts (split room p cs).1 ≡ letters cs
unfolding split texts letters
split-letters room p [] = refl
split-letters zero p (c ∷ cs) = elim (Bool-cases (isalpha c)) [
  | inl a ↦ rw (a) (ap (λ l. c ∷ l) (split-letters 63 (p + 1) cs))
  | inr a ↦ rw (a) (no_letters (p + 1) cs (letters cs) (split-letters 0 (p + 1) cs))
]
split-letters (suc room) p (c ∷ cs) = elim (Bool-cases (isalpha c)) [
  | inl a ↦ rw (a) (ap (λ l. c ∷ l) (split-letters room (p + 1) cs))
  | inr a ↦ rw (a) (no_letters (p + 1) cs (letters cs) (split-letters 0 (p + 1) cs))
]

-- The words of a text, one after the other, are its letters in their order.
pub texts-words : (p : ℕ) (cs : List ℕ) → texts (words p cs) ≡ letters cs
texts-words p cs = no_letters p cs (letters cs) (split-letters 0 p cs)
