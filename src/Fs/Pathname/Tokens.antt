-- ===== src/Fs/Pathname/Tokens.antt =====
-- Splitting a path at its slashes, as assign2/assign1/pathname.c does with `strtok`.
use cs.Prelude.{ℕ, ◌≡◌, refl, ap, sym, ◌∙◌, false, List, [], ◌∷◌, ◌++◌, ◌==◌, All}
use mathlib.Core.List.{append_assoc, append-nil}
use cs.Fs.Directory.{Name}
use cs.Fs.Pathname.{slash, end_token, tokens_from, tokens}

-- A component of a path is not empty and has no slash.
abbrev pub IsComponent : Name → Type 0
IsComponent [] = ⊥
IsComponent (c ∷ cs) = All (λ x. (x == slash) ≡ false) (c ∷ cs)

-- The path of the components, each after a slash.
unfoldable pub path_of : List Name → Name
path_of [] = []
path_of (name ∷ names) = slash ∷ name ++ path_of names

tokens_from-next :
    (word : Name) (c : ℕ) (cs : Name)
    → (c == slash) ≡ false
    → tokens_from word (c ∷ cs) ≡ tokens_from (word ++ c ∷ []) cs
unfolding tokens_from
tokens_from-next word c cs h = rw (tokens_from, h) refl

tokens_from-append :
    (word name rest : Name)
    → All (λ x. (x == slash) ≡ false) name
    → tokens_from word (name ++ rest) ≡ tokens_from (word ++ name) rest
unfolding tokens_from
tokens_from-append word [] rest h = ap (λ w. tokens_from w rest) (sym (append-nil word))
tokens_from-append word (c ∷ cs) rest h =
    let step = tokens_from-append (word ++ c ∷ []) cs rest h.1 in
    tokens_from-next word c (cs ++ rest) h.0
    ∙ step
    ∙ (ap (λ w. tokens_from w rest) (append_assoc word (c ∷ []) cs))

tokens_from-path_of :
    (word : Name) (names : List Name)
    → All IsComponent names
    → tokens_from word (path_of names) ≡ end_token word names
unfolding tokens_from path_of
tokens_from-path_of word [] h = refl
tokens_from-path_of word ([] ∷ names) h = absurd h.0
tokens_from-path_of word ((c ∷ cs) ∷ names) h =
    ap (end_token word)
      (tokens_from-append [] (c ∷ cs) (path_of names) h.0 ∙ tokens_from-path_of (c ∷ cs) names h.1)

-- The tokens of the path that has each component after a slash are the components, where none is
-- empty or has a slash.
pub tokens-path_of : (names : List Name) → All IsComponent names → tokens (path_of names) ≡ names
unfolding tokens
tokens-path_of names h = tokens_from-path_of [] names h
