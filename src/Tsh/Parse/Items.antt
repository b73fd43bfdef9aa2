-- ===== src/Tsh/Parse/Items.antt =====
-- Command lines for assign3/tsh-parse.c as lists of items, and the loop's round for one token.
use cs.Prelude.{
  ℕ, ◌-◌, ◌<◌, ◌≡◌, refl, ◌≢◌, Bool, true, false, some, List, [], ◌∷◌, ◌++◌, length, arith, All,
  ◌⊎◌,
}
use cs.Tsh.Jobs.{Text}
use cs.Tsh.Parse.{
  normal, infile, outfile, Scan, peek, is_whitespace, skip_whitespace, at_redirection, split_at, go,
  store_token, take_token, round,
}

-- A token, with or without quotes, and the parts of a command in the order of the line.
pub data Token : Type 0 where
  quoted bare : Text → Token

pub data Item : Type 0 where
  argument input output : Token → Item

abbrev pub text : Token → Text
text (quoted w) = w
text (bare w) = w

abbrev pub Without : ℕ → Text → Type 0
Without c = All (λ d. d ≢ c)

-- A bare token begins with a byte that does not mean anything to the parser and has no space; a quoted
-- one has no quote. No text of C has a 0 inside.
abbrev pub IsToken : Token → Type 0
IsToken (quoted w) = Without 39 w × Without 0 w
IsToken (bare []) = ⊥
IsToken (bare (c ∷ w)) =
    (is_whitespace c ≡ false) × (c ≢ 39) × (at_redirection (c ∷ w) ≡ false) × Without b' ' (c ∷ w)

-- The name of a file does not begin with `<` or `>`, even in quotes.
abbrev pub IsFileName : Token → Type 0
IsFileName t = IsToken t × (peek (text t) ≢ b'<') × (peek (text t) ≢ b'>')

abbrev pub print_token : Token → Text → Text
print_token (quoted w) r = 39 ∷ (w ++ 39 ∷ b' ' ∷ r)
print_token (bare w) r = w ++ b' ' ∷ r

unfoldable pub print_items : List Item → Text
print_items [] = []
print_items (argument t ∷ is) = print_token t (print_items is)
print_items (input t ∷ is) = b'<' ∷ b' ' ∷ print_token t (print_items is)
print_items (output t ∷ is) = b'>' ∷ b' ' ∷ print_token t (print_items is)

-- What the items say, in order.
unfoldable pub collect : List Item → Scan → Scan
collect [] s = s
collect (argument t ∷ is) s = collect is (store_token normal (text t) s)
collect (input t ∷ is) s = collect is (store_token infile (text t) s)
collect (output t ∷ is) s = collect is (store_token outfile (text t) s)

-- Every item is well spelled, and there is at most one input and one output, counting what `i` and
-- `o` say has been seen; `n` more arguments fit.
abbrev pub IsCommand : (i o : Bool) → ℕ → List Item → Type 0
IsCommand i o n [] = Unit {0}
IsCommand i o n (argument t ∷ is) = (0 < n) × IsToken t × IsCommand i o (n - 1) is
IsCommand i o n (input t ∷ is) = (i ≡ false) × IsFileName t × IsCommand true o n is
IsCommand i o n (output t ∷ is) = (o ≡ false) × IsFileName t × IsCommand i true n is

pub split_at-append :
    (term : ℕ) (w r : Text) → Without term w → split_at term (w ++ term ∷ r) ≡ (w, some r)
unfolding split_at
split_at-append term [] r h = ground arith
split_at-append term (c ∷ w) r h = ground (arith, split_at-append term w r)

-- What the loop has still to read behind a token.
abbrev pub behind : Token → Text → Text
behind (quoted w) r = b' ' ∷ r
behind (bare w) r = r

-- The parser is between two tokens, or the name of a file is next and may stand there.
abbrev pub Allowed : Scan → Text → Type 0
Allowed s w = (s.state ≡ normal) ⊎ ((peek w ≢ b'<') × (peek w ≢ b'>'))

take_token-quoted :
    (w r : Text) (s : Scan)
    → IsToken (quoted w)
    → Allowed s w
    → take_token true (w ++ 39 ∷ b' ' ∷ r) s ≡ go (b' ' ∷ r) (store_token s.state w s)
take_token-quoted [] r s h k = ground (arith, split_at-append 39 [] (b' ' ∷ r))
take_token-quoted (c ∷ w) r s h k = ground (arith, split_at-append 39 (c ∷ w) (b' ' ∷ r))

take_token-bare :
    (c : ℕ) (w r : Text) (s : Scan)
    → IsToken (bare (c ∷ w))
    → take_token false (c ∷ (w ++ b' ' ∷ r)) s ≡ go r (store_token s.state (c ∷ w) s)
take_token-bare c w r s h = ground (arith, split_at-append b' ' (c ∷ w) r)

pub skip_whitespace-token :
    (t : Token) (r : Text) → IsToken t → skip_whitespace (print_token t r) ≡ print_token t r
unfolding skip_whitespace
skip_whitespace-token (quoted w) r h = refl
skip_whitespace-token (bare []) r h = absurd h
skip_whitespace-token (bare (c ∷ w)) r h = ground arith

pub round-token :
    (max : ℕ) (t : Token) (r : Text) (s : Scan)
    → IsToken t
    → Allowed s (text t)
    → length s.arguments ≢ max
    → round max (print_token t r) s ≡ go (behind t r) (store_token s.state (text t) s)
unfolding round
round-token max (quoted w) r s h k room = ground (arith, take_token-quoted w r s h k)
round-token max (bare []) r s h k room = absurd h
round-token max (bare (c ∷ w)) r s h k room = ground (arith, take_token-bare c w r s h)
