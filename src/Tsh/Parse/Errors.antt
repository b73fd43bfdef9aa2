-- ===== src/Tsh/Parse/Errors.antt =====
-- What assign3/tsh-parse.c leaves in the arguments array, on every command line.
use cs.Prelude.{
  ℕ, zero, suc, ◌<◌, ◌≤◌, ◌≡◌, refl, sym, ◌∙◌, Bool, true, false, Option, none, some, List, [], ◌∷◌,
  ltb, ◌==◌, not, ◌&&◌, if◌then◌else◌, length, is_some, arith, Bool-cases, Option-cases, eq_of_some,
  length-append, ◌⊎◌, inl, inr,
}
use mathlib.Core.Path.{subst}
use cs.Tsh.Jobs.{Text}
use cs.Tsh.Parse.{
  ParseState, is_normal, Scan, Parsed, skip_whitespace, at_redirection, split_at, Next, stop, go,
  redirect, store_token, after_token, take_token, round, scan, start, check_scan, drop_last, parsed,
  parse_line,
}
use cs.Tsh.Parse.Termination.{Next-cases}

-- The array has room for what is stored, and nothing has gone wrong.
abbrev IsOpen : ℕ → Scan → Type 0
IsOpen max s = (length s.arguments ≤ max) × (s.message ≡ none)

-- As above, or the command was abandoned.
abbrev IsClosed : ℕ → Scan → Type 0
IsClosed max s = IsOpen max s ⊎ (s.arguments ≡ [])

abbrev After : ℕ → Next → Type 0
After max (stop s) = IsClosed max s
After max (go rest s) = IsOpen max s

store_token-IsOpen :
    (max : ℕ) (st : ParseState) (token : Text) (s : Scan)
    → length s.arguments < max
    → s.message ≡ none
    → IsOpen max (store_token st token s)
store_token-IsOpen max st token s room m = ground (arith, length-append s.arguments (token ∷ []))

After-if :
    (max : ℕ) (b : Bool) (x y : Next) → After max x → After max y → After max (if b then x else y)
After-if max true x y h k = h
After-if max false x y h k = k

after_token-After :
    (max : ℕ) (quoted : Bool) (o : Option Text) (s : Scan)
    → IsOpen max s
    → After max (after_token quoted o s)
after_token-After max true none s h = inr refl
after_token-After max false none s h = inl h
after_token-After max quoted (some rest) s h = h

redirect-After :
    (max : ℕ) (command : Text) (s : Scan) → IsOpen max s → After max (redirect command s)
redirect-After max [] s h = inl h
redirect-After max (c ∷ cs) s h =
    After-if max (c == b'<' && is_some s.infile) _ _ (inr refl)
      (After-if max (c == b'>' && is_some s.outfile) _ _ (inr refl) h)

take_token-After :
    (max : ℕ) (quoted : Bool) (command : Text) (s : Scan)
    → length s.arguments < max
    → s.message ≡ none
    → After max (take_token quoted command s)
take_token-After max quoted command s room m =
    let (token, rest) = split_at (if quoted then 39 else b' ') command in
    let now : IsOpen max s = (omega arith, m) in
    After-if max (is_normal s.state && not quoted && at_redirection command) _ _
      (redirect-After max command s now)
      (After-if max (not (is_normal s.state) && at_redirection command) _ _ (inl now) (
        after_token-After max quoted rest (store_token s.state token s)
          (store_token-IsOpen max s.state token s room m)))

round-After : (max : ℕ) (command : Text) (s : Scan) → IsOpen max s → After max (round max command s)
unfolding round
round-After max [] s h = elim (Bool-cases (length s.arguments == max)) [
  | inl e ↦ rw e (inl h)
  | inr e ↦ rw e (inl h)
]
round-After max (c ∷ cs) s h = elim (Bool-cases (length s.arguments == max)) [
  | inl e ↦ rw e (inl h)
  | inr e ↦
      let room : length s.arguments < max = ground (arith, e) in
      rw e (
        After-if max (c == 0) _ _ (inl h) (
          After-if max (c == 39) _ _ (take_token-After max true cs s room h.1)
            (take_token-After max false (c ∷ cs) s room h.1)))
]

scan-IsClosed :
    (f max : ℕ) (command : Text) (s r : Scan)
    → IsOpen max s
    → scan f max command s ≡ some r
    → IsClosed max r
unfolding scan
scan-IsClosed zero max command s r h e = cc
scan-IsClosed (suc f) max command s r h e =
    let after = round-After max (skip_whitespace command) s h in
    elim (Next-cases (round max (skip_whitespace command) s)) [
      | inl (s', g) ↦
          let stays : IsClosed max s' = rw g at after in
          let same : some s' ≡ some r = sym (rw (g, scan) refl) ∙ e in
          subst (λ x. IsClosed max x) (eq_of_some same) stays
      | inr (rest, s', g) ↦
          scan-IsClosed f max rest s' r (rw g at after) (sym (rw (g, scan) refl) ∙ e)
    ]

length-drop_last : (ws : List Text) → length (drop_last ws) ≤ length ws
unfolding drop_last
length-drop_last [] = omega arith
length-drop_last (w ∷ []) = omega arith
length-drop_last (w ∷ v ∷ ws) = omega (arith, length-drop_last (v ∷ ws))

check_scan-fits :
    (max : ℕ) (s : Scan)
    → 1 < max
    → IsClosed max s
    → (length (check_scan max s).arguments < max)
      × (is_some (check_scan max s).message ≡ true → (check_scan max s).arguments ≡ [])
unfolding check_scan
check_scan-fits max s two (inl h) = ground arith
check_scan-fits max s two (inr h) = ground (arith, h)

parsed-fits :
    (max : ℕ) (s : Scan)
    → length s.arguments < max
    → (is_some s.message ≡ true → s.arguments ≡ [])
    → (length (parsed s).arguments < max)
      × (is_some (parsed s).message ≡ true → (parsed s).arguments ≡ [])
unfolding parsed drop_last
parsed-fits max s room empty = ground (arith, length-drop_last s.arguments)

-- Whatever the command line, when the parser returns: the arguments and their NULL fit into the
-- array, and a command that was refused with a message has no arguments.
pub parse_line_bounds :
    (max : ℕ) (command : Text) (r : Parsed)
    → parse_line max command ≡ some r
    → (length r.arguments < max) × (is_some r.message ≡ true → r.arguments ≡ [])
unfolding parse_line
parse_line_bounds max command r e = elim (Bool-cases (ltb 1 max)) [
  | inr small ↦ ground (arith, small)
  | inl two ↦ elim (Option-cases (scan (suc (length command)) max command start)) [
    | inl g ↦ ground (arith, two, g)
    | inr (s, g) ↦
        let closed =
          scan-IsClosed (suc (length command)) max command start s (omega arith, refl) g in
        let fits = check_scan-fits max s (ground arith) closed in
        let done = parsed-fits max (check_scan max s) fits.0 fits.1 in
        let same : some (parsed (check_scan max s)) ≡ some r = ground (arith, two, g) in
        subst (λ x. (length x.arguments < max) × (is_some x.message ≡ true → x.arguments ≡ []))
          (eq_of_some same) done
  ]
]
