-- ===== src/Tsh/Parse/Termination.antt =====
-- The loop of assign3/tsh-parse.c ends: each round drops a byte of the command.
use cs.Prelude.{
  ℕ, zero, suc, ◌<◌, ◌≤◌, ◌≡◌, refl, Bool, true, false, Option, none, some, [], ◌∷◌, if◌then◌else◌,
  length, arith, ◌⊎◌, inl, inr,
}
use cs.Tsh.Jobs.{Text}
use cs.Tsh.Parse.{
  Scan, Parsed, skip_whitespace, split_at, Next, stop, go, store_token, after_token, take_token,
  round, scan, start, check_scan, parsed, parse_line,
}

skip_whitespace-le : (cs : Text) → length (skip_whitespace cs) ≤ length cs
unfolding skip_whitespace
skip_whitespace-le [] = omega arith
skip_whitespace-le (c ∷ cs) = ground (arith, skip_whitespace-le cs)

split_at-lt :
    (term : ℕ) (cs rest : Text) → (split_at term cs).1 ≡ some rest → length rest < length cs
unfolding split_at
split_at-lt term [] rest h = cc
split_at-lt term (c ∷ cs) rest h = ground (arith, split_at-lt term cs rest)

after_token-go :
    (quoted : Bool) (o : Option Text) (s : Scan) (rest : Text) (s' : Scan)
    → after_token quoted o s ≡ go rest s'
    → o ≡ some rest
after_token-go quoted none s rest s' h = cc
after_token-go quoted (some r) s rest s' h = cc

pub Next-cases :
    (n : Next) → ((s : Scan) × (n ≡ stop s)) ⊎ ((rest : Text) × (s : Scan) × (n ≡ go rest s))
Next-cases (stop s) = inl (s, refl)
Next-cases (go rest s) = inr (rest, s, refl)

take_token-lt :
    (quoted : Bool) (command : Text) (s : Scan) (rest : Text) (s' : Scan)
    → take_token quoted command s ≡ go rest s'
    → length rest < length command
unfolding split_at
take_token-lt quoted [] s rest s' h = ground arith
take_token-lt quoted (c ∷ cs) s rest s' h =
    let term = if quoted then 39 else b' ' in
    let (token, o) = split_at term (c ∷ cs) in
    ground (
      arith,
      split_at-lt term (c ∷ cs) rest,
      after_token-go quoted o (store_token s.state token s) rest s',
    )

-- A round that goes on has dropped a byte.
round-lt :
    (max : ℕ) (command : Text) (s : Scan) (rest : Text) (s' : Scan)
    → round max command s ≡ go rest s'
    → length rest < length command
unfolding round
round-lt max [] s rest s' h = ground arith
round-lt max (c ∷ cs) s rest s' h =
    ground (arith, take_token-lt true cs s rest s', take_token-lt false (c ∷ cs) s rest s')

scan_total :
    (f max : ℕ) (command : Text) (s : Scan)
    → length command < f
    → (s' : Scan) × (scan f max command s ≡ some s')
unfolding scan
scan_total zero max command s h = absurd (omega arith)
scan_total (suc f) max command s h = elim (Next-cases (round max (skip_whitespace command) s)) [
  | inl (s', e) ↦ (s', rw (e, scan))
  | inr (rest, s', e) ↦
      rw (e, scan)
        (scan_total f max rest s' (
          omega (
            arith,
            round-lt max (skip_whitespace command) s rest s' e,
            skip_whitespace-le command,
          )))
]

-- For an array of two places or more the loop ends and the parser returns, whatever the command
-- line.
pub parse_line_total :
    (max : ℕ) (command : Text) → 1 < max → (r : Parsed) × (parse_line max command ≡ some r)
unfolding parse_line
parse_line_total max command h =
    let (s, e) = scan_total (suc (length command)) max command start (omega arith) in
    (parsed (check_scan max s), ground (arith, e))
