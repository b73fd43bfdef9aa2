-- ===== src/Tsh/Parse/RoundTrip.antt =====
-- The loop of assign3/tsh-parse.c over a printed list of items.
use cs.Prelude.{
  ℕ, zero, suc, ◌+◌, ◌-◌, ◌<◌, ◌≡◌, refl, ap, ◌≢◌, Bool, true, false, none, some, List, [], ◌∷◌,
  length, is_some, arith, length-append, ◌∙◌, inl, inr,
}
use cs.Tsh.Jobs.{Text}
use cs.Tsh.Parse.{
  normal, infile, outfile, Scan, is_whitespace, skip_whitespace, go, store_token, round, scan,
}
use cs.Tsh.Parse.Items.{
  Token, quoted, bare, Item, argument, input, output, text, IsToken, IsFileName, print_token,
  print_items, collect, IsCommand, behind, Allowed, round-token, skip_whitespace-token,
}

scan-behind :
    (f max : ℕ) (t : Token) (r : Text) (s : Scan) → scan f max (behind t r) s ≡ scan f max r s
unfolding scan skip_whitespace
scan-behind zero max t r s = refl
scan-behind (suc f) max (quoted w) r s = refl
scan-behind (suc f) max (bare w) r s = refl

-- One round of the loop for a token.
scan-token :
    (f max : ℕ) (t : Token) (r : Text) (s : Scan)
    → IsToken t
    → Allowed s (text t)
    → length s.arguments ≢ max
    → scan (suc f) max (print_token t r) s ≡ scan f max r (store_token s.state (text t) s)
unfolding scan
scan-token f max t r s h k room =
    rw (scan, skip_whitespace-token t r h, round-token max t r s h k room) (scan-behind f max t r _)

scan-space : (f max : ℕ) (r : Text) (s : Scan) → scan f max (b' ' ∷ r) s ≡ scan f max r s
unfolding scan skip_whitespace
scan-space zero max r s = refl
scan-space (suc f) max r s = refl

round-input :
    (max : ℕ) (r : Text) (s : Scan)
    → s.state ≡ normal
    → s.infile ≡ none
    → length s.arguments ≢ max
    → round max (b'<' ∷ r) s ≡ go r (record s { state = infile })
unfolding round
round-input max r s n e room = ground arith

round-output :
    (max : ℕ) (r : Text) (s : Scan)
    → s.state ≡ normal
    → s.outfile ≡ none
    → length s.arguments ≢ max
    → round max (b'>' ∷ r) s ≡ go r (record s { state = outfile })
unfolding round
round-output max r s n e room = ground arith

skip_whitespace-sign :
    (c : ℕ) (r : Text) → is_whitespace c ≡ false → skip_whitespace (c ∷ r) ≡ c ∷ r
unfolding skip_whitespace
skip_whitespace-sign c r h = rw h

-- Two rounds for a redirection: its sign, and the name behind it.
scan-input :
    (f max : ℕ) (t : Token) (r : Text) (s : Scan)
    → IsFileName t
    → s.state ≡ normal
    → s.infile ≡ none
    → length s.arguments ≢ max
    → scan (suc (suc f)) max (b'<' ∷ b' ' ∷ print_token t r) s
      ≡ scan f max r (record s { state = normal; infile = some (text t) })
unfolding scan
scan-input f max t r s h n e room =
    let tail = b' ' ∷ print_token t r in
    rw (scan, skip_whitespace-sign b'<' tail refl, round-input max tail s n e room)
      (scan-space (suc f) max (print_token t r) (record s { state = infile })
        ∙ scan-token f max t r (record s { state = infile }) h.0 (inr (h.1, h.2)) room)

scan-output :
    (f max : ℕ) (t : Token) (r : Text) (s : Scan)
    → IsFileName t
    → s.state ≡ normal
    → s.outfile ≡ none
    → length s.arguments ≢ max
    → scan (suc (suc f)) max (b'>' ∷ b' ' ∷ print_token t r) s
      ≡ scan f max r (record s { state = normal; outfile = some (text t) })
unfolding scan
scan-output f max t r s h n e room =
    let tail = b' ' ∷ print_token t r in
    rw (scan, skip_whitespace-sign b'>' tail refl, round-output max tail s n e room)
      (scan-space (suc f) max (print_token t r) (record s { state = outfile })
        ∙ scan-token f max t r (record s { state = outfile }) h.0 (inr (h.1, h.2)) room)

length-print_token : (t : Token) (r : Text) → length r < length (print_token t r)
length-print_token (quoted w) r = omega (arith, length-append w (39 ∷ b' ' ∷ r))
length-print_token (bare w) r = omega (arith, length-append w (b' ' ∷ r))

-- The loop collects what the items say.
pub scan-collect :
    (f max n : ℕ) (i o : Bool) (is : List Item) (s : Scan)
    → length (print_items is) < f
    → IsCommand i o n is
    → length s.arguments + n < max
    → s.state ≡ normal
    → is_some s.infile ≡ i
    → is_some s.outfile ≡ o
    → scan f max (print_items is) s ≡ some (collect is s)
unfolding print_items collect
scan-collect zero max n i o is s fuel c room st ei eo = absurd (omega arith)
scan-collect (suc f) max n i o [] s fuel c room st ei eo =
    unfold scan round skip_whitespace in ground arith
scan-collect (suc f) max n i o (argument t ∷ is) s fuel c room st ei eo =
    scan-token f max t (print_items is) s c.1 (inl st) (omega arith)
    ∙ ap (λ st'. scan f max (print_items is) (store_token st' (text t) s)) st
    ∙ scan-collect f max (n - 1) i o is (store_token normal (text t) s)
        (omega (arith, length-print_token t (print_items is))) c.2
        (omega (arith, c.0, length-append s.arguments (text t ∷ []))) refl ei eo
scan-collect (suc zero) max n i o (input t ∷ is) s fuel c room st ei eo = absurd (omega arith)
scan-collect (suc (suc f)) max n i o (input t ∷ is) s fuel c room st ei eo =
    scan-input f max t (print_items is) s c.1 st (ground (arith, c.0)) (omega arith)
    ∙ scan-collect f max n true o is (store_token infile (text t) s)
        (omega (arith, length-print_token t (print_items is))) c.2 room refl refl eo
scan-collect (suc zero) max n i o (output t ∷ is) s fuel c room st ei eo = absurd (omega arith)
scan-collect (suc (suc f)) max n i o (output t ∷ is) s fuel c room st ei eo =
    scan-output f max t (print_items is) s c.1 st (ground (arith, c.0)) (omega arith)
    ∙ scan-collect f max n i true is (store_token outfile (text t) s)
        (omega (arith, length-print_token t (print_items is))) c.2 room refl ei refl
