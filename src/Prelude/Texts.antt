-- ===== src/Prelude/Texts.antt =====
-- Texts as lists of character codes, and their comparison.
use Prim.Native.Nat.{ℕ}
use mathlib.Core.Path.{◌≡◌, refl}
use mathlib.Core.Logic.{◌↔◌}
use mathlib.Core.Bool.{Bool, true, false, ◌&&◌}
use mathlib.Core.List.{List, [], ◌∷◌}
use native.Mathlib.Omega.{arith}
use cs.Prelude.Tests.{◌==◌}

-- `strcmp` yields 0.
unfoldable pub same_text : List ℕ → List ℕ → Bool
same_text [] [] = true
same_text [] (d ∷ ds) = false
same_text (c ∷ cs) [] = false
same_text (c ∷ cs) (d ∷ ds) = c == d && same_text cs ds

pub same_text_iff : (s t : List ℕ) → (same_text s t ≡ true) ↔ (s ≡ t)
unfolding same_text
same_text_iff [] [] = ground arith
same_text_iff [] (y ∷ t) = ground arith
same_text_iff (x ∷ s) [] = ground arith
same_text_iff (x ∷ s) (y ∷ t) = let rest = same_text_iff s t in ground (arith, rest)

pub same_text_self : (s : List ℕ) → same_text s s ≡ true
same_text_self s = (same_text_iff s s).1 refl
