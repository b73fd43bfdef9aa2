-- ===== src/Fs/Checksum/Text.antt =====
-- Comparing checksums and printing them: assign2/assign1/chksumfile.c.
use cs.Prelude.{ℕ, ◌*◌, ◌/◌, ◌%◌, ◌<◌, ◌≡◌, ◌↔◌, refl, true, List, [], ◌∷◌, length, All, arith}
use cs.Fs.Checksum.{chksumfile_cvt2string, chksumfile_compare, hex_digit}

-- Two checksums compare as equal exactly when they are equal.
pub chksumfile_compare_iff : (c d : List ℕ) → (chksumfile_compare c d ≡ true) ↔ (c ≡ d)
unfolding chksumfile_compare
chksumfile_compare_iff [] [] = ground arith
chksumfile_compare_iff [] (y ∷ d) = ground arith
chksumfile_compare_iff (x ∷ c) [] = ground arith
chksumfile_compare_iff (x ∷ c) (y ∷ d) =
    let rest = chksumfile_compare_iff c d in ground (arith, rest)

-- The string has two digits for each byte.
pub length-chksumfile_cvt2string : (c : List ℕ) → length (chksumfile_cvt2string c) ≡ 2 * length c
unfolding chksumfile_cvt2string
length-chksumfile_cvt2string [] = refl
length-chksumfile_cvt2string (x ∷ c) =
    let rest = length-chksumfile_cvt2string c in ground (arith, rest)

hex_digit-injective : (m n : ℕ) → m < 16 → n < 16 → hex_digit m ≡ hex_digit n → m ≡ n
hex_digit-injective m n p q h = ground arith

-- The first two digits, and the others.
printed_first :
    (x y : ℕ) (c d : List ℕ)
    → chksumfile_cvt2string (x ∷ c) ≡ chksumfile_cvt2string (y ∷ d)
    → (hex_digit (x / 16) ≡ hex_digit (y / 16))
      × (hex_digit (x % 16) ≡ hex_digit (y % 16))
      × (chksumfile_cvt2string c ≡ chksumfile_cvt2string d)
unfolding chksumfile_cvt2string
printed_first x y c d h = (cc, cc, cc)

-- Two checksums of bytes with the same string are equal.
pub chksumfile_cvt2string-injective :
    (c d : List ℕ)
    → All (λ x. x < 256) c
    → All (λ x. x < 256) d
    → chksumfile_cvt2string c ≡ chksumfile_cvt2string d
    → c ≡ d
unfolding chksumfile_cvt2string
chksumfile_cvt2string-injective [] [] p q h = refl
chksumfile_cvt2string-injective [] (y ∷ d) p q h = ground arith
chksumfile_cvt2string-injective (x ∷ c) [] p q h = ground arith
chksumfile_cvt2string-injective (x ∷ c) (y ∷ d) p q h =
    let (hi, lo, rest) = printed_first x y c d h in
    let bytes = chksumfile_cvt2string-injective c d p.1 q.1 rest in
    let high = hex_digit-injective (x / 16) (y / 16) (omega (arith, p.0)) (omega (arith, q.0)) hi in
    let low = hex_digit-injective (x % 16) (y % 16) (omega arith) (omega arith) lo in
    ground (arith, p.0, q.0, high, low, bytes)
