-- ===== src/Fs/Directory/Entries.antt =====
-- The entries and the names in a directory's bytes, and what assign2/assign1/directory.c makes of them.
use cs.Prelude.{
  ℕ, zero, suc, ◌+◌, ◌-◌, ◌*◌, ◌<◌, ◌≤◌, ◌≡◌, refl, sym, ◌∙◌, ap, true, false, Option, none, some,
  List, [], ◌∷◌, ◌++◌, ltb, ◌==◌, if◌then◌else◌, length, take, drop, replicate, get_or, length-take,
  length-drop, length-append, length-replicate, Bool-cases, inl, inr, arith,
}
use mathlib.Core.Path.{subst}
use cs.Fs.Disk.{Buffer}
use cs.Fs.Directory.{Name, Direntv6, decode_dirent, entries, key_name, cmp_dir_entries, lfind}

-- Byte `i` of the 14 by which a name is looked for: its first 13 bytes, filled up with zeros.
abbrev pub key_byte : Name → ℕ → ℕ
key_byte name i = if ltb i 13 then get_or name i 0 else 0

-- Entry `k` of a directory with these bytes has the name. An entry has 16 bytes, the last 14 of which
-- are its name.
abbrev pub IsNamed : List ℕ → Name → ℕ → Type 0
IsNamed bytes name k = (i : ℕ) → i < 14 → get_or bytes (16 * k + (2 + i)) 0 ≡ key_byte name i

-- What the bytes of entry `k` say.
pub record IsEntry (bytes : List ℕ) (k : ℕ) (e : Direntv6) : Type 0 where
  pub inside : 16 * k + 16 ≤ length bytes
  pub has_inumber : e.d_inumber ≡ get_or bytes (16 * k) 0 + 256 * get_or bytes (16 * k + 1) 0
  pub has_length : length e.d_name ≡ 14
  pub has_name : (i : ℕ) → i < 14 → get_or e.d_name i 0 ≡ get_or bytes (16 * k + (2 + i)) 0

-- The first entry in a directory with these bytes that has the name, or none.
pub data Finds (bytes : List ℕ) (name : Name) : Option Direntv6 → Type 0 where
  nowhere : ((k : ℕ) → 16 * k + 16 ≤ length bytes → ¬ IsNamed bytes name k) → Finds bytes name none
  first :
      (k : ℕ) (e : Direntv6)
      → IsEntry bytes k e
      → IsNamed bytes name k
      → ((j : ℕ) → j < k → ¬ IsNamed bytes name j)
      → Finds bytes name (some e)

get_or-drop : (n i : ℕ) (xs : List ℕ) → get_or (drop n xs) i 0 ≡ get_or xs (n + i) 0
get_or-drop zero i xs = ap (λ k. get_or xs k 0) (omega arith)
get_or-drop (suc n) i [] = refl
get_or-drop (suc n) i (x ∷ xs) =
    let shift : suc (n + i) ≡ suc n + i = omega arith in
    get_or-drop n i xs ∙ ap (λ k. get_or (x ∷ xs) k 0) shift

get_or-take :
    (n i : ℕ) (xs : List ℕ) → get_or (take n xs) i 0 ≡ (if ltb i n then get_or xs i 0 else 0)
get_or-take zero i xs = ground arith
get_or-take (suc n) i [] = ground arith
get_or-take (suc n) zero (x ∷ xs) = ground arith
get_or-take (suc n) (suc i) (x ∷ xs) = ground (arith, get_or-take n i xs)

get_or-replicate : (n i : ℕ) → get_or (replicate {A = ℕ} n 0) i 0 ≡ 0
get_or-replicate zero i = refl
get_or-replicate (suc n) zero = refl
get_or-replicate (suc n) (suc i) = get_or-replicate n i

get_or-padded : (xs : List ℕ) (n i : ℕ) → get_or (xs ++ replicate n 0) i 0 ≡ get_or xs i 0
get_or-padded [] n i = get_or-replicate n i
get_or-padded (x ∷ xs) n zero = refl
get_or-padded (x ∷ xs) n (suc i) = get_or-padded xs n i

get_or-key_name : (name : Name) (i : ℕ) → get_or (key_name name) i 0 ≡ key_byte name i
unfolding key_name
get_or-key_name name i =
    get_or-padded (take 13 name) (14 - length (take 13 name)) i ∙ get_or-take 13 i name

length-key_name : (name : Name) → length (key_name name) ≡ 14
unfolding key_name
length-key_name name = omega (
  arith,
  length-append (take 13 name) (replicate (14 - length (take 13 name)) 0),
  length-replicate {A = ℕ} (14 - length (take 13 name)) 0,
  length-take 13 name,
)

cmp_dir_entries-get_or :
    (xs ys : Name) (i : ℕ) → cmp_dir_entries xs ys ≡ true → get_or xs i 0 ≡ get_or ys i 0
unfolding cmp_dir_entries
cmp_dir_entries-get_or [] [] i h = refl
cmp_dir_entries-get_or [] (y ∷ ys) i h = ground (arith, h)
cmp_dir_entries-get_or (x ∷ xs) [] i h = ground (arith, h)
cmp_dir_entries-get_or (x ∷ xs) (y ∷ ys) zero h = ground (arith, h)
cmp_dir_entries-get_or (x ∷ xs) (y ∷ ys) (suc i) h =
    cmp_dir_entries-get_or xs ys i (ground (arith, h))

cmp_dir_entries-same :
    (xs ys : Name)
    → length xs ≡ length ys
    → ((i : ℕ) → i < length xs → get_or xs i 0 ≡ get_or ys i 0)
    → cmp_dir_entries xs ys ≡ true
unfolding cmp_dir_entries
cmp_dir_entries-same [] [] n h = refl
cmp_dir_entries-same [] (y ∷ ys) n h = absurd (omega (arith, n))
cmp_dir_entries-same (x ∷ xs) [] n h = absurd (omega (arith, n))
cmp_dir_entries-same (x ∷ xs) (y ∷ ys) n h =
    let equal : x ≡ y = h 0 (omega arith) in
    let rest =
      cmp_dir_entries-same xs ys (omega (arith, n)) (λ i l. h (suc i) (omega (arith, l))) in
    ground (arith, equal, rest)

module _ (bytes : List ℕ) where
  -- The entries from entry `k` on.
  abbrev pub AreEntries : ℕ → List Direntv6 → Type 0
  AreEntries k [] = Unit {0}
  AreEntries k (e ∷ es) = IsEntry bytes k e × AreEntries (k + 1) es

  decode_dirent-IsEntry :
      (k : ℕ) (buf : Buffer)
      → 16 * k + 16 ≤ length bytes
      → 16 ≤ length buf
      → ((i : ℕ) → i < 16 → get_or bytes (16 * k + i) 0 ≡ get_or buf i 0)
      → IsEntry bytes k (decode_dirent buf)
  unfolding decode_dirent
  decode_dirent-IsEntry k buf h long at =
      let low = at 0 (omega arith) in
      let high = at 1 (omega arith) in
      let start : 16 * k + 0 ≡ 16 * k = omega arith in
      let low' = ap (λ n. get_or bytes n 0) (sym start) ∙ low in
      record {
        inside = h;
        has_inumber = omega (arith, low', high);
        has_length = omega (arith, long, length-take 14 (drop 2 buf), length-drop 2 buf);
        has_name = λ i l.
            get_or-take 14 i (drop 2 buf)
            ∙ ground (arith, l)
            ∙ get_or-drop 2 i buf
            ∙ sym (at (2 + i) (omega (arith, l)));
      }

  pub entries-AreEntries :
      (n k : ℕ) (buf : Buffer)
      → 16 * k + 16 * n ≤ length bytes
      → 16 * n ≤ length buf
      → ((i : ℕ) → i < 16 * n → get_or bytes (16 * k + i) 0 ≡ get_or buf i 0)
      → AreEntries k (entries n buf)
  unfolding entries
  entries-AreEntries zero k buf h long at = tt
  entries-AreEntries (suc n) k buf h long at = (
    decode_dirent-IsEntry k buf (omega (arith, h)) (omega (arith, long))
        (λ i l. at i (omega (arith, l))),
    entries-AreEntries n (k + 1) (drop 16 buf) (omega (arith, h))
        (omega (arith, long, length-drop 16 buf))
        (λ i l.
          let shift : 16 * (k + 1) + i ≡ 16 * k + (16 + i) = omega arith in
          ap (λ m. get_or bytes m 0) shift
          ∙ at (16 + i) (omega (arith, l))
          ∙ sym (get_or-drop 16 i buf)),
  )

  pub AreEntries-append :
      (k : ℕ) (es es' : List Direntv6)
      → AreEntries k es
      → AreEntries (k + length es) es'
      → AreEntries k (es ++ es')
  AreEntries-append k [] es' h h' = let start : k + 0 ≡ k = omega arith in rw (start) at h'
  AreEntries-append k (e ∷ es) es' h h' =
      let shift : k + suc (length es) ≡ k + 1 + length es = omega arith in
      (h.0, AreEntries-append (k + 1) es es' h.1 (rw (shift) at h'))

  same-IsNamed :
      (name : Name) (k : ℕ) (e : Direntv6)
      → IsEntry bytes k e
      → cmp_dir_entries (key_name name) e.d_name ≡ true
      → IsNamed bytes name k
  same-IsNamed name k e h same i l =
      sym (h.has_name i l)
      ∙ sym (cmp_dir_entries-get_or (key_name name) e.d_name i same)
      ∙ get_or-key_name name i

  not-IsNamed :
      (name : Name) (k : ℕ) (e : Direntv6)
      → IsEntry bytes k e
      → cmp_dir_entries (key_name name) e.d_name ≡ false
      → ¬ IsNamed bytes name k
  not-IsNamed name k e h differs is_named =
      let same =
        cmp_dir_entries-same (key_name name) e.d_name (length-key_name name ∙ sym h.has_length)
          (λ i l.
            let l' : i < 14 = omega (arith, l, length-key_name name) in
            get_or-key_name name i ∙ sym (is_named i l') ∙ sym (h.has_name i l')) in
      ground (arith, same, differs)

  pub lfind-Finds :
      (name : Name) (k : ℕ) (es : List Direntv6)
      → AreEntries k es
      → ((j : ℕ) → j < k → ¬ IsNamed bytes name j)
      → ((j : ℕ) → 16 * j + 16 ≤ length bytes → j < k + length es)
      → Finds bytes name (lfind (key_name name) es)
  unfolding lfind
  lfind-Finds name k [] h before all = nowhere (λ j l. before j (omega (arith, all j l)))
  lfind-Finds name k (e ∷ es) h before all =
      elim (Bool-cases (cmp_dir_entries (key_name name) e.d_name)) [
        | inl v ↦ rw (v) (first k e h.0 (same-IsNamed name k e h.0 v) before)
        | inr v ↦ rw (v) (
            lfind-Finds name (k + 1) es h.1
              (λ j l. elim (Bool-cases (j == k)) [
                | inl same ↦
                    let at : k ≡ j = ground (arith, same) in
                    subst (λ n. ¬ IsNamed bytes name n) at (not-IsNamed name k e h.0 v)
                | inr other ↦ before j (ground (arith, l, other))
              ])
              (λ j l. omega (arith, all j l)))
      ]

pub length-entries : (n : ℕ) (buf : Buffer) → length (entries n buf) ≡ n
unfolding entries
length-entries zero buf = refl
length-entries (suc n) buf = ap suc (length-entries n (drop 16 buf))

abbrev pub inumber_of : Option Direntv6 → Option ℕ
inumber_of none = none
inumber_of (some e) = some e.d_inumber

-- The entry that is found has one inode number.
pub Finds-inumber_of :
    (bytes : List ℕ) (name : Name) (o o' : Option Direntv6)
    → Finds bytes name o
    → Finds bytes name o'
    → inumber_of o ≡ inumber_of o'
Finds-inumber_of bytes name _ _ (nowhere h) (nowhere h') = refl
Finds-inumber_of bytes name _ _ (nowhere h) (first k e is has before) = absurd (h k is.inside has)
Finds-inumber_of bytes name _ _ (first k e is has before) (nowhere h) = absurd (h k is.inside has)
Finds-inumber_of bytes name _ _ (first k e is has before) (first k' e' is' has' before') =
    elim (Bool-cases (ltb k k')) [
      | inl less ↦ absurd (before' k (ground (arith, less)) has)
      | inr not_less ↦ elim (Bool-cases (ltb k' k)) [
        | inl less ↦ absurd (before k' (ground (arith, less)) has')
        | inr not_more ↦
            let same : k ≡ k' = ground (arith, not_less, not_more) in
            ap some (
              is.has_inumber
              ∙ ap (λ n. get_or bytes (16 * n) 0 + 256 * get_or bytes (16 * n + 1) 0) same
              ∙ sym is'.has_inumber)
      ]
    ]
