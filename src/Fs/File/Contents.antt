-- ===== src/Fs/File/Contents.antt =====
-- The bytes of a file on the disk, and the blocks that assign2/assign1/file.c has of it.
use cs.Prelude.{
  ℕ, zero, suc, ◌+◌, ◌-◌, ◌*◌, ◌/◌, ◌%◌, ◌<◌, ◌≤◌, ◌≡◌, refl, sym, ◌∙◌, ap, Option, none, some,
  List, [], ◌∷◌, ◌++◌, length, take, drop, get_or, length-append, Option-cases, ◌⊎◌, inl, inr,
  eq_of_some, arith,
}
use mathlib.Core.Path.{subst}
use mathlib.Core.Option
use cs.Fs.Disk.{Disk, Buffer, IsWhole, disksim_readsector}
use cs.Fs.Image.Computes.{content}
use cs.Fs.Inode.{Inode, inode_getsize}
use cs.Fs.File.{valid_bytes}
use cs.Fs.File.Blocks.{stored_block}
use cs.Fs.Inode.BlockMap.{block_address}

abbrev pub byte_of : ℕ → Option (ℕ × Buffer) → Option ℕ
byte_of p none = none
byte_of p (some (v, buf)) = some (get_or buf (p % 512) 0)

-- The byte at a position of a file on the disk.
abbrev pub file_byte : Disk → Inode → ℕ → Option ℕ
file_byte d inode p = byte_of p (stored_block d inode (p / 512))

abbrev pub cons_byte : Option ℕ → Option (List ℕ) → Option (List ℕ)
cons_byte none o = none
cons_byte (some b) none = none
cons_byte (some b) (some bs) = some (b ∷ bs)

-- So many bytes of a file on the disk from a position on, if they can all be read.
unfoldable pub file_bytes : Disk → Inode → (left p : ℕ) → Option (List ℕ)
file_bytes d inode zero p = some []
file_bytes d inode (suc left) p = cons_byte (file_byte d inode p) (file_bytes d inode left (p + 1))

cons_byte-some :
    (o : Option ℕ) (q : Option (List ℕ)) (bs : List ℕ)
    → cons_byte o q ≡ some bs
    → (b : ℕ) × (bs' : List ℕ) × (o ≡ some b) × (q ≡ some bs') × (bs ≡ b ∷ bs')
cons_byte-some none q bs e = ground (arith, e)
cons_byte-some (some b) none bs e = ground (arith, e)
cons_byte-some (some b) (some bs') bs e = (b, bs', refl, refl, sym (eq_of_some e))

pub file_bytes-nil :
    (d : Disk) (inode : Inode) (left p : ℕ) → file_bytes d inode left p ≡ some [] → left ≡ 0
unfolding file_bytes
file_bytes-nil d inode zero p e = refl
file_bytes-nil d inode (suc left) p e =
    let (b, bs', first, rest, all) =
      cons_byte-some (file_byte d inode p) (file_bytes d inode left (p + 1)) [] e in
    ground (arith, all)

pub file_bytes-cons :
    (d : Disk) (inode : Inode) (left p b : ℕ) (bs : List ℕ)
    → file_bytes d inode left p ≡ some (b ∷ bs)
    → (k : ℕ) × (left ≡ suc k)
      × (file_byte d inode p ≡ some b)
      × (file_bytes d inode k (p + 1) ≡ some bs)
unfolding file_bytes
file_bytes-cons d inode zero p b bs e = ground (arith, e)
file_bytes-cons d inode (suc left) p b bs e =
    let (b', bs', first, rest, all) =
      cons_byte-some (file_byte d inode p) (file_bytes d inode left (p + 1)) (b ∷ bs) e in
    (left, refl, ground (arith, first, all), ground (arith, rest, all))

pub byte_of-some :
    (p : ℕ) (o : Option (ℕ × Buffer)) (b : ℕ)
    → byte_of p o ≡ some b
    → (v : ℕ) × (buf : Buffer) × (o ≡ some (v, buf)) × (get_or buf (p % 512) 0 ≡ b)
byte_of-some p none b e = ground (arith, e)
byte_of-some p (some (v, buf)) b e = (v, buf, refl, eq_of_some e)

pub file_bytes-none :
    (d : Disk) (inode : Inode) (left p : ℕ) (bs : List ℕ)
    → left ≡ 0
    → file_bytes d inode left p ≡ some bs
    → some [] ≡ some bs
unfolding file_bytes
file_bytes-none d inode left p bs z e = ap (λ n. file_bytes d inode n p) (sym z) ∙ e

pub length-file_bytes :
    (d : Disk) (inode : Inode) (left p : ℕ) (bs : List ℕ)
    → file_bytes d inode left p ≡ some bs
    → length bs ≡ left
unfolding file_bytes
length-file_bytes d inode zero p bs e = sym (ap length (eq_of_some e))
length-file_bytes d inode (suc left) p bs e =
    let (b, bs', first, rest, all) =
      cons_byte-some (file_byte d inode p) (file_bytes d inode left (p + 1)) bs e in
    ap length all ∙ ap suc (length-file_bytes d inode left (p + 1) bs' rest)

pub get_or-file_bytes :
    (d : Disk) (inode : Inode) (left p : ℕ) (bs : List ℕ) (i : ℕ)
    → file_bytes d inode left p ≡ some bs
    → i < left
    → file_byte d inode (p + i) ≡ some (get_or bs i 0)
unfolding file_bytes
get_or-file_bytes d inode zero p bs i e h = absurd (omega (arith, h))
get_or-file_bytes d inode (suc left) p bs zero e h =
    let (b, bs', first, rest, all) =
      cons_byte-some (file_byte d inode p) (file_bytes d inode left (p + 1)) bs e in
    ap (file_byte d inode) (omega arith) ∙ first ∙ ap some (sym (ap (λ l. get_or l 0 0) all))
get_or-file_bytes d inode (suc left) p bs (suc i) e h =
    let (b, bs', first, rest, all) =
      cons_byte-some (file_byte d inode p) (file_bytes d inode left (p + 1)) bs e in
    ap (file_byte d inode) (omega arith)
    ∙ get_or-file_bytes d inode left (p + 1) bs' i rest (omega arith)
    ∙ ap some (sym (ap (λ l. get_or l (suc i) 0) all))

take-drop-suc :
    (buf : Buffer) (j m : ℕ)
    → j < length buf
    → take (suc m) (drop j buf) ≡ get_or buf j 0 ∷ take m (drop (suc j) buf)
take-drop-suc [] j m h = absurd (omega (arith, h))
take-drop-suc (c ∷ buf) zero m h = refl
take-drop-suc (c ∷ buf) (suc j) m h = take-drop-suc buf j m (omega arith)

-- The bytes within a block, from its byte `j` on.
pub file_bytes-block :
    (d : Disk) (inode : Inode) (m left b j v : ℕ) (buf : Buffer) (bs : List ℕ)
    → stored_block d inode b ≡ some (v, buf)
    → 512 ≤ length buf
    → j + m ≤ 512
    → file_bytes d inode (m + left) (b * 512 + j) ≡ some bs
    → (rest : List ℕ) × (file_bytes d inode left (b * 512 + (j + m)) ≡ some rest)
      × (bs ≡ take m (drop j buf) ++ rest)
unfolding file_bytes
file_bytes-block d inode zero left b j v buf bs got long h e =
    let none_read : 0 + left ≡ left = omega arith in
    let same : j + 0 ≡ j = omega arith in
    (
      bs,
      ap (λ k. file_bytes d inode left (b * 512 + k)) same
          ∙ ap (λ n. file_bytes d inode n (b * 512 + j)) (sym none_read)
          ∙ e,
      refl,
    )
file_bytes-block d inode (suc m) left b j v buf bs got long h e =
    let p = b * 512 + j in
    let more : suc m + left ≡ suc (m + left) = omega arith in
    let (c, bs', first, rest, all) =
      cons_byte-some (file_byte d inode p) (file_bytes d inode (m + left) (p + 1)) bs
        (ap (λ n. file_bytes d inode n p) (sym more) ∙ e) in
    let next : p + 1 ≡ b * 512 + suc j = omega arith in
    let (rest', e', split) =
      file_bytes-block d inode m left b (suc j) v buf bs' got long (omega arith)
        (ap (file_bytes d inode (m + left)) (sym next) ∙ rest) in
    let block : p / 512 ≡ b = omega arith in
    let within : p % 512 ≡ j = omega arith in
    let here : file_byte d inode p ≡ some (get_or buf j 0) =
      ap (λ k. byte_of p (stored_block d inode k)) block
      ∙ ap (byte_of p) got
      ∙ ap (λ k. some (get_or buf k 0)) within in
    let shift : j + suc m ≡ suc j + m = omega arith in
    let c_is : c ≡ get_or buf j 0 = eq_of_some (sym first ∙ here) in
    (
      rest',
      ap (λ k. file_bytes d inode left (b * 512 + k)) shift ∙ e',
      all
          ∙ ap (λ k. k ∷ bs') c_is
          ∙ ap (λ l. get_or buf j 0 ∷ l) split
          ∙ ap (λ l. l ++ rest') (sym (take-drop-suc buf j m (omega (arith, long)))),
    )

length-content :
    (d : Disk) (s : ℕ) (buf : Buffer) → IsWhole d → content d s ≡ some buf → 512 ≤ length buf
unfolding disksim_readsector
length-content d s buf w e = elim (Option-cases (d.read s)) [
  | inl n ↦ ground (arith, n, e)
  | inr (bytes, g) ↦
      let whole = w s bytes g in
      let all : bytes ++ drop (length bytes) (d.stale s) ≡ buf = eq_of_some (rw (g) at e) in
      omega (arith, whole, ap length all, length-append bytes (drop (length bytes) (d.stale s)))
]

pub stored_block-IsLong :
    (d : Disk) (inode : Inode) (b v : ℕ) (buf : Buffer)
    → IsWhole d
    → stored_block d inode b ≡ some (v, buf)
    → (v ≡ valid_bytes (inode_getsize inode) b) × (512 ≤ length buf)
unfolding Option.bind
stored_block-IsLong d inode b v buf w e = elim (Option-cases (block_address d inode b)) [
  | inl n ↦ ground (arith, n, e)
  | inr (s, g) ↦ elim (Option-cases (content d s)) [
    | inl n ↦ ground (arith, n, g, e)
    | inr (buf', c) ↦
        let same : some (valid_bytes (inode_getsize inode) b, buf') ≡ some (v, buf) =
          rw (g, c) at e in
        let pair = eq_of_some same in
        (
          sym (ap {A = ℕ × Buffer} (λ r. r.0) pair),
          subst (λ l. 512 ≤ length l) (ap {A = ℕ × Buffer} (λ r. r.1) pair)
              (length-content d s buf' w c),
        )
  ]
]

file_bytes-stored :
    (d : Disk) (inode : Inode) (n p : ℕ) (bs : List ℕ)
    → 0 < n
    → file_bytes d inode n p ≡ some bs
    → (v : ℕ) × (buf : Buffer) × (stored_block d inode (p / 512) ≡ some (v, buf))
unfolding file_bytes
file_bytes-stored d inode zero p bs h e = absurd (omega (arith, h))
file_bytes-stored d inode (suc n) p bs h e =
    let (c, bs', first, rest, all) =
      cons_byte-some (file_byte d inode p) (file_bytes d inode n (p + 1)) bs e in
    let (v, buf, got, at) = byte_of-some p (stored_block d inode (p / 512)) c first in (v, buf, got)

-- Past the last byte the position does not matter.
file_bytes-past :
    (d : Disk) (inode : Inode) (n n' p p' : ℕ) (bs : List ℕ)
    → n ≡ n'
    → (n ≡ 0) ⊎ (p ≡ p')
    → file_bytes d inode n p ≡ some bs
    → file_bytes d inode n' p' ≡ some bs
unfolding file_bytes
file_bytes-past d inode n n' p p' bs same (inl z) e =
    ap (λ k. file_bytes d inode k p') (sym same ∙ z) ∙ ap (λ k. file_bytes d inode k p) (sym z) ∙ e
file_bytes-past d inode n n' p p' bs same (inr q) e =
    ap (λ k. file_bytes d inode k p') (sym same) ∙ ap (file_bytes d inode n) (sym q) ∙ e

-- The rest of a file from a block's first byte on is the valid bytes of that block and the rest of the
-- file from the next block on.
pub file_bytes-next_block :
    (d : Disk) (inode : Inode) (b : ℕ) (bs : List ℕ)
    → IsWhole d
    → b * 512 < inode_getsize inode
    → file_bytes d inode (inode_getsize inode - b * 512) (b * 512) ≡ some bs
    → (v : ℕ) × (buf : Buffer) × (rest : List ℕ) × (stored_block d inode b ≡ some (v, buf))
      × (file_bytes d inode (inode_getsize inode - (b + 1) * 512) ((b + 1) * 512) ≡ some rest)
      × (bs ≡ take v buf ++ rest)
unfolding valid_bytes
file_bytes-next_block d inode b bs w inside e =
    let size = inode_getsize inode in
    let (v, buf, got) = file_bytes-stored d inode (size - b * 512) (b * 512) bs (omega arith) e in
    let here : b * 512 / 512 ≡ b = omega arith in
    let got' = ap (stored_block d inode) (sym here) ∙ got in
    let (valid, long) = stored_block-IsLong d inode b v buf w got' in
    let fits : 0 + v ≤ 512 = ground (arith, valid) in
    let left : size - b * 512 ≡ v + (size - (b + 1) * 512) = ground (arith, valid, inside) in
    let start : b * 512 + 0 ≡ b * 512 = omega arith in
    let (rest, e', split) =
      file_bytes-block d inode v (size - (b + 1) * 512) b 0 v buf bs got' long fits (
        ap (λ k. file_bytes d inode (v + (size - (b + 1) * 512)) k) start
        ∙ ap (λ n. file_bytes d inode n (b * 512)) (sym left)
        ∙ e) in
    let ends : (size - (b + 1) * 512 ≡ 0) ⊎ (b * 512 + (0 + v) ≡ (b + 1) * 512) =
      ground (arith, valid, inside) in
    (
      v,
      buf,
      rest,
      got',
      file_bytes-past d inode (size - (b + 1) * 512) _ (b * 512 + (0 + v)) ((b + 1) * 512) rest refl
          ends e',
      split,
    )
