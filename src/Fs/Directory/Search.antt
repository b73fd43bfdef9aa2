-- ===== src/Fs/Directory/Search.antt =====
-- What the search of assign2/assign1/directory.c finds.
use cs.Prelude.{
  ℕ, zero, suc, ◌+◌, ◌-◌, ◌*◌, ◌/◌, ◌%◌, ◌<◌, ◌≤◌, ◌≡◌, refl, sym, ◌∙◌, ap, true, Option, none,
  some, List, [], ◌∷◌, ◌++◌, length, get_or, length-append, ◌⊎◌, ◌&&◌, Bool-cases, Option-cases,
  eq_of_some, inl, inr, arith,
}
use mathlib.Core.Option
use mathlib.Core.Path.{subst}
use cs.Fs.Disk.{Disk, Buffer, IsWhole}
use cs.Fs.Image.{Image, M, ◌>>=◌, ◌>>◌, guard}
use cs.Fs.Image.Computes.{Yields, IsFaithful, Computes, Computes-≡, Computes-then, Computes-when}
use cs.Fs.Inode.{Inode, UnixFilesystem, is_allocated, is_dir, inode_iget, inode_getsize}
use cs.Fs.Inode.BlockMap.{stored_inode, inode_iget-Computes}
use cs.Fs.File.{valid_bytes, num_blocks, file_getblock_optimized}
use cs.Fs.File.Blocks.{stored_block, file_getblock_optimized-Computes}
use cs.Fs.File.Contents.{
  byte_of, file_bytes, file_bytes-next_block, get_or-file_bytes, length-file_bytes,
  stored_block-IsLong,
}
use cs.Fs.Directory.Entries.{
  Finds, AreEntries, AreEntries-append, entries-AreEntries, length-entries, lfind-Finds,
}
use cs.Fs.Directory.{
  Name, Direntv6, entries, key_name, cmp_dir_entries, lfind, found_or, search_blocks,
  directory_findname_optimized, directory_findname, validate_directory_findname,
}

-- The entries of a directory's blocks on the disk, when all of the blocks can be read.
unfoldable pub stored_entries : Disk → Inode → (left b : ℕ) → Option (List Direntv6)
stored_entries d inp zero b = some []
stored_entries d inp (suc left) b = Option.bind (stored_block d inp b) (λ (valid, buf).
    Option.bind (stored_entries d inp left (b + 1))
      (λ rest. some (entries (valid / 16) buf ++ rest)))

module _ (d : Disk) (w : IsWhole d) (inp : Inode) (bytes : List ℕ)
    (all : file_bytes d inp (inode_getsize inp) 0 ≡ some bytes) where
  byte_in_block :
      (b v : ℕ) (buf : Buffer) (i : ℕ)
      → stored_block d inp b ≡ some (v, buf)
      → i < 512
      → b * 512 + i < inode_getsize inp
      → get_or bytes (b * 512 + i) 0 ≡ get_or buf i 0
  byte_in_block b v buf i got h inside =
      let p = b * 512 + i in
      let block : (0 + p) / 512 ≡ b = omega arith in
      let within : (0 + p) % 512 ≡ i = omega arith in
      eq_of_some (
        sym (get_or-file_bytes d inp (inode_getsize inp) 0 bytes p all inside)
        ∙ ap (λ k. byte_of (0 + p) (stored_block d inp k)) block
        ∙ ap (byte_of (0 + p)) got
        ∙ ap (λ k. some (get_or buf k 0)) within)

  block-AreEntries :
      (b v : ℕ) (buf : Buffer)
      → b * 512 < inode_getsize inp
      → stored_block d inp b ≡ some (v, buf)
      → AreEntries bytes (32 * b) (entries (v / 16) buf)
        × ((v ≡ 512) ⊎ ((v < 512) × (b * 512 + v ≡ inode_getsize inp)))
  unfolding valid_bytes
  block-AreEntries b v buf inside got =
      let (valid, long) = stored_block-IsLong d inp b v buf w got in
      let size = length-file_bytes d inp (inode_getsize inp) 0 bytes all in
      let fits : v ≤ 512 = ground (arith, valid) in
      let ends : b * 512 + v ≤ inode_getsize inp = ground (arith, valid, inside) in
      (
        entries-AreEntries bytes (v / 16) (32 * b) buf (omega (arith, size, ends))
            (omega (arith, long, fits))
            (λ i l.
              let shift : 16 * (32 * b) + i ≡ b * 512 + i = omega arith in
              ap (λ m. get_or bytes m 0) shift
              ∙ byte_in_block b v buf i got (omega (arith, l, fits)) (omega (arith, l, ends))),
        ground (arith, valid, inside),
      )

  stored_entries-none :
      (left b : ℕ) (es : List Direntv6) → left ≡ 0 → stored_entries d inp left b ≡ some es → es ≡ []
  unfolding stored_entries
  stored_entries-none left b es z e =
      sym (eq_of_some (ap (λ n. stored_entries d inp n b) (sym z) ∙ e))

  -- The blocks of a directory from block `b` on have its entries from entry `32 * b` on.
  stored_entries-AreEntries :
      (left b : ℕ) (rest : List ℕ)
      → left + b ≡ (inode_getsize inp + 511) / 512
      → file_bytes d inp (inode_getsize inp - b * 512) (b * 512) ≡ some rest
      → (es : List Direntv6) × (stored_entries d inp left b ≡ some es)
        × AreEntries bytes (32 * b) es
        × ((j : ℕ) → 16 * j + 16 ≤ length bytes → j < 32 * b + length es)
  unfolding stored_entries Option.bind
  stored_entries-AreEntries zero b rest blocks e =
      let size = length-file_bytes d inp (inode_getsize inp) 0 bytes all in
      ([], refl, tt, λ j l. omega (arith, l, blocks, size))
  stored_entries-AreEntries (suc left) b rest blocks e =
      let size = length-file_bytes d inp (inode_getsize inp) 0 bytes all in
      let inside : b * 512 < inode_getsize inp = omega (arith, blocks) in
      let (v, buf, rest', got, e', split) = file_bytes-next_block d inp b rest w inside e in
      let (here, last) = block-AreEntries b v buf inside got in
      let (es, stored, behind, covers) =
        stored_entries-AreEntries left (b + 1) rest' (omega (arith, blocks)) e' in
      let count = length-entries (v / 16) buf in
      let both = length-append (entries (v / 16) buf) es in
      let joined : AreEntries bytes (32 * b + length (entries (v / 16) buf)) es = elim last [
        | inl full ↦
            let next : 32 * (b + 1) ≡ 32 * b + length (entries (v / 16) buf) =
              omega (arith, count, full) in
            subst (λ k. AreEntries bytes k es) next behind
        | inr (less, short) ↦
            let none_left : left ≡ 0 = omega (arith, blocks, short, less) in
            subst (AreEntries bytes (32 * b + length (entries (v / 16) buf)))
              (sym (stored_entries-none left (b + 1) es none_left stored)) tt
      ] in
      (
        entries (v / 16) buf ++ es,
        rw (got, stored) refl,
        AreEntries-append bytes (32 * b) (entries (v / 16) buf) es here joined,
        λ j l. elim last [
          | inl full ↦ omega (arith, covers j l, count, both, full)
          | inr (less, short) ↦ omega (arith, l, size, short, count, both)
        ],
      )

  -- The entries of all the blocks, and the one among them that is found.
  pub stored_entries-Finds :
      (name : Name)
      → (es : List Direntv6) × (stored_entries d inp (num_blocks (inode_getsize inp)) 0 ≡ some es)
        × Finds bytes name (lfind (key_name name) es)
  unfolding num_blocks
  stored_entries-Finds name =
      let start : inode_getsize inp - 0 * 512 ≡ inode_getsize inp = omega arith in
      let (es, stored, are, covers) =
        stored_entries-AreEntries ((inode_getsize inp + 511) / 512) 0 bytes (omega arith)
          (ap (λ n. file_bytes d inp n 0) start ∙ all) in
      (
        es,
        stored,
        lfind-Finds bytes name 0 es are (λ j l. absurd (omega (arith, l)))
            (λ j l. omega (arith, covers j l)),
      )

-- The entry that `lfind` yields in the two parts of a list.
or_else : Option Direntv6 → Option Direntv6 → Option Direntv6
or_else none o = o
or_else (some e) o = some e

lfind-append :
    (key : Name) (es es' : List Direntv6)
    → lfind key (es ++ es') ≡ or_else (lfind key es) (lfind key es')
unfolding lfind or_else
lfind-append key [] es' = refl
lfind-append key (e ∷ es) es' = elim (Bool-cases (cmp_dir_entries key e.d_name)) [
  | inl v ↦ rw (v) refl
  | inr v ↦ rw (v) (lfind-append key es es')
]

module _ (fs : UnixFilesystem) (w : IsWhole fs.dfd) (key : Name) (at : ℕ) (inp : Inode) where
  found_or-Computes :
      (o : Option Direntv6) (rest : M Direntv6) (r : Option Direntv6)
      → Computes fs.dfd rest r
      → Computes fs.dfd (found_or fs key at inp o rest) (or_else o r)
  unfolding or_else
  found_or-Computes none rest r h st i = h st i
  found_or-Computes (some e) rest r h st i = (refl, i)

  stored_entries-rest :
      (left b valid : ℕ) (buf : Buffer) (es : List Direntv6)
      → stored_block fs.dfd inp b ≡ some (valid, buf)
      → stored_entries fs.dfd inp (suc left) b ≡ some es
      → (rest : List Direntv6) × (stored_entries fs.dfd inp left (b + 1) ≡ some rest)
        × (es ≡ entries (valid / 16) buf ++ rest)
  unfolding stored_entries Option.bind
  stored_entries-rest left b valid buf es got e =
      elim (Option-cases (stored_entries fs.dfd inp left (b + 1))) [
        | inl n ↦ ground (arith, got, n, e)
        | inr (rest, s) ↦ (rest, s, sym (eq_of_some (rw (got, s) at e)))
      ]

  search_blocks-Computes :
      (left b : ℕ) (es : List Direntv6)
      → stored_entries fs.dfd inp left b ≡ some es
      → Computes fs.dfd (search_blocks fs key at inp left b) (lfind key es)
  unfolding search_blocks stored_entries lfind Option.bind
  search_blocks-Computes zero b es e st h = (ground arith, h)
  search_blocks-Computes (suc left) b es e st h =
      Computes-then fs.dfd (file_getblock_optimized fs b at inp true) (stored_block fs.dfd inp b)
        (λ (valid, buf).
          found_or fs key at inp (lfind key (entries (valid / 16) buf))
            (search_blocks fs key at inp left (b + 1)))
        (lfind key es) (file_getblock_optimized-Computes fs w at inp b)
        (λ (valid, buf) got.
          let (rest, e', split) = stored_entries-rest left b valid buf es got e in
          Computes-≡ fs.dfd
            (found_or fs key at inp (lfind key (entries (valid / 16) buf))
              (search_blocks fs key at inp left (b + 1)))
            _ (lfind key es)
            (found_or-Computes (lfind key (entries (valid / 16) buf))
              (search_blocks fs key at inp left (b + 1)) (lfind key rest)
              (search_blocks-Computes left (b + 1) rest e'))
            (sym (ap (lfind key) split ∙ lfind-append key (entries (valid / 16) buf) rest)))
        (λ got. ground (arith, got, e)) st h

module _ (fs : UnixFilesystem) (w : IsWhole fs.dfd) (at : ℕ) where
  directory_findname_optimized-lfind :
      (inp : Inode) (name : Name) (es : List Direntv6)
      → (is_allocated inp && is_dir inp) ≡ true
      → stored_entries fs.dfd inp (num_blocks (inode_getsize inp)) 0 ≡ some es
      → (st : Image) → IsFaithful fs.dfd st
      → Yields fs.dfd
          (directory_findname_optimized fs name at inp true st)
          (lfind (key_name name) es)
  unfolding directory_findname_optimized
  directory_findname_optimized-lfind inp name es v e =
      Computes-when fs.dfd (is_allocated inp && is_dir inp)
        (search_blocks fs (key_name name) at inp (num_blocks (inode_getsize inp)) 0)
        (lfind (key_name name) es)
        (λ _.
          search_blocks-Computes fs w (key_name name) at inp (num_blocks (inode_getsize inp)) 0 es
            e)
        (λ n. ground (arith, n, v))

  abbrev opened : Name → Inode → M Direntv6
  opened name dirin =
      guard (is_allocated dirin && is_dir dirin)
      >> search_blocks fs (key_name name) at dirin (num_blocks (inode_getsize dirin)) 0

  pub directory_findname-lfind :
      (dirinumber : ℕ) (inp : Inode) (name : Name) (es : List Direntv6)
      → stored_inode fs dirinumber ≡ some inp
      → (is_allocated inp && is_dir inp) ≡ true
      → stored_entries fs.dfd inp (num_blocks (inode_getsize inp)) 0 ≡ some es
      → (st : Image) → IsFaithful fs.dfd st
      → Yields fs.dfd (directory_findname fs name dirinumber at st) (lfind (key_name name) es)
  unfolding directory_findname directory_findname_optimized
  directory_findname-lfind dirinumber inp name es s v e =
      Computes-when fs.dfd (validate_directory_findname fs dirinumber)
        (inode_iget fs dirinumber >>= opened name) (lfind (key_name name) es)
        (λ _.
          Computes-then fs.dfd (inode_iget fs dirinumber) (some inp) (opened name)
            (lfind (key_name name) es)
            (Computes-≡ fs.dfd (inode_iget fs dirinumber) _ (some inp)
              (inode_iget-Computes fs w dirinumber) s)
            (λ inp' same.
              rw (← eq_of_some same) (directory_findname_optimized-lfind inp name es v e))
            (λ n. ground (arith, n)))
        (λ n. ground (arith, n, s))

  -- What a call found, when it is the entry that `lfind` yields.
  found :
      (m : M Direntv6) (bytes : List ℕ) (name : Name) (es : List Direntv6) (st : Image)
      → Finds bytes name (lfind (key_name name) es)
      → Yields fs.dfd (m st) (lfind (key_name name) es)
      → Finds bytes name (m st).0 × IsFaithful fs.dfd (m st).1
  found m bytes name es st h (e, kept) = (subst (Finds bytes name) (sym e) h, kept)

  -- On a disk whose readable sectors are whole, with a faithful cache, and leaving it faithful: where
  -- all the bytes of an allocated directory can be read, `directory_findname_optimized` with its valid
  -- inode yields the first of the entries of 16 bytes in these bytes that has the first 13 bytes of the
  -- name, filled up with zeros to 14, and fails when none has.
  pub directory_findname_optimized-Computes :
      (inp : Inode) (name : Name) (bytes : List ℕ)
      → (is_allocated inp && is_dir inp) ≡ true
      → file_bytes fs.dfd inp (inode_getsize inp) 0 ≡ some bytes
      → (st : Image) → IsFaithful fs.dfd st
      → (let r = directory_findname_optimized fs name at inp true st in
          Finds bytes name r.0 × IsFaithful fs.dfd r.1)
  directory_findname_optimized-Computes inp name bytes v all st h =
      let (es, e, finds) = stored_entries-Finds fs.dfd w inp bytes all name in
      found (directory_findname_optimized fs name at inp true) bytes name es st finds
        (directory_findname_optimized-lfind inp name es v e st h)

  -- On a disk whose readable sectors are whole, with a faithful cache, and leaving it faithful: where
  -- the inode is on the disk, is an allocated directory, and all the bytes of the directory can be read,
  -- `directory_findname` yields the first of the entries of 16 bytes in these bytes that has the first
  -- 13 bytes of the name, filled up with zeros to 14, with the inode number before its name, and fails
  -- when none has. A name of 14 bytes on the disk, with no zero, is thus never found.
  pub directory_findname-Computes :
      (dirinumber : ℕ) (inp : Inode) (name : Name) (bytes : List ℕ)
      → stored_inode fs dirinumber ≡ some inp
      → (is_allocated inp && is_dir inp) ≡ true
      → file_bytes fs.dfd inp (inode_getsize inp) 0 ≡ some bytes
      → (st : Image) → IsFaithful fs.dfd st
      → (let r = directory_findname fs name dirinumber at st in
          Finds bytes name r.0 × IsFaithful fs.dfd r.1)
  directory_findname-Computes dirinumber inp name bytes s v all st h =
      let (es, e, finds) = stored_entries-Finds fs.dfd w inp bytes all name in
      found (directory_findname fs name dirinumber at) bytes name es st finds
        (directory_findname-lfind dirinumber inp name es s v e st h)
