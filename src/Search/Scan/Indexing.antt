-- ===== src/Search/Scan/Indexing.antt =====
-- What Scan_File of assign2/scan.c makes of a file and the index.
use cs.Prelude.{
  ℕ, ◌+◌, ◌-◌, ◌<◌, ◌≤◌, ◌≡◌, refl, sym, ap, ◌∙◌, Bool, true, none, some, List, [], ◌∷◌, length,
  Bool-cases, inl, inr, arith, length-set,
}
use mathlib.Core.Path.{subst}
use cs.Fs.Disk.{IsWhole}
use cs.Fs.Image.Computes.{IsFaithful}
use cs.Fs.Inode.{Inode, UnixFilesystem, is_allocated, inode_getsize}
use cs.Fs.Directory.{Name}
use cs.Fs.Checksum.{Sha}
use cs.Fs.Fileops.{
  OpenFile, Files, slot, set_slot, is_free, find_slot, opened_file, optimized_fileops_open,
  fileops_tell, fileops_close,
}
use cs.Fs.Fileops.Prefetch.{IsWindow}
use cs.Fs.Fileops.Bytes.{IsReading}
use cs.Fs.File.Contents.{file_bytes}
use cs.Fs.Fileops.Stream.{IsStream, fileops_getchar-IsStream}
use cs.Fs.Fileops.Table.{find_slot-free, get_or-set_self}
use cs.Fs.Fileops.Open.{set-is_free}
use cs.Search.Outcome.{Outcome, done}
use cs.Search.Index.{Text, Lhash, Index, IndexLocation}
use cs.Search.Index.Refinement.{IsLhash, Implements}
use cs.Search.Index.Session.{store_all, newest, store_all-Implements}
use cs.Search.Words.{words}
use cs.Search.Pathstore.{Pathstore, pathstore_path}
use cs.Search.Scan.{Scanner, count_char, next_char, scan_open, scan_file}
use cs.Search.Scan.Loops.{head, IsAt, occurrences, scan_words-IsScanned}

-- A file that was closed is not open.
fileops_close-tell : (fd : ℕ) (st : Files) → fileops_tell fd (fileops_close fd st).1 ≡ none
unfolding fileops_tell fileops_close
fileops_close-tell fd st = elim (Bool-cases (is_free (slot st fd))) [
  | inl free ↦ rw (free) (rw (free) refl)
  | inr taken ↦
      let closed = set-is_free st.table fd (record (slot st fd) { pathname = none }) refl in
      rw (taken) (rw (closed) refl)
]

module _ (fs : UnixFilesystem) (w : IsWhole fs.dfd) (at : ℕ → ℕ) where
  -- A slot that is taken can be read from its first byte on.
  opened-IsReading :
      (pathname : Name) (inumber : ℕ) (inode : Inode) (inp fd : ℕ) (st : Files)
      → IsFaithful fs.dfd st.image
      → length (slot st fd).content ≡ 1
      → fd < length st.table
      → is_allocated inode ≡ true
      → IsReading fs w at fd (set_slot st fd (opened_file pathname inumber inode inp (slot st fd)))
  opened-IsReading pathname inumber inode inp fd st h one low used =
      let f : OpenFile = opened_file pathname inumber inode inp (slot st fd) in
      let self = get_or-set_self st.table fd f low in
      record {
        in_table = rw (length-set st.table fd f) low;
        is_open = ap is_free self;
        is_in_use = ap {A = OpenFile} (λ g. is_allocated g.inode) self ∙ used;
        has_inode = ap {A = OpenFile} (λ g. g.inode_iget_ok) self;
        window = subst (IsWindow fs.dfd) (sym self) (one, inl refl);
        faithful = h;
      }

  opened-IsStream :
      (pathname : Name) (inumber : ℕ) (inode : Inode) (inp fd : ℕ) (st : Files) (bs : List ℕ)
      → IsFaithful fs.dfd st.image
      → length (slot st fd).content ≡ 1
      → fd < length st.table
      → is_allocated inode ≡ true
      → file_bytes fs.dfd inode (inode_getsize inode) 0 ≡ some bs
      → (last : Files) × IsStream fs at fd bs 0
          (set_slot st fd (opened_file pathname inumber inode inp (slot st fd)))
          last
  opened-IsStream pathname inumber inode inp fd st bs h one low used got =
      let f : OpenFile = opened_file pathname inumber inode inp (slot st fd) in
      let self = get_or-set_self st.table fd f low in
      let all : file_bytes fs.dfd inode (inode_getsize inode - 0) 0 ≡ some bs =
        ap (λ n. file_bytes fs.dfd inode n 0) (omega arith) ∙ got in
      let (last, stream) =
        fileops_getchar-IsStream fs w at fd (set_slot st fd f) bs
          (opened-IsReading pathname inumber inode inp fd st h one low used)
          (subst
            (λ g. file_bytes fs.dfd g.inode (inode_getsize g.inode - g.cursor) g.cursor ≡ some bs)
            (sym self) all) in
      (
        last,
        subst (λ p. IsStream fs at fd bs p (set_slot st fd f) last)
            (ap {A = OpenFile} (λ g. g.cursor) self) stream,
      )

optimized_fileops_open-some :
    (pathname : Name) (inumber : ℕ) (inode : Inode) (inp fd : ℕ) (files : Files)
    → find_slot files.table ≡ some fd
    → (let st : Files = record files { num_opens = files.num_opens + 1 } in
        optimized_fileops_open pathname (some inumber) inode inp true files
        ≡ (some fd, set_slot st fd (opened_file pathname inumber inode inp (slot st fd))))
unfolding optimized_fileops_open
optimized_fileops_open-some pathname inumber inode inp fd files free = rw (free) refl

module _ {Table : Type 0} (lh : Lhash Table) (allocated : Index Table → Bool) (fs : UnixFilesystem)
    (at : ℕ → ℕ) where
  next_char-first :
      (fd : ℕ) (bs : List ℕ) (s : Scanner Table) (last : Files)
      → IsStream fs at fd bs 0 s.files last
      → (files : Files) × (next_char lh allocated fs at fd s
          ≡ done (head bs, record s { files = files }))
        × IsAt lh allocated fs at fd last bs 0 files
  next_char-first fd [] s last h = (last, rw (h) refl, refl)
  next_char-first fd (b ∷ bs) s last (next, got, tell, stream) =
      (next, rw (got) refl, (tell, stream))

  -- The file is closed and the words are stored.
  abbrev pub IsIndexed : (fd : ℕ) → Index Table → Outcome (Scanner Table) → Type 0
  IsIndexed fd ind r =
      (s' : Scanner Table) × (r ≡ done s') × (fileops_tell fd s'.files ≡ none) × (s'.ind ≡ ind)

  scan_open-IsIndexed :
      (fuel fd : ℕ) (pathname : Name) (bs : List ℕ) (s : Scanner Table) (last : Files)
      (ind : Index Table)
      → IsStream fs at fd bs 0 s.files last
      → length bs ≤ fuel
      → store_all lh allocated (occurrences pathname (words 0 bs)) s.ind ≡ some ind
      → IsIndexed fd ind (scan_open lh allocated fs at fuel fd pathname s)
  unfolding scan_open
  scan_open-IsIndexed fuel fd pathname bs s last ind stream enough e =
      let (files, read, first) = next_char-first fd bs s last stream in
      let s1 : Scanner Table = count_char lh allocated fs at (record s { files = files }) in
      let (s2, scanned, kept, stored) =
        scan_words-IsScanned lh allocated fs at fd last fuel pathname bs 0 s1 ind enough first e in
      (
        record s2 { files = (fileops_close fd s2.files).1 },
        rw (read, scanned) refl,
        fileops_close-tell fd s2.files,
        stored,
      )

module _ {Table : Type 0} (lh : Lhash Table) (laws : IsLhash lh) (allocated : Index Table → Bool)
    (fs : UnixFilesystem) (w : IsWhole fs.dfd) (at : ℕ → ℕ) where
  -- The words of the file's bytes are put into the function that the index implements.
  abbrev pub IsPut :
      (fd : ℕ)
      → Name
      → List ℕ
      → (Text → List IndexLocation)
      → Outcome (Bool × Scanner Table)
      → Type 0
  IsPut fd pathname bs f r =
      (s' : Scanner Table) × (r ≡ done (true, s'))
      × (fileops_tell fd s'.files ≡ none)
      × Implements lh laws s'.ind (newest (occurrences pathname (words 0 bs)) f)

  -- On a disk whose readable sectors are whole, and with a hash table that does what OpenSSL documents:
  -- where `Pathstore_path` keeps the path name and leaves a faithful cache and a free slot with room for
  -- one block, where the inode is in use, the bytes of the file can all be read, their number is at most
  -- the fuel and all the stores return true, `Scan_File` returns 0, its descriptor is closed, and an
  -- index that implements a function then implements the one with the file's words put in at the
  -- positions after their first letters, the last word first.
  pub scan_file-IsPut :
      {Context : Type 0} (sha : Sha Context) (local1 local2 fuel : ℕ) (element_allocated : Bool)
      (garbage : List ℕ) (inpathname pathname : Name) (discard : Bool) (inumber : ℕ) (inode : Inode)
      (inp fd : ℕ) (s : Scanner Table) (files : Files) (store : Pathstore) (bs : List ℕ)
      (ind : Index Table) (f : Text → List IndexLocation)
      → pathstore_path fs at local1 local2 fuel sha element_allocated garbage inpathname discard inp
          inode true
          (s.files, s.store)
        ≡ done (some pathname, (files, store))
      → IsFaithful fs.dfd files.image
      → find_slot files.table ≡ some fd
      → length (slot files fd).content ≡ 1
      → is_allocated inode ≡ true
      → file_bytes fs.dfd inode (inode_getsize inode) 0 ≡ some bs
      → length bs ≤ fuel
      → store_all lh allocated (occurrences pathname (words 0 bs)) s.ind ≡ some ind
      → Implements lh laws s.ind f
      → IsPut fd pathname bs f (
          scan_file lh allocated fs at sha local1 local2 fuel element_allocated garbage inpathname
            discard inumber inode inp true s)
  unfolding scan_file
  scan_file-IsPut sha local1 local2 fuel element_allocated garbage inpathname pathname discard
        inumber inode inp fd s files store bs ind f kept h free one used got enough e is =
      let (low, empty) = find_slot-free files.table fd free in
      let st : Files = record files { num_opens = files.num_opens + 1 } in
      let g : OpenFile = opened_file pathname inumber inode inp (slot files fd) in
      let s1 : Scanner Table = record s {
        files = set_slot st fd g;
        store = store;
        num_files = s.num_files + 1;
      } in
      let (last, stream) =
        opened-IsStream fs w at pathname inumber inode inp fd st bs h one low used got in
      let (s2, scanned, closed, stored) =
        scan_open-IsIndexed lh allocated fs at fuel fd pathname bs s1 last ind stream enough e in
      (
        s2,
        rw (kept, optimized_fileops_open-some pathname inumber inode inp fd files free, scanned)
            refl,
        closed,
        subst (λ i. Implements lh laws i (newest (occurrences pathname (words 0 bs)) f))
            (sym stored)
            (store_all-Implements lh allocated laws (occurrences pathname (words 0 bs)) s.ind ind f
              e is),
      )
