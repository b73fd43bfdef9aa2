-- ===== src/Search/Scan/Positions.antt =====
-- The positions that the index of assign2/index.c gives after Scan_File of assign2/scan.c.
use cs.Prelude.{
  ℕ, ◌+◌, ◌≡◌, ◌≤◌, refl, sym, ap, Bool, true, some, List, [], ◌∷◌, length, take, drop, Bool-cases,
  inl, inr, arith, All, if◌then◌else◌, same_text, same_text_iff,
}
use mathlib.Core.Path.{subst}
use cs.Fs.Disk.{IsWhole}
use cs.Fs.Image.Computes.{IsFaithful}
use cs.Fs.Inode.{Inode, UnixFilesystem, is_allocated, inode_getsize}
use cs.Fs.Directory.{Name}
use cs.Fs.Checksum.{Sha}
use cs.Fs.Fileops.{Files, slot, find_slot}
use cs.Fs.File.Contents.{file_bytes}
use cs.Search.Outcome.{Outcome, done}
use cs.Search.Index.{Text, Lhash, Index, IndexLocation, index_retrieve_entry}
use cs.Search.Index.Refinement.{IsLhash, Implements, index_retrieve_entry-Implements}
use cs.Search.Index.Session.{store_all, newest}
use cs.Search.Words.{words}
use cs.Search.Words.Positions.{IsWordAt, words-AreWordsAt}
use cs.Search.Pathstore.{Pathstore, pathstore_path}
use cs.Search.Scan.{Scanner, scan_file}
use cs.Search.Scan.Loops.{occurrences}
use cs.Search.Scan.Indexing.{scan_file-IsPut}

-- The location is in the file, and the word stands in the file's bytes one place before its offset.
abbrev pub IsPlace : Name → (bs : List ℕ) → (k : Text) → IndexLocation → Type 0
IsPlace pathname bs k l =
    (n : ℕ) × (l.pathname ≡ pathname)
    × (l.offset ≡ some (n + 1))
    × (take (length k) (drop n bs) ≡ k)

newest-places :
    (pathname : Name) (bs : List ℕ) (ws : List (List ℕ × ℕ)) (f : Text → List IndexLocation)
    (k : Text)
    → All (IsWordAt 0 bs) ws
    → All (IsPlace pathname bs k) (f k)
    → All (IsPlace pathname bs k) (newest (occurrences pathname ws) f k)
unfolding newest
newest-places pathname bs [] f k h known = known
newest-places pathname bs ((w, o) ∷ ws) f k ((n, at, text, some', most, letters), rest) known =
    let new : IndexLocation = record { pathname = pathname; offset = some o } in
    newest-places pathname bs ws (λ k'. if same_text w k' then new ∷ f k' else f k') k rest
      (elim (Bool-cases (same_text w k)) [
        | inl same ↦
            let word : w ≡ k = (same_text_iff w k).0 same in
            rw (same) (
              (
                n,
                refl,
                ap some (omega (arith, at)),
                subst (λ v. take (length v) (drop n bs) ≡ v) word text,
              ),
              known,
            )
        | inr other ↦ rw (other) known
      ])

module _ {Table : Type 0} (lh : Lhash Table) (laws : IsLhash lh) (allocated : Index Table → Bool)
    (fs : UnixFilesystem) (w : IsWhole fs.dfd) (at : ℕ → ℕ) where
  -- The file is scanned, and each location that the index returns for a word is one of the word.
  abbrev pub HasPlaces : Name → List ℕ → Outcome (Bool × Scanner Table) → Type 0
  HasPlaces pathname bs r =
      (s' : Scanner Table) × (r ≡ done (true, s'))
      × ((k : Text) → All (IsPlace pathname bs k) (index_retrieve_entry lh k s'.ind).0)

  -- On a disk whose readable sectors are whole, and with a hash table that does what OpenSSL documents:
  -- where `Pathstore_path` keeps the path name and leaves a faithful cache and a free slot with room for
  -- one block, where the inode is in use, the bytes of the file can all be read, their number is at most
  -- the fuel, all the stores return true and the index is empty before, `Scan_File` returns 0, and each
  -- location that `Index_RetrieveEntry` then returns for a word has the file's path name and an offset
  -- one after a position at which the word stands in the file.
  pub scan_file-HasPlaces :
      {Context : Type 0} (sha : Sha Context) (local1 local2 fuel : ℕ) (element_allocated : Bool)
      (garbage : List ℕ) (inpathname pathname : Name) (discard : Bool) (inumber : ℕ) (inode : Inode)
      (inp fd : ℕ) (s : Scanner Table) (files : Files) (store : Pathstore) (bs : List ℕ)
      (ind : Index Table)
      → pathstore_path fs at local1 local2 fuel sha element_allocated garbage inpathname discard inp
          inode true
          (s.files, s.store)
        ≡ done (some pathname, (files, store))
      → IsFaithful fs.dfd files.image
      → find_slot files.table ≡ some fd
      → length (slot files fd).content ≡ 1
      → is_allocated inode ≡ true
      → file_bytes fs.dfd inode (inode_getsize inode) 0 ≡ some bs
      → length bs ≤ fuel
      → store_all lh allocated (occurrences pathname (words 0 bs)) s.ind ≡ some ind
      → Implements lh laws s.ind (λ k. [])
      → HasPlaces pathname bs (
          scan_file lh allocated fs at sha local1 local2 fuel element_allocated garbage inpathname
            discard inumber inode inp true s)
  scan_file-HasPlaces sha local1 local2 fuel element_allocated garbage inpathname pathname discard
        inumber inode inp fd s files store bs ind kept h free one used got enough e empty =
      let (s', is_done, closed, implements) =
        scan_file-IsPut lh laws allocated fs w at sha local1 local2 fuel element_allocated garbage
          inpathname pathname discard inumber inode inp fd s files store bs ind (λ k. []) kept h
          free one used got enough e empty in
      (
        s',
        is_done,
        λ k.
            subst (All (IsPlace pathname bs k))
              (sym
                (index_retrieve_entry-Implements lh laws k s'.ind
                  (newest (occurrences pathname (words 0 bs)) (λ k'. [])) implements).0)
              (newest-places pathname bs (words 0 bs) (λ k'. []) k (words-AreWordsAt 0 bs) tt),
      )
