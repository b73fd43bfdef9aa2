-- ===== src/Fs/Fileops/Stream.antt =====
-- The bytes that calls of Fileops_getchar and Fileops_read of assign2/fileops.c yield in order.
use cs.Prelude.{
  Bool, ℕ, zero, suc, ◌+◌, ◌-◌, ◌/◌, ◌%◌, ◌<◌, ◌≤◌, ◌≡◌, refl, sym, ◌∙◌, ap, false, some, List, [],
  ◌∷◌, ltb, take, get_or, arith,
}
use cs.Fs.Disk.{IsWhole}
use cs.Fs.Inode.{Inode, UnixFilesystem, inode_getsize}
use cs.Fs.File.Blocks.{stored_block}
use cs.Fs.File.Contents.{byte_of-some, file_bytes, file_bytes-nil, file_bytes-cons}
use cs.Fs.Fileops.{Files, slot, is_free, fileops_tell}
use cs.Fs.Fileops.Read.{
  Char, char, end_of_file, can_read, fileops_getchar, read_chars, after_char, fileops_read,
}
use cs.Fs.Fileops.Prefetch.{suc_of}
use cs.Fs.Fileops.Bytes.{IsReading, counted, fileops_getchar-IsNext}

module _ (fs : UnixFilesystem) (at : ℕ → ℕ) (fd : ℕ) where
  -- From a state on, the calls of `Fileops_getchar` return these bytes and then -1, which leaves another
  -- state, and `Fileops_tell` counts from a position on.
  abbrev pub IsStream : List ℕ → (p : ℕ) → Files → Files → Type 0
  IsStream [] p st st' = fileops_getchar fs at fd st ≡ (end_of_file, st')
  IsStream (b ∷ bs) p st st' =
      (next : Files) × (fileops_getchar fs at fd st ≡ (char b, next))
      × (fileops_tell fd next ≡ some (p + 1))
      × IsStream bs (p + 1) next st'

  fileops_getchar-at_end :
      (st : Files)
      → inode_getsize (slot st fd).inode ≤ (slot st fd).cursor
      → fileops_getchar fs at fd st
        ≡ (end_of_file, record st { num_getchars = st.num_getchars + 1 })
  unfolding fileops_getchar
  fileops_getchar-at_end st h =
      let past : ltb (slot st fd).cursor (inode_getsize (slot st fd).inode) ≡ false =
        ground (arith, h) in
      let cannot : can_read (slot st fd) ≡ false = ground (arith, past) in rw (cannot) refl

  tell_open :
      (st : Files) (c : ℕ)
      → is_free (slot st fd) ≡ false
      → (slot st fd).cursor ≡ c
      → fileops_tell fd st ≡ some c
  unfolding fileops_tell
  tell_open st c h e = rw (h) (ap some e)

  after_char-char :
      (r : (List ℕ × Bool) × Files) (b : ℕ) (bs : List ℕ) (st : Files)
      → r.0 ≡ (bs, false)
      → (after_char (char b) r st).0 ≡ (b ∷ bs, false)
  after_char-char ((cs, failed), st') b bs st e = ap {A = List ℕ × Bool} (λ (l, f). (b ∷ l, f)) e

  read_chars-IsStream :
      (bs : List ℕ) (p n : ℕ) (st st' : Files)
      → IsStream bs p st st'
      → (read_chars fs at fd n st).0 ≡ (take n bs, false)
  unfolding read_chars
  read_chars-IsStream [] p zero st st' h = refl
  read_chars-IsStream (b ∷ bs) p zero st st' h = refl
  read_chars-IsStream [] p (suc n) st st' h = rw (h) refl
  read_chars-IsStream (b ∷ bs) p (suc n) st st' (next, got, tell, rest) = rw (got) (
      after_char-char (read_chars fs at fd n next) b (take n bs) next
        (read_chars-IsStream bs (p + 1) n next st' rest))

  -- From a state from which `Fileops_getchar` returns these bytes, `Fileops_read` reads as many of them
  -- as it is asked for, or all, and no assertion fails.
  pub fileops_read-IsStream :
      (bs : List ℕ) (p n : ℕ) (st st' : Files)
      → IsStream bs p (record st { num_reads = st.num_reads + 1 }) st'
      → (fileops_read fs at fd n st).0 ≡ (take n bs, false)
  unfolding fileops_read
  fileops_read-IsStream bs p n st st' h =
      read_chars-IsStream bs p n (record st { num_reads = st.num_reads + 1 }) st' h

module _ (fs : UnixFilesystem) (w : IsWhole fs.dfd) (at : ℕ → ℕ) (fd : ℕ) where
  -- An open file at a position, with the bytes that are left of it.
  pub record IsReader (inode : Inode) (c : ℕ) (bs : List ℕ) (st : Files) : Type 0 where
    pub reading : IsReading fs w at fd st
    pub at_cursor : (slot st fd).cursor ≡ c
    pub at_inode : (slot st fd).inode ≡ inode
    pub bytes : file_bytes fs.dfd inode (inode_getsize inode - c) c ≡ some bs

  -- The next character of a reader, and what it leaves.
  abbrev pub IsTaken : Inode → (c : ℕ) → List ℕ → Char × Files → Type 0
  IsTaken inode c [] r = (r.0 ≡ end_of_file) × IsReader inode c [] r.1
  IsTaken inode c (b ∷ bs) r =
      (r.0 ≡ char b) × (fileops_tell fd r.1 ≡ some (c + 1)) × IsReader inode (c + 1) bs r.1

  pub IsReader-next :
      (inode : Inode) (c : ℕ) (bs : List ℕ) (st : Files)
      → IsReader inode c bs st
      → IsTaken inode c bs (fileops_getchar fs at fd st)
  IsReader-next inode c [] st h =
      let none_left = file_bytes-nil fs.dfd inode (inode_getsize inode - c) c h.bytes in
      let past : inode_getsize (slot st fd).inode ≤ (slot st fd).cursor =
        rw (h.at_cursor, h.at_inode) (omega (arith, none_left)) in
      rw (fileops_getchar-at_end fs at fd st past) (
        refl,
        record {
          reading = counted fs w at fd st h.reading;
          at_cursor = h.at_cursor;
          at_inode = h.at_inode;
          bytes = h.bytes;
        },
      )
  IsReader-next inode c (b ∷ bs) st h =
      let (k, left, first, rest) =
        file_bytes-cons fs.dfd inode (inode_getsize inode - c) c b bs h.bytes in
      let (v, buf, block, got) = byte_of-some c (stored_block fs.dfd inode (c / 512)) b first in
      let inside : (slot st fd).cursor < inode_getsize (slot st fd).inode =
        rw (h.at_cursor, h.at_inode) (omega (arith, left)) in
      let (read, moved, kept, h') =
        fileops_getchar-IsNext fs w at fd st v buf h.reading inside
          (rw (h.at_cursor, h.at_inode) block) in
      let moved' = moved ∙ ap suc_of h.at_cursor in
      let fewer : k ≡ inode_getsize inode - (c + 1) = omega (arith, left) in
      (
        read ∙ ap (λ n. char (get_or buf (n % 512) 0)) h.at_cursor ∙ ap char got,
        tell_open fs at fd (fileops_getchar fs at fd st).1 (c + 1) h'.is_open moved',
        record {
          reading = h';
          at_cursor = moved';
          at_inode = kept ∙ h.at_inode;
          bytes = ap (λ n. file_bytes fs.dfd inode n (c + 1)) (sym fewer) ∙ rest;
        },
      )

  IsReader-IsStream :
      (inode : Inode) (c : ℕ) (bs : List ℕ) (st : Files)
      → IsReader inode c bs st
      → (st' : Files) × IsStream fs at fd bs c st st'
  IsReader-IsStream inode c [] st h =
      let (read, h') = IsReader-next inode c [] st h in
      ((fileops_getchar fs at fd st).1, ap (λ k. (k, (fileops_getchar fs at fd st).1)) read)
  IsReader-IsStream inode c (b ∷ bs) st h =
      let next = (fileops_getchar fs at fd st).1 in
      let (read, tell, h') = IsReader-next inode c (b ∷ bs) st h in
      let (last, stream) = IsReader-IsStream inode (c + 1) bs next h' in
      (last, (next, ap (λ k. (k, next)) read, tell, stream))

  -- On a disk whose readable sectors are whole: from the cursor of an open file on, whose kept block is
  -- that of the cursor or the one before it, with a faithful cache, the calls of `Fileops_getchar`
  -- return the bytes that the disk has for the rest of the file, if they can all be read, and then -1,
  -- and after each byte `Fileops_tell` is one more.
  pub fileops_getchar-IsStream :
      (st : Files) (bs : List ℕ)
      → IsReading fs w at fd st
      → (let f = slot st fd in
          file_bytes fs.dfd f.inode (inode_getsize f.inode - f.cursor) f.cursor ≡ some bs)
      → (st' : Files) × IsStream fs at fd bs (slot st fd).cursor st st'
  fileops_getchar-IsStream st bs h e =
      IsReader-IsStream (slot st fd).inode (slot st fd).cursor bs st
        (record { reading = h; at_cursor = refl; at_inode = refl; bytes = e })
