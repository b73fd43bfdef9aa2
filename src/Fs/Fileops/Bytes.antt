-- ===== src/Fs/Fileops/Bytes.antt =====
-- What Fileops_getchar of assign2/fileops.c reads.
use cs.Prelude.{
  ℕ, ◌+◌, ◌/◌, ◌%◌, ◌<◌, ◌≡◌, refl, sym, ◌∙◌, ap, true, false, none, some, List, ltb, leb, length,
  get_or, Bool-cases, ◌⊎◌, inl, inr, arith, length-set,
}
use mathlib.Core.Path.{subst}
use cs.Fs.Disk.{Buffer, IsWhole}
use cs.Fs.Image.Computes.{IsFaithful, content}
use cs.Fs.Inode.{Inode, UnixFilesystem, is_allocated, inode_getsize}
use cs.Fs.File.Blocks.{stored_block}
use cs.Fs.Fileops.{OpenFile, Files, FileContent, slot, is_free}
use cs.Fs.Fileops.Read.{
  Char, char, char_of, can_read, fileops_getchar, prefetch_needed, prefetched_file_content,
}
use cs.Fs.Fileops.Table.{get_or-set_self}
use cs.Fs.Fileops.Prefetch.{
  IsWindow, char_of-char, suc_of, prefetched, prefetched-slot, prefetch_file_contents-one,
}

module _ (fs : UnixFilesystem) (w : IsWhole fs.dfd) (at : ℕ → ℕ) (fd : ℕ) where
  -- A file that is read: its next byte is in a block that is kept or is read next.
  pub record IsReading (st : Files) : Type 0 where
    pub in_table : fd < length st.table
    pub is_open : is_free (slot st fd) ≡ false
    pub is_in_use : is_allocated (slot st fd).inode ≡ true
    pub has_inode : (slot st fd).inode_iget_ok ≡ true
    pub window : IsWindow fs.dfd (slot st fd)
    pub faithful : IsFaithful fs.dfd st.image

  -- The byte at the cursor comes back, and the cursor moves on.
  abbrev pub IsNextAt : (cursor : ℕ) → Inode → Buffer → Char × Files → Type 0
  IsNextAt cursor inode buf r =
      (r.0 ≡ char (get_or buf (cursor % 512) 0))
      × ((slot r.1 fd).cursor ≡ cursor + 1)
      × ((slot r.1 fd).inode ≡ inode)
      × IsReading r.1

  abbrev pub IsNext : OpenFile → Buffer → Char × Files → Type 0
  IsNext f buf r = IsNextAt f.cursor f.inode buf r

  moved :
      (stored cursor : ℕ) (content : List FileContent) (inode : Inode)
      → stored ≡ cursor / 512 + 1
      → get_or content 0 none ≡ stored_block fs.dfd inode (cursor / 512)
      → (stored ≡ (cursor + 1) / 512)
        ⊎ ((stored ≡ (cursor + 1) / 512 + 1)
            × (get_or content 0 none ≡ stored_block fs.dfd inode ((cursor + 1) / 512)))
  moved stored cursor content inode kept got = elim (Bool-cases (ltb ((cursor + 1) / 512) stored)) [
    | inl v ↦
        let same : cursor / 512 ≡ (cursor + 1) / 512 = ground (arith, v) in
        inr (ground (arith, v), got ∙ ap (stored_block fs.dfd inode) same)
    | inr v ↦ inl (ground (arith, v))
  ]

  char_of-IsNext :
      (st : Files) (v : ℕ) (buf : Buffer)
      → IsReading st
      → (slot st fd).stored_blocks ≡ (slot st fd).cursor / 512 + 1
      → (slot st fd).cursor < inode_getsize (slot st fd).inode
      → get_or (slot st fd).content 0 none ≡ some (v, buf)
      → stored_block fs.dfd (slot st fd).inode ((slot st fd).cursor / 512) ≡ some (v, buf)
      → IsNext (slot st fd) buf (
          char_of
            (prefetched_file_content st fd ((slot st fd).cursor / 512))
            fd
            ((slot st fd).cursor % 512)
            st)
  char_of-IsNext st v buf h kept inside got e =
      let f : OpenFile = slot st fd in
      let f' : OpenFile = record f { cursor = f.cursor + 1 } in
      let self = get_or-set_self st.table fd f' h.in_table in
      let first : f.cursor / 512 % 1 ≡ 0 = omega arith in
      let found : prefetched_file_content st fd (f.cursor / 512) ≡ some (v, buf) =
        ap (λ i. get_or f.content i none) first ∙ got in
      let read = char_of-char fs.dfd st fd v buf h.in_table inside e in
      subst (IsNext f buf) (sym (ap (λ c. char_of c fd (f.cursor % 512) st) found ∙ read)) (
        refl,
        ap {A = OpenFile} (λ g. g.cursor) self,
        ap {A = OpenFile} (λ g. g.inode) self,
        record {
          in_table = rw (length-set st.table fd f') h.in_table;
          is_open = ap is_free self ∙ h.is_open;
          is_in_use = ap {A = OpenFile} (λ g. is_allocated g.inode) self ∙ h.is_in_use;
          has_inode = ap {A = OpenFile} (λ g. g.inode_iget_ok) self ∙ h.has_inode;
          window =
              subst (IsWindow fs.dfd) (sym self)
                (h.window.0, moved f.stored_blocks f.cursor f.content f.inode kept (got ∙ sym e));
          faithful = h.faithful;
        },
      )

  -- The same with the cursor and the inode of another state.
  char_of-IsNextAt :
      (cursor : ℕ) (inode : Inode) (st : Files) (v : ℕ) (buf : Buffer)
      → (slot st fd).cursor ≡ cursor
      → (slot st fd).inode ≡ inode
      → IsReading st
      → (slot st fd).stored_blocks ≡ (slot st fd).cursor / 512 + 1
      → cursor < inode_getsize inode
      → get_or (slot st fd).content 0 none ≡ some (v, buf)
      → stored_block fs.dfd inode (cursor / 512) ≡ some (v, buf)
      → IsNextAt cursor inode buf
          (char_of (prefetched_file_content st fd (cursor / 512)) fd (cursor % 512) st)
  char_of-IsNextAt cursor inode st v buf c i h kept inside got e =
      subst
        (λ k.
          IsNextAt k inode buf (char_of (prefetched_file_content st fd (k / 512)) fd (k % 512) st))
        c
        (subst
          (λ k. IsNextAt (slot st fd).cursor k buf (
            char_of (prefetched_file_content st fd ((slot st fd).cursor / 512)) fd
              ((slot st fd).cursor % 512) st))
          i (char_of-IsNext st v buf h kept (rw (c, i) inside) got (rw (c, i) e)))

  prefetched-IsNext :
      (st : Files) (v : ℕ) (buf : Buffer)
      → IsReading st
      → (slot st fd).stored_blocks ≡ (slot st fd).cursor / 512
      → (slot st fd).cursor < inode_getsize (slot st fd).inode
      → stored_block fs.dfd (slot st fd).inode ((slot st fd).cursor / 512) ≡ some (v, buf)
      → IsNext (slot st fd) buf (
          char_of
            (prefetched_file_content (prefetched fs w at fd st) fd ((slot st fd).cursor / 512))
            fd
            ((slot st fd).cursor % 512)
            (prefetched fs w at fd st))
  prefetched-IsNext st v buf h next inside e =
      let f : OpenFile = slot st fd in
      let (self, faithful, long) =
        prefetched-slot fs w at fd st h.in_table h.window.0 h.has_inode h.faithful in
      let kept : stored_block fs.dfd f.inode f.stored_blocks
          ≡ stored_block fs.dfd f.inode (f.cursor / 512) =
        ap (stored_block fs.dfd f.inode) next in
      char_of-IsNextAt f.cursor f.inode (prefetched fs w at fd st) v buf
        (ap {A = OpenFile} (λ g. g.cursor) self) (ap {A = OpenFile} (λ g. g.inode) self)
        (record {
          in_table = rw (long) h.in_table;
          is_open = ap is_free self ∙ h.is_open;
          is_in_use = ap {A = OpenFile} (λ g. is_allocated g.inode) self ∙ h.is_in_use;
          has_inode = ap {A = OpenFile} (λ g. g.inode_iget_ok) self ∙ h.has_inode;
          window = subst (IsWindow fs.dfd) (sym self) (refl, inr (ap suc_of next, kept));
          faithful = faithful;
        })
        (ap {A = OpenFile} (λ g. g.stored_blocks) self
          ∙ ap suc_of next
          ∙ sym (ap {A = OpenFile} (λ g. g.cursor / 512 + 1) self))
        inside (ap {A = OpenFile} (λ g. get_or g.content 0 none) self ∙ kept ∙ e) e

  pub counted :
      (st : Files) → IsReading st → IsReading (record st { num_getchars = st.num_getchars + 1 })
  counted st h = record {
    in_table = h.in_table;
    is_open = h.is_open;
    is_in_use = h.is_in_use;
    has_inode = h.has_inode;
    window = h.window;
    faithful = h.faithful;
  }

  -- On a disk whose readable sectors are whole: of an open file whose kept block is that of the cursor
  -- or the one before it, with a faithful cache and the cursor before the end, `Fileops_getchar` yields
  -- the byte at the cursor in the file's block on the disk, if that can be read, moves the cursor on by
  -- one, and leaves the file so that the next byte can be read in the same way.
  pub fileops_getchar-IsNext :
      (st : Files) (v : ℕ) (buf : Buffer)
      → IsReading st
      → (slot st fd).cursor < inode_getsize (slot st fd).inode
      → stored_block fs.dfd (slot st fd).inode ((slot st fd).cursor / 512) ≡ some (v, buf)
      → IsNext (slot st fd) buf (fileops_getchar fs at fd st)
  unfolding fileops_getchar prefetch_needed
  fileops_getchar-IsNext st v buf h inside e =
      let st' : Files = record st { num_getchars = st.num_getchars + 1 } in
      let f : OpenFile = slot st fd in
      let h' : IsReading st' = counted st h in
      let can : can_read f ≡ true = ground (arith, h.is_open, h.is_in_use) in
      elim h.window.1 [
        | inl next ↦
            let needed : leb f.stored_blocks (f.cursor / 512) ≡ true = ground (arith, next) in
            let one = prefetch_file_contents-one fs w at fd st' (omega (arith, next)) in
            rw (can, needed, one) (prefetched-IsNext st' v buf h' next inside e)
        | inr (kept, got) ↦
            let needed : leb f.stored_blocks (f.cursor / 512) ≡ false = ground (arith, kept) in
            rw (can, needed) (char_of-IsNext st' v buf h' kept inside (got ∙ e) e)
      ]
