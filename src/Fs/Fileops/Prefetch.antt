-- ===== src/Fs/Fileops/Prefetch.antt =====
-- What the prefetching of assign2/fileops.c reads into a slot of the table.
use cs.Prelude.{
  ℕ, ◌+◌, ◌-◌, ◌*◌, ◌/◌, ◌%◌, ◌<◌, ◌≡◌, refl, sym, ◌∙◌, ap, true, none, some, List, [], ◌∷◌, leb,
  if◌then◌else◌, length, get_or, set, Option-cases, ◌⊎◌, inl, inr, arith, length-set,
}
use mathlib.Core.Option
use mathlib.Core.Path.{subst}
use cs.Fs.Disk.{Disk, Buffer, IsWhole}
use cs.Fs.Image.{Image}
use cs.Fs.Image.Computes.{IsFaithful, Yields, content}
use cs.Fs.Inode.{Inode, UnixFilesystem, inode_getsize}
use cs.Fs.Inode.BlockMap.{block_address}
use cs.Fs.File.{valid_bytes, num_blocks, file_getblock_optimized}
use cs.Fs.File.Blocks.{stored_block, file_getblock_optimized-Computes}
use cs.Fs.File.Sizes.{valid_bytes-inside}
use cs.Fs.Fileops.{OpenFile, Files, FileContent, slot, set_slot}
use cs.Fs.Fileops.Read.{char, char_of, prefetch_blocks, prefetch_file_contents}
use cs.Fs.Fileops.Table.{get_or-set_self}

stored_block-valid :
    (d : Disk) (inp : Inode) (b v : ℕ) (buf : Buffer)
    → stored_block d inp b ≡ some (v, buf)
    → v ≡ valid_bytes (inode_getsize inp) b
unfolding Option.bind
stored_block-valid d inp b v buf e = elim (Option-cases (block_address d inp b)) [
  | inl n ↦ ground (arith, n, e)
  | inr (s, a) ↦ elim (Option-cases (content d s)) [
    | inl n ↦ ground (arith, n, a, e)
    | inr (buf', c) ↦ ground (arith, a, c, e)
  ]
]

-- The block of the cursor is the one that is kept, or the next one to be read.
abbrev pub IsWindow : Disk → OpenFile → Type 0
IsWindow d f =
    (length f.content ≡ 1)
    × ((f.stored_blocks ≡ f.cursor / 512)
        ⊎ ((f.stored_blocks ≡ f.cursor / 512 + 1)
            × (get_or f.content 0 none ≡ stored_block d f.inode (f.cursor / 512))))

-- A character of a block that is kept.
pub char_of-char :
    (d : Disk) (st : Files) (fd v : ℕ) (buf : Buffer)
    → let f = slot st fd in
      fd < length st.table
      → f.cursor < inode_getsize f.inode
      → stored_block d f.inode (f.cursor / 512) ≡ some (v, buf)
      → char_of (some (v, buf)) fd (f.cursor % 512) st ≡ (
        char (get_or buf (f.cursor % 512) 0),
        set_slot st fd (record f { cursor = f.cursor + 1 }),
      )
char_of-char d st fd v buf low inside e =
    let valid = stored_block-valid d (slot st fd).inode ((slot st fd).cursor / 512) v buf e in
    let left =
      valid_bytes-inside (inode_getsize (slot st fd).inode) ((slot st fd).cursor / 512)
        (omega arith) in
    ground (arith, valid, left)

set_first : (cs : List FileContent) (c : FileContent) → length cs ≡ 1 → set cs 0 c ≡ c ∷ []
set_first [] c h = ground arith
set_first (x ∷ []) c h = refl
set_first (x ∷ y ∷ cs) c h = ground arith

abbrev pub suc_of : ℕ → ℕ
suc_of n = n + 1

next_block :
    (size b : ℕ)
    → b * 512 < size
    → (if leb (num_blocks size) (b + 1) then num_blocks size else b + 1) ≡ b + 1
unfolding num_blocks
next_block size b h = ground arith

module _ (fs : UnixFilesystem) (w : IsWhole fs.dfd) (at : ℕ → ℕ) (fd : ℕ) where
  -- The state in which the one block is read.
  abbrev pub prefetched : Files → Files
  prefetched st =
      let f = slot st fd in
      prefetch_blocks fs (at fd) 1 f.stored_blocks 0 fd
        (set_slot st fd (record f { stored_blocks = f.stored_blocks + 1 }))

  pub prefetch_file_contents-one :
      (st : Files)
      → (slot st fd).stored_blocks * 512 < inode_getsize (slot st fd).inode
      → prefetch_file_contents fs at fd st ≡ prefetched st
  unfolding prefetch_file_contents
  prefetch_file_contents-one st inside =
      let f = slot st fd in
      let one : f.stored_blocks + 1 - f.stored_blocks ≡ 1 = omega arith in
      let next = next_block (inode_getsize f.inode) f.stored_blocks inside in
      ap
        (λ n.
          prefetch_blocks fs (at fd) (n - f.stored_blocks) f.stored_blocks 0 fd
            (set_slot st fd (record f { stored_blocks = n })))
        next
      ∙ ap
          (λ k.
            prefetch_blocks fs (at fd) k f.stored_blocks 0 fd
              (set_slot st fd (record f { stored_blocks = f.stored_blocks + 1 })))
          one

  read-Yields :
      (f : OpenFile) (b : ℕ) (image : Image)
      → f.inode_iget_ok ≡ true
      → IsFaithful fs.dfd image
      → Yields fs.dfd
          (file_getblock_optimized fs b (at fd) f.inode f.inode_iget_ok image)
          (stored_block fs.dfd f.inode b)
  read-Yields f b image ok h =
      subst
        (λ k.
          Yields fs.dfd (file_getblock_optimized fs b (at fd) f.inode k image)
            (stored_block fs.dfd f.inode b))
        (sym ok) (file_getblock_optimized-Computes fs w (at fd) f.inode b image h)

  -- What is known once a block is read into the slot.
  abbrev Holds : (f : OpenFile) (b : ℕ) → Files → Files → Type 0
  Holds f b st st' =
      (slot st' fd ≡ record f { content = stored_block fs.dfd f.inode b ∷ [] })
      × (IsFaithful fs.dfd st'.image)
      × (length st'.table ≡ length st.table)

  prefetch_blocks-one :
      (st : Files) (b : ℕ)
      → fd < length st.table
      → length (slot st fd).content ≡ 1
      → (slot st fd).inode_iget_ok ≡ true
      → IsFaithful fs.dfd st.image
      → Holds (slot st fd) b st (prefetch_blocks fs (at fd) 1 b 0 fd st)
  unfolding prefetch_blocks
  prefetch_blocks-one st b low one ok h =
      let f : OpenFile = slot st fd in
      let (same, faithful) = read-Yields f b st.image ok h in
      (
        get_or-set_self st.table fd _ low
            ∙ ap (λ c. record f { content = c })
                (set_first f.content _ one ∙ ap (λ o. o ∷ []) same),
        faithful,
        length-set st.table fd _,
      )

  pub prefetched-slot :
      (st : Files)
      → let f = slot st fd in
        fd < length st.table
        → length f.content ≡ 1
        → f.inode_iget_ok ≡ true
        → IsFaithful fs.dfd st.image
        → Holds
            (record f { stored_blocks = f.stored_blocks + 1 })
            f.stored_blocks
            st
            (prefetched st)
  prefetched-slot st low one ok h =
      let f : OpenFile = slot st fd in
      let f' : OpenFile = record f { stored_blocks = f.stored_blocks + 1 } in
      let self = get_or-set_self st.table fd f' low in
      let same_length = length-set st.table fd f' in
      let (step, faithful, long) =
        prefetch_blocks-one (set_slot st fd f') f.stored_blocks (rw same_length low) (rw self one)
          (rw self ok) h in
      (
        step
            ∙ ap {A = OpenFile}
                (λ g. record g { content = stored_block fs.dfd g.inode f.stored_blocks ∷ [] }) self,
        faithful,
        long ∙ same_length,
      )
