-- ===== src/Plain/Agreement.antt =====
-- The reader of assign1 yields what is stored on the disk.
use cs.Prelude.{
  ℕ, ◌+◌, ◌-◌, ◌*◌, ◌/◌, ◌%◌, ◌≡◌, refl, sym, ◌∙◌, ap, Option, none, some, ltb, if◌then◌else◌,
  get_or, drop, Bool-cases, Option-cases, inl, inr,
}
use mathlib.Core.Option
use cs.Fs.Disk.{Disk, Buffer, disksim_readsector, IsWhole}
use cs.Fs.Image.Computes.{content}
use cs.Fs.Inode.{Inode, UnixFilesystem, word_at, decode_inode, is_large, inode_getsize}
use cs.Fs.Inode.BlockMap.{
  stored_inode, stored_word, large_address, block_address, div_small, div_large,
}
use cs.Fs.File.{valid_bytes}
use cs.Fs.File.Blocks.{stored_block, no_block}
use cs.Plain.{
  ◌>>=◌, diskimg_readsector, read_whole, calculate_sector_index_from_inumber,
  calculate_inode_offset_in_sector, validate_iget, inode_iget, find_disk_block_for_small_files,
  find_disk_block_from_double_indirection_block, find_disk_block_for_large_files, inode_indexlookup,
  validate_file_getblock, read_block, file_getblock,
}

-- Two ways to write a chain.
pub >>=-ext :
    {A B : Type 0} (m m' : Option A) (f g : A → Option B)
    → m ≡ m'
    → ((a : A) → f a ≡ g a)
    → (m >>= f) ≡ Option.bind m' g
unfolding Option.bind
>>=-ext none m' f g e h = ap (λ o. Option.bind o g) e
>>=-ext (some a) m' f g e h = h a ∙ ap (λ o. Option.bind o g) e

pub read_whole-diskimg_readsector :
    (d : Disk) (s : ℕ) → IsWhole d → read_whole (diskimg_readsector d s) ≡ content d s
unfolding read_whole diskimg_readsector disksim_readsector
read_whole-diskimg_readsector d s w = elim (Option-cases (d.read s)) [
  | inl n ↦ rw (n) refl
  | inr (bytes, e) ↦ rw (e) (rw (w s bytes e) refl)
]

module _ (fs : UnixFilesystem) (w : IsWhole fs.dfd) where
  -- On a disk whose readable sectors are whole, `inode_iget` yields the inode stored on the disk.
  pub inode_iget-stored : (inumber : ℕ) → inode_iget fs inumber ≡ stored_inode fs inumber
  unfolding inode_iget calculate_sector_index_from_inumber calculate_inode_offset_in_sector
  inode_iget-stored inumber = elim (Bool-cases (validate_iget fs inumber)) [
    | inl v ↦ rw (v) (
        >>=-ext (read_whole (diskimg_readsector fs.dfd (2 + (inumber - 1) / 16)))
          (content fs.dfd (2 + (inumber - 1) / 16))
          (λ b. some (decode_inode (drop (32 * ((inumber - 1) % 16)) b)))
          (λ b. some (decode_inode (drop (32 * ((inumber - 1) % 16)) b)))
          (read_whole-diskimg_readsector fs.dfd (2 + (inumber - 1) / 16) w) (λ b. refl))
    | inr v ↦ rw (v) refl
  ]

  word-stored :
      (s i : ℕ)
      → (read_whole (diskimg_readsector fs.dfd s) >>= λ b. some (word_at b i))
        ≡ stored_word fs.dfd s i
  word-stored s i =
      >>=-ext (read_whole (diskimg_readsector fs.dfd s)) (content fs.dfd s)
        (λ b. some (word_at b i)) (λ b. some (word_at b i))
        (read_whole-diskimg_readsector fs.dfd s w) (λ b. refl)

  large-stored :
      (inp : Inode) (b : ℕ)
      → find_disk_block_for_large_files fs inp b ≡ large_address fs.dfd inp (b / 256) (b % 256)
  unfolding find_disk_block_for_large_files find_disk_block_from_double_indirection_block
  large-stored inp b = elim (Bool-cases (ltb b 1792)) [
    | inl v ↦ rw (v, div_small b v) (word-stored (get_or inp.i_addr (b / 256) 0) (b % 256))
    | inr v ↦
        rw (v, div_large b v)
          (>>=-ext (read_whole (diskimg_readsector fs.dfd (get_or inp.i_addr 7 0)))
            (content fs.dfd (get_or inp.i_addr 7 0))
            (λ sector.
              read_whole (diskimg_readsector fs.dfd (word_at sector (b / 256 - 7))) >>= λ block.
              some (word_at block (b % 256)))
            (λ sector. stored_word fs.dfd (word_at sector (b / 256 - 7)) (b % 256))
            (read_whole-diskimg_readsector fs.dfd (get_or inp.i_addr 7 0) w)
            (λ sector. word-stored (word_at sector (b / 256 - 7)) (b % 256)))
  ]

  -- On a disk whose readable sectors are whole, `inode_indexlookup` yields the address that the blocks
  -- on the disk give.
  pub inode_indexlookup-stored :
      (inp : Inode) (b : ℕ) → inode_indexlookup fs inp b ≡ block_address fs.dfd inp b
  unfolding inode_indexlookup find_disk_block_for_small_files
  inode_indexlookup-stored inp b =
      ap
        (λ o.
          if ltb b 32768
          then (if is_large inp then o else find_disk_block_for_small_files fs inp b)
          else none)
        (large-stored inp b)

  abbrev measured : Inode → ℕ → Option ℕ → Option (ℕ × Buffer)
  measured inp b o =
      read_whole (read_block fs o) >>= λ buf. some (valid_bytes (inode_getsize inp) b, buf)

  measured-stored :
      (inp : Inode) (b : ℕ) (o : Option ℕ)
      → measured inp b o
        ≡ Option.bind o (λ s.
          Option.bind (content fs.dfd s) (λ buf. some (valid_bytes (inode_getsize inp) b, buf)))
  unfolding Option.bind read_whole
  measured-stored inp b none = refl
  measured-stored inp b (some s) =
      >>=-ext (read_whole (diskimg_readsector fs.dfd s)) (content fs.dfd s)
        (λ buf. some (valid_bytes (inode_getsize inp) b, buf))
        (λ buf. some (valid_bytes (inode_getsize inp) b, buf))
        (read_whole-diskimg_readsector fs.dfd s w) (λ buf. refl)

  -- On a disk whose readable sectors are whole, `file_getblock` yields the block that the inode on the
  -- disk gives.
  pub file_getblock-stored :
      (inumber b : ℕ)
      → file_getblock fs inumber b
        ≡ Option.bind (stored_inode fs inumber) (λ inp. stored_block fs.dfd inp b)
  unfolding file_getblock
  file_getblock-stored inumber b = elim (Bool-cases (validate_file_getblock fs inumber b)) [
    | inl v ↦ rw (v) (
        >>=-ext (inode_iget fs inumber) (stored_inode fs inumber)
          (λ inp. measured inp b (inode_indexlookup fs inp b)) (λ inp. stored_block fs.dfd inp b)
          (inode_iget-stored inumber)
          (λ inp.
            ap (measured inp b) (inode_indexlookup-stored inp b)
            ∙ measured-stored inp b (block_address fs.dfd inp b)))
    | inr v ↦ rw (v) (sym (no_block fs inumber b v))
  ]
