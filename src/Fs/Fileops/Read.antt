-- ===== src/Fs/Fileops/Read.antt =====
-- Reading characters from open files, with the prefetched block: assign2/fileops.c.
use cs.Prelude.{
  ℕ, zero, suc, ◌+◌, ◌-◌, ◌/◌, ◌%◌, Bool, true, false, none, some, List, [], ◌∷◌, ltb, leb, not,
  ◌&&◌, if◌then◌else◌, get_or, set,
}
use cs.Fs.Disk.{sector_size}
use cs.Fs.Inode.{UnixFilesystem, is_allocated, inode_getsize}
use cs.Fs.File.{num_blocks, file_getblock_optimized}
use cs.Fs.Fileops.{
  prefetched_file_contents, FileContent, OpenFile, Files, on_image, slot, set_slot, is_free,
}

-- The loop of `prefetch_file_contents`: so many blocks from `block_no` on, into the contents from
-- `index` on.
unfoldable pub prefetch_blocks :
    UnixFilesystem → (inp_address : ℕ) → (left block_no index : ℕ) → (fd : ℕ) → Files → Files
prefetch_blocks fs at zero block_no index fd st = st
prefetch_blocks fs at (suc left) block_no index fd st =
    let f = slot st fd in
    let (content, st') =
      on_image (file_getblock_optimized fs block_no at f.inode f.inode_iget_ok st.image) st in
    let g = slot st' fd in
    prefetch_blocks fs at left (block_no + 1) (index + 1) fd
      (set_slot st' fd (record g { content = set g.content index content }))

-- `at fd` is the address of the inode in the slot.
unfoldable pub prefetch_file_contents : UnixFilesystem → (at : ℕ → ℕ) → (fd : ℕ) → Files → Files
unfolding prefetch_blocks
prefetch_file_contents fs at fd st =
    let f = slot st fd in
    let blocks = num_blocks (inode_getsize f.inode) in
    let next = f.stored_blocks in
    let stored =
      if leb blocks (next + prefetched_file_contents)
      then blocks
      else next + prefetched_file_contents in
    prefetch_blocks fs (at fd) (stored - next) next 0 fd
      (set_slot st fd (record f { stored_blocks = stored }))

unfoldable pub prefetch_needed : Files → (fd block_no : ℕ) → Bool
prefetch_needed st fd block_no = leb (slot st fd).stored_blocks block_no

abbrev pub prefetched_file_content : Files → (fd block_no : ℕ) → FileContent
prefetched_file_content st fd block_no =
    get_or (slot st fd).content (block_no % prefetched_file_contents) none

-- A character, -1, or the failed assertion.
pub data Char : Type 0 where
  char : ℕ → Char
  end_of_file : Char
  aborted : Char

abbrev pub char_of : FileContent → (fd offset : ℕ) → Files → Char × Files
char_of none fd offset st = (end_of_file, st)
char_of (some (bytes_moved, buf)) fd offset st =
    if ltb offset bytes_moved
    then (let f = slot st fd in
        (char (get_or buf offset 0), set_slot st fd (record f { cursor = f.cursor + 1 })))
    else (aborted, st)

-- The tests before a block is read.
abbrev pub can_read : OpenFile → Bool
can_read f = not (is_free f) && is_allocated f.inode && ltb f.cursor (inode_getsize f.inode)

unfoldable pub fileops_getchar : UnixFilesystem → (at : ℕ → ℕ) → (fd : ℕ) → Files → Char × Files
unfolding prefetch_file_contents prefetch_needed
fileops_getchar fs at fd st =
    let st' : Files = record st { num_getchars = st.num_getchars + 1 } in
    let f = slot st' fd in
    let block_no = f.cursor / sector_size in
    if can_read f
    then (let st'' =
          if prefetch_needed st' fd block_no then prefetch_file_contents fs at fd st' else st' in
        char_of (prefetched_file_content st'' fd block_no) fd (f.cursor % sector_size) st'')
    else (end_of_file, st')

-- The bytes that `fileops_read` puts into the buffer, and whether the assertion failed.
abbrev pub after_char : Char → (List ℕ × Bool) × Files → Files → (List ℕ × Bool) × Files
after_char (char c) ((cs, failed), st') st = ((c ∷ cs, failed), st')
after_char end_of_file rest st = (([], false), st)
after_char aborted rest st = (([], true), st)

unfoldable pub read_chars :
    UnixFilesystem → (at : ℕ → ℕ) → (fd length : ℕ) → Files → (List ℕ × Bool) × Files
unfolding fileops_getchar
read_chars fs at fd zero st = (([], false), st)
read_chars fs at fd (suc length) st =
    let (c, st') = fileops_getchar fs at fd st in after_char c (read_chars fs at fd length st') st'

unfoldable pub fileops_read :
    UnixFilesystem → (at : ℕ → ℕ) → (fd length : ℕ) → Files → (List ℕ × Bool) × Files
unfolding read_chars
fileops_read fs at fd length st =
    read_chars fs at fd length (record st { num_reads = st.num_reads + 1 })
