-- ===== src/Fs/Fileops.antt =====
-- Open files: assign2/fileops.c. The file system and the addresses of local inodes are arguments; a
-- descriptor outside the table is taken for one that is not open, where the code reads past its table.
pub mod Bytes
pub mod Prefetch
pub mod Keeps
pub mod Open
pub mod Read
pub mod Stream
pub mod Table
use cs.Prelude.{
  ℕ, zero, suc, ◌+◌, ◌-◌, ◌*◌, ◌/◌, ◌%◌, Bool, true, false, Option, none, some, List, [], ◌∷◌, ltb,
  leb, ◌==◌, not, ◌&&◌, ◌||◌, if◌then◌else◌, get_or, get_elem?, set, replicate,
}
use cs.Fs.Disk.{Disk, Buffer, sector_size}
use cs.Fs.Cache.{erase_sector_in_inode_cache}
use cs.Fs.Image.{Image, M}
use cs.Fs.Inode.{
  Inode, UnixFilesystem, unixfilesystem_init, is_allocated, is_regular, inode_iget, inode_getsize,
}
use cs.Fs.File.{num_blocks, file_getblock_optimized}
use cs.Fs.Directory.{Name}
use cs.Fs.Pathname.{pathname_lookup}

abbrev pub max_files : ℕ
max_files = 64

abbrev pub prefetched_file_contents : ℕ
prefetched_file_contents = 1

-- A block with its valid bytes; `none` is -1 for them.
abbrev pub FileContent : Type 0
FileContent = Option (ℕ × Buffer)

-- A slot of the table. `pathname` is `none` for NULL, and `stored_blocks` is `max_blocknum_in_store`
-- plus 1. No slot has a negative inode number.
pub record OpenFile : Type 0 where
  pub pathname : Option Name
  pub cursor : ℕ
  pub inumber : ℕ
  pub inode : Inode
  pub inp : ℕ
  pub inode_iget_ok : Bool
  pub stored_blocks : ℕ
  pub content : List FileContent

abbrev pub zero_inode : Inode
zero_inode = record {
  i_mode = 0;
  i_nlink = 0;
  i_uid = 0;
  i_gid = 0;
  i_size0 = 0;
  i_size1 = 0;
  i_addr = replicate 8 0;
  i_atime = replicate 2 0;
  i_mtime = replicate 2 0;
}

-- A slot after `memset`.
abbrev pub zero_file : OpenFile
zero_file = record {
  pathname = none;
  cursor = 0;
  inumber = 0;
  inode = zero_inode;
  inp = 0;
  inode_iget_ok = true;
  stored_blocks = 1;
  content = replicate prefetched_file_contents (some (0, replicate sector_size 0));
}

-- The module's variables, over the image below.
pub record Files : Type 0 where
  pub image : Image
  pub table : List OpenFile
  pub num_opens : ℕ
  pub num_reads : ℕ
  pub num_getchars : ℕ
  pub num_isfiles : ℕ

-- Work on the image.
abbrev pub on_image : {A : Type 0} → Option A × Image → Files → Option A × Files
on_image (o, image) st = (o, record st { image = image })

abbrev pub slot : Files → ℕ → OpenFile
slot st fd = get_or st.table fd zero_file

abbrev pub set_slot : Files → ℕ → OpenFile → Files
set_slot st fd f = record st { table = set st.table fd f }

abbrev pub is_free : OpenFile → Bool
is_free f = elim f.pathname [ none ↦ true | some _ ↦ false ]

-- `opened` says whether `diskimg_open` succeeds; the disk is what it opens.
unfoldable pub fileops_init :
    (allocated opened : Bool) → Disk → Files → Option UnixFilesystem × Files
fileops_init allocated opened d st =
    let st' : Files = record st { table = replicate max_files zero_file } in
    if opened then on_image (unixfilesystem_init allocated d st'.image) st' else (none, st')

-- The first free slot.
unfoldable pub find_slot : List OpenFile → Option ℕ
find_slot [] = none
find_slot (f ∷ fs) =
    if is_free f then some 0 else elim (find_slot fs) [ none ↦ none | some fd ↦ some (suc fd) ]

-- A slot that is taken: what is not set in it stays, such as the contents of its blocks.
abbrev pub opened_file : Name → (inumber : ℕ) → Inode → (inp : ℕ) → OpenFile → OpenFile
opened_file pathname inumber inode inp f = record f {
  pathname = some pathname;
  cursor = 0;
  inumber = inumber;
  inode = inode;
  inp = inp;
  inode_iget_ok = true;
  stored_blocks = 0;
}

abbrev pub take_slot :
    Option ℕ → Name → (inumber : ℕ) → Inode → (inp : ℕ) → Files → Option ℕ × Files
take_slot none pathname inumber inode inp st = (none, st)
take_slot (some fd) pathname inumber inode inp st =
    (some fd, set_slot st fd (opened_file pathname inumber inode inp (slot st fd)))

-- `inumber` is `none` where the number is negative.
unfoldable pub optimized_fileops_open :
    Name → (inumber : Option ℕ) → Inode → (inp : ℕ) → (iget_ok : Bool) → Files → Option ℕ × Files
unfolding find_slot
optimized_fileops_open pathname none inode inp ok st =
    (none, record st { num_opens = st.num_opens + 1 })
optimized_fileops_open pathname (some inumber) inode inp ok st =
    let st' : Files = record st { num_opens = st.num_opens + 1 } in
    if ok then take_slot (find_slot st'.table) pathname inumber inode inp st' else (none, st')

abbrev pub open_inode : Option Inode × Files → Name → (inumber inp : ℕ) → Option ℕ × Files
open_inode (none, st) pathname inumber inp = (none, st)
open_inode (some inode, st) pathname inumber inp =
    take_slot (find_slot st.table) pathname inumber inode inp st

abbrev pub open_inumber : UnixFilesystem → Option ℕ × Files → Name → (inp : ℕ) → Option ℕ × Files
open_inumber fs (none, st) pathname inp = (none, st)
open_inumber fs (some inumber, st) pathname inp =
    open_inode (on_image (inode_iget fs inumber st.image) st) pathname inumber inp

-- `inp` is the address of its local inode, and `at` of that of `directory_findname`.
unfoldable pub fileops_open : UnixFilesystem → Name → (at inp : ℕ) → Files → Option ℕ × Files
unfolding find_slot
fileops_open fs pathname at inp st =
    open_inumber fs
      (on_image (pathname_lookup fs at pathname st.image)
        (record st { num_opens = st.num_opens + 1 }))
      pathname inp

-- `none` is -1 in what follows.
unfoldable pub fileops_tell : (fd : ℕ) → Files → Option ℕ
fileops_tell fd st = if is_free (slot st fd) then none else some (slot st fd).cursor

unfoldable pub fileops_close : (fd : ℕ) → Files → Bool × Files
fileops_close fd st =
    let f = slot st fd in
    if is_free f
    then (false, st)
    else (let st' = set_slot st fd (record f { pathname = none }) in
        let image = st'.image in
        (
          true,
          record st' {
            image = record image { cache = erase_sector_in_inode_cache f.inp image.cache };
          },
        ))

-- Whether an inode is that of a regular file.
abbrev pub is_file : Option Inode → Bool
is_file none = false
is_file (some inode) = is_allocated inode && is_regular inode

abbrev pub file_test : Option Inode × Files → Bool × Files
file_test (o, st) = (is_file o, st)

abbrev pub file_at : UnixFilesystem → Option ℕ × Files → Bool × Files
file_at fs (none, st) = (false, st)
file_at fs (some inumber, st) = file_test (on_image (inode_iget fs inumber st.image) st)

unfoldable pub fileops_isfile : UnixFilesystem → Name → (at : ℕ) → Files → Bool × Files
fileops_isfile fs pathname at st = file_at fs (
    on_image (pathname_lookup fs at pathname st.image)
      (record st { num_isfiles = st.num_isfiles + 1 }))

-- The inode comes back with the answer; there is none where `inode_iget` failed.
unfoldable pub optimized_fileops_isfile :
    UnixFilesystem → (inumber : ℕ) → Files → (Bool × Option Inode) × Files
optimized_fileops_isfile fs inumber st =
    let (o, st') =
      on_image (inode_iget fs inumber st.image) (record st { num_isfiles = st.num_isfiles + 1 }) in
    ((is_file o, o), st')
