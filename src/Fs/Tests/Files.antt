-- ===== src/Fs/Tests/Files.antt =====
-- The inodes, files, directories, paths and checksums of assign2/assign1 at work.
use cs.Prelude.{
  ℕ, ◌+◌, ◌*◌, get_or, ◌≡◌, refl, ap, ◌<◌, some, List, [], ◌∷◌, ◌++◌, replicate, arith, All,
}
use mathlib.Core.List.{append_assoc, append-nil}
use mathlib.Core.Option
use cs.Fs.Disk.{disksim_readsector}
use cs.Fs.Image.Computes.{Yields, IsFaithful}
use cs.Fs.Inode.{inode_indexlookup, inode_getsize, decode_inode}
use cs.Fs.Inode.BlockMap.{stored_inode, block_address, inode_indexlookup-Computes}
use cs.Fs.File.{valid_bytes}
use cs.Fs.File.Contents.{file_bytes}
use cs.Fs.Directory.{
  Name, Direntv6, key_name, lfind, directory_findname, entries, decode_dirent, cmp_dir_entries,
}
use cs.Fs.Directory.Entries.{Finds, entries-AreEntries, lfind-Finds}
use cs.Fs.Directory.Search.{directory_findname-Computes}
use cs.Fs.Pathname.{pathname_lookup}
use cs.Fs.Pathname.Tokens.{path_of}
use cs.Fs.Pathname.Lookup.{Leads, here, enters, IsDirectory, pathname_lookup-Computes}
use cs.Fs.Checksum.{Sha, chksumfile_byinumber}
use cs.Fs.Checksum.Digest.{IsStreaming, digest, chksumfile_byinumber-Computes}
use cs.Fs.Tests.Store.{disk, disk-IsWhole, fs, start, start-IsFaithful, directory, file}

file_is_stored : stored_inode fs 2 ≡ some file
unfolding decode_inode disksim_readsector Option.bind
file_is_stored = refl

inode_indexlookup-Computes_example :
    Yields disk (inode_indexlookup fs 9 file 0 start) (block_address disk file 0)
inode_indexlookup-Computes_example =
    inode_indexlookup-Computes fs disk-IsWhole 9 file 0 start start-IsFaithful

abbrev member : Direntv6
member = record { d_inumber = 2; d_name = b'a' ∷ replicate 13 0 }

abbrev pub a : Name
a = b'a' ∷ []

abbrev entry_bytes : List ℕ
entry_bytes = 2 ∷ 0 ∷ b'a' ∷ replicate 13 0

directory_has_bytes : file_bytes disk directory (inode_getsize directory) 0 ≡ some entry_bytes
unfolding file_bytes inode_getsize Option.bind valid_bytes disksim_readsector
directory_has_bytes = refl

directory_is_stored : stored_inode fs 1 ≡ some directory
unfolding decode_inode disksim_readsector Option.bind
directory_is_stored = refl

directory_findname-Computes_example :
    Finds entry_bytes a (directory_findname fs a 1 9 start).0
    × IsFaithful disk (directory_findname fs a 1 9 start).1
directory_findname-Computes_example =
    directory_findname-Computes fs disk-IsWhole 9 1 directory a entry_bytes directory_is_stored refl
      directory_has_bytes start start-IsFaithful

root_IsDirectory : IsDirectory fs 1 entry_bytes
root_IsDirectory = record {
  inp = directory;
  stored = directory_is_stored;
  is_directory = refl;
  has_bytes = directory_has_bytes;
}

member_is_found : Finds entry_bytes a (some member)
unfolding entries decode_dirent lfind key_name cmp_dir_entries
member_is_found =
    lfind-Finds entry_bytes a 0 (member ∷ [])
      (entries-AreEntries entry_bytes 1 0 entry_bytes (omega arith) (omega arith)
        (λ i l. let same : 16 * 0 + i ≡ i = omega arith in ap (λ n. get_or entry_bytes n 0) same))
      (λ j l. absurd (omega (arith, l))) (λ j l. omega (arith, l))

root_Leads : Leads fs 1 (a ∷ []) 2
root_Leads = enters entry_bytes member root_IsDirectory member_is_found here

pathname_lookup-Computes_example :
    Yields disk (pathname_lookup fs 9 (path_of (a ∷ [])) start) (some 2)
pathname_lookup-Computes_example =
    pathname_lookup-Computes fs disk-IsWhole 9 a [] 2 ((refl, tt), tt) (unfold path_of in refl)
      root_Leads start start-IsFaithful

-- A hash that keeps the text, and whose digest is the text.
abbrev pub plain : Sha (List ℕ)
plain = record { init = some []; update = λ ctx xs. some (ctx ++ xs); final = λ ctx. some ctx }

plain-IsStreaming : IsStreaming plain
unfolding Option.bind
plain-IsStreaming = record {
  update-[] = λ ctx. ap some (append-nil ctx);
  update-++ = λ ctx xs ys. ap some (append_assoc ctx xs ys);
}

abbrev pub text : List ℕ
text = b'x' ∷ b'y' ∷ b'z' ∷ []

file_has_text : file_bytes disk file (inode_getsize file) 0 ≡ some text
unfolding file_bytes inode_getsize Option.bind valid_bytes disksim_readsector
file_has_text = refl

chksumfile_byinumber-Computes_example :
    Yields disk (chksumfile_byinumber plain fs 2 9 start) (digest plain text)
chksumfile_byinumber-Computes_example =
    chksumfile_byinumber-Computes plain plain-IsStreaming fs disk-IsWhole file 2 9 text
      file_is_stored refl file_has_text start start-IsFaithful

text_is_bytes : All (λ x. x < 256) text
text_is_bytes = ground arith
