-- ===== src/Plain/Tests.antt =====
-- The file system of assign1 and that of assign2 at work on one disk.
use cs.Prelude.{◌≡◌, refl, true, some, [], ◌∷◌}
use cs.Fs.Disk.{disksim_readsector}
use cs.Fs.Image.Computes.{Yields}
use cs.Fs.Inode.{decode_inode}
use cs.Fs.Pathname
use cs.Fs.Checksum
use cs.Fs.Tests.Store.{disk, disk-IsWhole, fs, start, start-IsFaithful, file}
use cs.Fs.Tests.Files.{a, plain}
use cs.Fs.Pathname.Tokens.{path_of}
use cs.Plain
use cs.Plain.Refinement.{pathname_lookup_refines}
use cs.Plain.Refinement.Digest.{chksumfile_bypathname_refines, optimized_chksumfile_byinode_refines}

pathname_lookup_refines_example :
    Yields disk
      (Pathname.pathname_lookup fs 9 (path_of (a ∷ [])) start)
      (Plain.pathname_lookup fs (path_of (a ∷ [])))
pathname_lookup_refines_example =
    pathname_lookup_refines fs disk-IsWhole 9 (path_of (a ∷ [])) start start-IsFaithful

chksumfile_bypathname_refines_example :
    Yields disk
      (Checksum.chksumfile_bypathname plain fs (path_of (a ∷ [])) 9 start)
      (Plain.chksumfile_bypathname fs plain (path_of (a ∷ [])))
chksumfile_bypathname_refines_example =
    chksumfile_bypathname_refines plain fs disk-IsWhole 9 (path_of (a ∷ [])) start start-IsFaithful

file_is_read : Plain.inode_iget fs 2 ≡ some file
unfolding Plain.inode_iget Plain.read_whole Plain.diskimg_readsector decode_inode disksim_readsector
    Plain.calculate_sector_index_from_inumber Plain.calculate_inode_offset_in_sector
file_is_read = refl

optimized_chksumfile_byinode_refines_example :
    Yields disk
      (Checksum.optimized_chksumfile_byinode plain fs 9 file true start)
      (Plain.chksumfile_byinumber fs plain 2)
optimized_chksumfile_byinode_refines_example =
    optimized_chksumfile_byinode_refines plain fs disk-IsWhole 9 2 file start file_is_read
      start-IsFaithful
