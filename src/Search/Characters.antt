-- ===== src/Search/Characters.antt =====
-- The characters that are left of an open file, which the loops of assign2/pathstore.c and scan.c read.
use cs.Prelude.{ℕ, ◌+◌, ◌-◌, ◌≤◌, Option, none, some, ap, arith}
use cs.Fs.Inode.{UnixFilesystem, inode_getsize}
use cs.Fs.Fileops.{Files, slot}
use cs.Fs.Fileops.Read.{Char, char, end_of_file, aborted}
use cs.Fs.Fileops.Keeps.{IsRead}
use cs.Search.Outcome.{Ends}
use cs.Search.Pathstore.{checked_char}

-- The number of bytes from the cursor of a file to its end.
abbrev pub bytes_left : (fd : ℕ) → Files → ℕ
bytes_left fd st = inode_getsize (slot st fd).inode - (slot st fd).cursor

-- The number of characters from the one that was read last on.
abbrev pub chars_left : (fd : ℕ) → Option ℕ → Files → ℕ
chars_left fd none st = 0
chars_left fd (some c) st = bytes_left fd st + 1

pub checked_char-left :
    (fs : UnixFilesystem) (at : ℕ → ℕ) (fd : ℕ) (st : Files) (r : Char × Files)
    → IsRead fs at fd st r
    → Ends (λ (ch, st'). chars_left fd ch st' ≤ bytes_left fd st) (checked_char r)
checked_char-left fs at fd st (char c, st') (inside, moved, kept, named, others, long) =
    let size = ap inode_getsize kept in omega (arith, inside, moved, size)
checked_char-left fs at fd st (end_of_file, st') h = omega arith
checked_char-left fs at fd st (aborted, st') h = tt
