-- ===== src/Fs/Tests/Store.antt =====
-- A disk with a directory and a file, and a cache for it.
use cs.Prelude.{
  ℕ, ◌≡◌, refl, true, false, none, some, List, [], ◌∷◌, ◌++◌, ltb, ◌==◌, if◌then◌else◌, Bool-cases,
  inl, inr, length, take, replicate, length-take, length-append, length-replicate, arith,
}
use cs.Fs.Disk.{Disk, Buffer, IsWhole}
use cs.Fs.Cache.{fresh_cache, cache_mem_init}
use cs.Fs.Image.{Image}
use cs.Fs.Image.Computes.{IsFaithful}
use cs.Fs.Cache.Policies.{cache_mem_init-IsCoherent}
use cs.Fs.Inode.{Inode, UnixFilesystem}

-- A sector that begins with the bytes.
abbrev pub sector_of : List ℕ → Buffer
sector_of bytes = take 512 (bytes ++ replicate 512 0)

-- Inode 1 is a directory of 16 bytes in sector 4, and inode 2 is a file of 3 bytes in sector 5.
abbrev pub inodes : List ℕ
inodes =
    0 ∷ 192 ∷ 1 ∷ 0 ∷ 0 ∷ 0 ∷ 16 ∷ 0 ∷ 4 ∷ replicate 23 0
    ++ (0 ∷ 128 ∷ 1 ∷ 0 ∷ 0 ∷ 0 ∷ 3 ∷ 0 ∷ 5 ∷ replicate 23 0)

abbrev pub sectors : ℕ → List ℕ
sectors s =
    if s == 2
    then inodes
    else if s == 4
    then 2 ∷ 0 ∷ b'a' ∷ []
    else if s == 5
    then b'x' ∷ b'y' ∷ b'z' ∷ []
    else []

abbrev pub disk : Disk
disk = record {
  read = λ s. if ltb s 8 then some (sector_of (sectors s)) else none;
  stale = λ _. [];
}

pub disk-IsWhole : IsWhole disk
disk-IsWhole s bytes e = elim (Bool-cases (ltb s 8)) [
  | inl h ↦
      let long : length (sector_of (sectors s)) ≡ 512 = omega (
        arith,
        length-take 512 (sectors s ++ replicate 512 0),
        length-append (sectors s) (replicate 512 0),
        length-replicate {A = ℕ} 512 0,
      ) in
      ground (arith, h, long, e)
  | inr h ↦ ground (arith, h, e)
]

abbrev pub fs : UnixFilesystem
fs = record {
  dfd = disk;
  superblock = record {
    s_isize = 1;
    s_fsize = 8;
    s_nfree = 0;
    s_free = [];
    s_ninode = 0;
    s_inode = [];
    s_flock = 0;
    s_ilock = 0;
    s_fmod = 0;
    s_ronly = 0;
    s_time = [];
  };
}

-- A cache of 4 KB.
abbrev pub start : Image
start = record { cache = fresh_cache false 4; num_reads = 0; sim_reads = 0 }

pub start-IsFaithful : IsFaithful disk start
start-IsFaithful =
    cache_mem_init-IsCoherent _ true 4 (fresh_cache false 4) (unfold cache_mem_init in refl)

abbrev pub directory : Inode
directory = record {
  i_mode = 49152;
  i_nlink = 1;
  i_uid = 0;
  i_gid = 0;
  i_size0 = 0;
  i_size1 = 16;
  i_addr = 4 ∷ replicate 7 0;
  i_atime = 0 ∷ 0 ∷ [];
  i_mtime = 0 ∷ 0 ∷ [];
}

abbrev pub file : Inode
file = record directory { i_mode = 32768; i_size1 = 3; i_addr = 5 ∷ replicate 7 0 }
