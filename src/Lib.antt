-- ===== src/Lib.antt =====
-- Verification of three assignments of cs110_2014: the shell tsh (assign3), the Unix V6 file system
-- reader (assign1), and the reader with a sector cache and the search program over it (assign2).
--
-- The shell. A command line goes through the parser to `eval`, which runs a builtin or forks a child,
-- enters it in the job table and, for a foreground job, waits until the table has none in the
-- foreground; the signal handlers change the same table.
--   Tsh/Jobs.antt      assign3/tsh-jobs.c, tsh-jobs.h, tsh-constants.h: `JobTable` is the array `jobs`
--                      with `nextJobID`; add_job is addJob, delete_job is deleteJob, get_job_by_pid is
--                      getJobByPID, and so on.
--   Tsh/Parse.antt     assign3/tsh-parse.c: parse_line is parseLine, and `Scan` the variables of its loop.
--   Tsh/Kernel.antt    what the kernel is asked for and reports; `Shell` is the shell's own state.
--   Tsh/Signals.antt   assign3/tsh.c: the handlers, waitfg, closeRedirectedFdsIfAny, killAllJobs.
--   Tsh/Builtins.antt  assign3/tsh.c: ishandleBuiltin up to handleBuiltin.
--   Tsh/Eval.antt      assign3/tsh.c: the child, eval and the loop of main.
--
-- The file system. A path name is looked up through directories, whose blocks are found through inodes;
-- every block is a sector that comes from the cache or from the disk, and a checksum hashes the blocks.
--   Fs/Disk.antt       assign2/disksim.c: reading a sector.
--   Fs/Cache.antt      assign2/cachemem.c: `Cache` is the module's region of memory and its flags.
--   Fs/Image.antt      assign2/diskimg.c: reads through the cache; `Image` holds the cache and counters.
--   Fs/Inode.antt      assign2/assign1/inode.c, ino.h, filsys.h, unixfilesystem.c.
--   Fs/File.antt       assign2/assign1/file.c.
--   Fs/Directory.antt  assign2/assign1/directory.c, direntv6.h.
--   Fs/Pathname.antt   assign2/assign1/pathname.c.
--   Fs/Checksum.antt   assign2/assign1/chksumfile.c.
--   Fs/Fileops.antt    assign2/fileops.c: `Files` is the table of open files with the image below it;
--                      Fs/Fileops/Read.antt has Fileops_getchar and Fileops_read.
-- What the disk holds is said apart from the code's loops: Fs/File/Contents.antt has the bytes of a file
-- by their positions, and Fs/Directory/Entries.antt the entries and names in a directory's bytes.
-- The reader of assign1, which keeps no state, is what the reader of assign2 is held against.
--   Plain.antt         assign1/diskimg.c, unixfilesystem.c, inode.c, file.c, directory.c, pathname.c and
--                      chksumfile.c.
--
-- The search program. A scanned file is first put into the path store, unless one with the same content
-- is there, then opened and read by characters, and each of its words is stored in the index.
--   Search/Outcome.antt    a run that is done, that fails an assertion or is out of fuel.
--   Search/Index.antt      assign2/index.c: `Index` holds the hash table and the heap of its entries.
--   Search/Words.antt      isalpha and the words of a text, which Search/Words/Positions.antt describes.
--   Search/Pathstore.antt  assign2/pathstore.c: `Pathstore` is the list of elements and the counters.
--   Search/Scan.antt       assign2/scan.c: scan_file is Scan_File, `Scanner` what it changes.
--   Search/Tree.antt       assign2/scan.c: scan_tree_and_index is Scan_TreeAndIndex.
--   Search/Query.antt      assign2/disksearch.c: BuildDiskIndex, QueryWord and what asks for words.
-- The modules below these are named for what they prove; those under Tests run the code.
--
-- How the code is modelled. Numbers that the code never makes negative are natural numbers; -1 and NULL
-- are `none`. The kernel (fork, exec, open, kill), the disk image (lseek, read), mmap, malloc and
-- OpenSSL's SHA-1 and hash table are parameters; the memory of a list item and of a word's copy is
-- taken to be there. Characters are their codes. Where an inode's address is a key of the
-- cache it is an argument. Memory that `mmap` gives holds zeros.
-- Signals are delivered where SIGCHLD is unblocked and while the shell waits; a `Schedule` says which.
-- A shell that waits with nothing more to be delivered is the result `waiting`, a NULL pointer that is
-- followed is `fault`. `atoi` has no upper bound, and the buffers of 1024 bytes for a command line none,
-- since `fgets` keeps a line within them. SIGINT, SIGTSTP and SIGQUIT are delivered only at these points.
--
-- Bounds. The loop of parse_line runs on fuel, the length of the command line plus one: each round uses
-- up a character or ends the loop. The loops of Scan_File and IsSameFile over characters run on fuel,
-- which suffices when it is more than the bytes that are left in the file. The walk over the directories
-- has a depth as fuel, which the 64 places of the table of open files bound. The loops over tables,
-- blocks and entries are structural. A sector has 512 bytes, and the hash of the cache is taken modulo
-- 2 ^ 64.
--
-- Not modelled: the options, prompt and start of tsh; writing to a disk image, its opening and closing;
-- the options and timing of disksearch and the tool diskimageaccess; the statistics that are printed;
-- the two messages of addJob; the assignments in C++ (assign4 to assign8); the starter files and lecture
-- examples.
pub mod Prelude
pub mod Tsh
pub mod Fs
pub mod Plain
pub mod Search
