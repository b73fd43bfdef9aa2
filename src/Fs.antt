-- ===== src/Fs.antt =====
-- The Unix V6 file system reader of assign2, with its sector cache.
pub mod Disk
pub mod Cache
pub mod Image
pub mod Inode
pub mod File
pub mod Directory
pub mod Pathname
pub mod Checksum
pub mod Fileops
pub mod Tests
