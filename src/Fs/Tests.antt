-- ===== src/Fs/Tests.antt =====
-- The file system of assign2 at work, on a disk with one directory and one file.
mod Caches
pub mod Descriptors
pub mod Files
pub mod Store
