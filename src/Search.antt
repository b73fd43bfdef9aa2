-- ===== src/Search.antt =====
-- The search program: assign2/index.c, pathstore.c, scan.c and disksearch.c.
pub mod Outcome
pub mod Index
pub mod Words
pub mod Pathstore
pub mod Characters
pub mod Scan
pub mod Tree
pub mod Query
mod Tests
mod Walks
