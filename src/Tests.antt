-- ===== src/Tests.antt =====
-- Each theorem at a concrete input.
pub mod Scans
pub mod Parts
pub mod Globals
pub mod Searches
pub mod Sorting
pub mod Operators
pub mod Options
pub mod Plans
pub mod ParallelScans
pub mod Blobs
pub mod SetUps
pub mod Creations
