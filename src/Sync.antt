-- ===== src/Sync.antt =====
-- es3/sync.cpp: the synchronizer.
pub mod Tree
pub mod Filter
pub mod Local
pub mod Merge
pub mod Delete
pub mod Upload
pub mod Download
pub mod Schedule
mod Tests
