-- ===== src/Vfs.antt =====
-- include/neon/vfs.hpp and src/vfs.cpp.
pub mod Path
pub mod Tree
pub mod Walk
pub mod State
pub mod Files
pub mod Locks
pub mod Links
pub mod Metadata
pub mod Visit
pub mod Quota
pub mod Dump
pub mod Cache
pub mod Edits
pub mod Runs
pub mod Reports
