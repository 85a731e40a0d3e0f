-- ===== src/Shell.antt =====
-- The pure functions of src/shell.cpp.
pub mod Tokenize
pub mod Vars
pub mod Distance
pub mod Namespace
pub mod Commands
pub mod Permissions
pub mod State
pub mod Json
pub mod Exec
pub mod Schemas
pub mod Listing
pub mod Builtins
pub mod Index
