-- ===== src/Request/RoundTrip.antt =====
-- The arm of an operation reads back what the kernel wrote.
pub mod Steps
pub mod Reads
pub mod Names
pub mod Files
pub mod Xattrs
pub mod OsxCalls
pub mod Flags
pub mod Changes
pub mod OsxChanges
pub mod Every
