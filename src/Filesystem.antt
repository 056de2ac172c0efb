-- ===== src/Filesystem.antt =====
-- src/lib.rs: the data of a filesystem and the trait `Filesystem`.
pub mod Attributes
pub mod Calls
pub mod Trait
