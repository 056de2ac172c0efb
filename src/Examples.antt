-- ===== src/Examples.antt =====
-- The programs of examples/: two filesystems that use the library.
pub mod Null
pub mod Hello
pub mod Main
