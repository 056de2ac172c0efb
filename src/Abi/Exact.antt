-- ===== src/Abi/Exact.antt =====
-- The structures of requests, and the bytes that they are read from.
pub mod Control
pub mod Names
pub mod Files
pub mod OsxNames
