-- ===== src/Abi.antt =====
-- src/fuse.rs: the structures, constants and operation codes of the kernel's protocol.
pub mod Consts
pub mod Opcode
pub mod Control
pub mod Names
pub mod Files
pub mod Replies
pub mod OsxNames
pub mod OsxReplies
pub mod RoundTrip
pub mod Exact
