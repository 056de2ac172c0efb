-- ===== src/Abi/RoundTrip.antt =====
-- Every structure of the protocol is read back as it was written.
pub mod Control
pub mod Names
pub mod Files
pub mod Replies
pub mod OsxNames
pub mod OsxReplies
