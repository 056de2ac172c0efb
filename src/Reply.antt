-- ===== src/Reply.antt =====
-- src/reply.rs: the objects that answer a request.
pub mod Raw
pub mod Kinds
pub mod Directory
pub mod Answer
pub mod Message
pub mod Once
pub mod Body
pub mod Listing
pub mod Capacity
