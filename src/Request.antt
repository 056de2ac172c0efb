-- ===== src/Request.antt =====
-- src/request.rs: a request of the kernel, read from the session's buffer and dispatched to the
-- filesystem.
pub mod Parse
pub mod Decode
pub mod Dispatch
pub mod Frame
pub mod Lifecycle
pub mod Phases
pub mod Guards
pub mod Forget
pub mod Arguments
pub mod Encode
pub mod RoundTrip
pub mod Serve
pub mod Short
pub mod Exact
pub mod Negotiate
pub mod Once
