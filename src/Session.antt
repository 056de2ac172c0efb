-- ===== src/Session.antt =====
-- src/session.rs: a session and its loop.
pub mod State
pub mod Run
pub mod Steps
pub mod Traffic
pub mod Count
pub mod Ends
pub mod Fixed
pub mod Live
pub mod Mount
pub mod Concurrent
