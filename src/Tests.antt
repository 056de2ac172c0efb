-- ===== src/Tests.antt =====
-- Concrete runs, and the theorems at concrete inputs.
pub mod Data
mod Replies
mod Parsing
mod Requests
mod Sessions
mod Hello
mod Live
mod Mounting
mod Background
mod Threads
mod Repository
mod Building
