-- ===== src/Tests.antt =====
-- Runs on concrete inputs, and each theorem of the header at one.
pub mod Fixtures
pub mod Sessions
pub mod Captures
pub mod Judgments
pub mod Backends
pub mod Requests
pub mod Client
pub mod Terminal
