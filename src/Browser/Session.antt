-- ===== src/Browser/Session.antt =====
-- `capture` of src/browser/mod.rs: one capture as the commands that it sends to the browser and what it answers.
pub mod Commands
pub mod Poll
pub mod Format
pub mod Capture
pub mod Teardown
pub mod Guarded
