-- ===== src/Browser/Collect.antt =====
-- `collect_summary` and `collect_summary_lean` of src/browser/mod.rs: a page is loaded while the events of the
-- browser are drained, and what they carried becomes the snapshot.
pub mod State
pub mod Facts
pub mod Handlers
pub mod Lean
pub mod Loop
pub mod Sound
pub mod Finish
