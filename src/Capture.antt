-- ===== src/Capture.antt =====
-- src/capture.rs: the capture engine that the HTTP layer, the job store and the worker share.
pub mod Query
pub mod Request
pub mod Engine
pub mod Safety
pub mod Lean
pub mod Batch
pub mod Cookies
