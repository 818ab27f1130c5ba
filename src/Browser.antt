-- ===== src/Browser.antt =====
-- src/browser: the parts of the capture engine that are computed in Rust.
pub mod Intercept
pub mod Resource
pub mod Security
pub mod Analysis
pub mod Coverage
pub mod Summary
pub mod Collect
pub mod Session
