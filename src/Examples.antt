-- ===== src/Examples.antt =====
-- The theorems at concrete inputs, and the concrete network, pool and browser that they use.
pub mod Network
pub mod Captures
pub mod Stores
pub mod Pools
pub mod Workers
pub mod Queues
pub mod Serve
pub mod Reports
pub mod Pages
pub mod Timed
