-- ===== src/Pool.antt =====
-- src/pool.rs: the pool of browser instances, as a state that requests, the instances' managers and the
-- browsers themselves move by events. One event is what one task does between two of its awaits.
pub mod State
pub mod Steps
pub mod Permits
pub mod Seats
pub mod Token
pub mod Choice
pub mod Recycle
