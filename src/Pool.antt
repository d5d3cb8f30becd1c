-- ===== src/Pool.antt =====
-- src/pool.rs: the limiter, the lane of one key, the pool of lanes and the sticky choice of a lane.
pub mod Window
pub mod Lane
pub mod Lanes
pub mod Affinity
mod Examples
