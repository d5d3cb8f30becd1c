-- ===== src/Proxy.antt =====
-- src/proxy.rs: the decisions on the request path.
pub mod Path
pub mod Plan
pub mod Inflight
pub mod Admission
pub mod Shared
pub mod Headers
pub mod Bodies
pub mod Handle
pub mod Harvest
pub mod Relay
pub mod Listing
pub mod Walk
pub mod Stream
mod Examples
