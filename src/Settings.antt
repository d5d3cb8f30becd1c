-- ===== src/Settings.antt =====
-- src/settings.rs: runtime edits of the configuration.
pub mod Store
pub mod Providers
pub mod Accounts
pub mod Outcome
pub mod Routing
pub mod Ownership
pub mod Sanity
mod Examples
