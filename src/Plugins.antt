-- ===== src/Plugins.antt =====
-- How plugins reach the network: crates/plugins/src/network/limits.rs, network/cache.rs and rules.rs, with
-- the queues that host/http.rs asks for.
pub mod Texts
pub mod Scopes
pub mod Limits
pub mod Rules
pub mod Cache
pub mod Requests
mod Tests
