-- ===== src/Scanner.antt =====
-- The scanner's queue of work: crates/scanner/src/scope.rs, queue.rs, queue/request.rs and
-- queue/worker.rs, with the scans of scan/row.rs.
pub mod Paths
pub mod Scope
pub mod Coalesce
pub mod Scan
pub mod Requests
mod Tests
