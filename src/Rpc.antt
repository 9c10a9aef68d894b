-- ===== src/Rpc.antt =====
-- explorer/public_checks.py: read-only acceptance of the upstream RPC endpoints.
pub mod Calls
pub mod Failure
pub mod Read
pub mod Chain
pub mod Trace
pub mod Preflight
pub mod Guard
pub mod Safety
pub mod ReadOnly
pub mod Report
pub mod Errors
pub mod Tests
