-- ===== src/Tests.antt =====
-- Theorems at concrete inputs, and runs of the code.
pub mod Values
pub mod Names
pub mod Services
pub mod Endpoints
pub mod Fresh
pub mod Metrics
pub mod Requests
pub mod Retrying
pub mod Server
pub mod Snapshots
pub mod Control
pub mod Watching
pub mod Reconciling
pub mod Startup
