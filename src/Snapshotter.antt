-- ===== src/Snapshotter.antt =====
-- The server's state and its operations: xds/snapshotter.go. The definitions are in State, Nodes,
-- Snap and Handlers, the theorems in the other modules.
pub mod Library
pub mod State
pub mod Nodes
pub mod Snap
pub mod Handlers
pub mod Delta
pub mod Safe
pub mod Invariant
pub mod Preserve
pub mod Loops
pub mod Snapping
pub mod Once
pub mod Reach
pub mod Isolation
pub mod Full
pub mod Aggregate
pub mod Request
pub mod Welcome
pub mod Versions
pub mod Fresh
pub mod Matching
