-- ===== src/Workspace.antt =====
-- internal/sandbox/workspace_snapshot.go: snapshots of a workspace as copies of its tree of files.
pub mod Tree
pub mod Lookup
pub mod Sync
pub mod Walk
pub mod Stale
pub mod Mirror
pub mod Success
pub mod Conflict
pub mod Ordered
pub mod RoundTrip
