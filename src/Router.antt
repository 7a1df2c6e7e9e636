-- ===== src/Router.antt =====
-- server/internal/http/router.go.
pub mod Shell
pub mod Limits
pub mod Edit
pub mod Replies
pub mod Sandboxes
pub mod Creation
pub mod Changes
pub mod Paths
pub mod Tasks
pub mod Reads
pub mod Quality
pub mod Workflow
pub mod Guarded
