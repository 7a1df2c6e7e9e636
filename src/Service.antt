-- ===== src/Service.antt =====
-- server/internal/sandbox/service.go: the methods of the service as actions on a world.
pub mod Types
pub mod Effects
pub mod Expand
pub mod Events
pub mod Access
pub mod Memory
pub mod Execs
pub mod Pool
pub mod Mounts
pub mod Snapshots
pub mod Cleanup
pub mod Webhooks
pub mod History
