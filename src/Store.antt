-- ===== src/Store.antt =====
-- internal/store/sqlite/store.go: the tables and the queries that the service makes. A query is an
-- action on the tables; one that is several statements is a transaction, and changes nothing if it fails.
pub mod Schema
pub mod Sandboxes
pub mod Mounts
pub mod Snapshots
pub mod Execs
pub mod Pool
pub mod Webhooks
pub mod Sequences
pub mod Images
pub mod Paging
pub mod Walk
pub mod Counters
pub mod Acquire
pub mod Integrity
