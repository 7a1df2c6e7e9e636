-- ===== src/Tests.antt =====
-- Concrete stores, worlds and runs, and the theorems applied to them.
pub mod Data
pub mod Tables
pub mod Runs
pub mod Notices
pub mod Cursors
pub mod Doors
pub mod Refusals
pub mod Births
pub mod Trees
pub mod Routes
pub mod Hosts
