-- ===== src/Tests.antt =====
-- The theorems applied to concrete data.
pub mod Data
pub mod Scheduler
pub mod Rounds
pub mod Sweeping
pub mod Spending
pub mod Provider
pub mod Directing
pub mod Approving
pub mod Locks
pub mod Branches
pub mod Money
pub mod Budgeting
pub mod Ticking
pub mod Looping
pub mod Hooks
pub mod Deploying
pub mod Patching
