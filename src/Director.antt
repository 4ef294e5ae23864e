-- ===== src/Director.antt =====
-- The Director, which proposes work and carries out its decisions (src/director).
pub mod Types
pub mod Decisions
pub mod Executor
pub mod Approval
pub mod ActiveTick
pub mod Budget
pub mod Retrospective
pub mod Dedup
pub mod Tick
pub mod Service
