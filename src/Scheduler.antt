-- ===== src/Scheduler.antt =====
-- The scheduler (internal/scheduler).
pub mod Annotated
pub mod Types
pub mod Jobs
pub mod Service
mod Tests
