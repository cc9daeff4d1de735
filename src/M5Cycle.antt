-- ===== src/M5Cycle.antt =====
-- The trigger of the M5 cycles, apps/api/src/services/trading-ai/m5-cycle-scheduler.ts.
mod Scheduler
pub mod Once
pub mod Again
pub mod Overlap
mod Tests
unfoldable pub use Scheduler.*
