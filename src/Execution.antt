-- ===== src/Execution.antt =====
-- The execution of approved proposals, apps/api/src/services/trade-execution-service.ts.
pub mod Accounting
pub mod Portfolio
pub mod Messages
pub mod Records
pub mod Submit
pub mod Quiet
pub mod Safety
pub mod Outcome
pub mod Cancelled
pub mod Bounds
pub mod Exit
pub mod Exits
pub mod Session
pub mod Close
pub mod Reconcile
pub mod Ready
pub mod Failed
pub mod Repeat
mod BookTests
mod Tests
