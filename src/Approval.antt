-- ===== src/Approval.antt =====
-- The owner's decision on a proposal: `cancelProposal`, `approveProposal` and `rejectProposal` of
-- apps/api/src/services/trade-proposal-service.ts.
pub mod Risk
pub mod Decide
pub mod Cancel
pub mod Reject
pub mod Late
pub mod Run
pub mod Halt
pub mod Stored
pub mod Status
mod Tests
