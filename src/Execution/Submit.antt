-- ===== src/Execution/Submit.antt =====
-- `executeApprovedProposal` of apps/api/src/services/trade-execution-service.ts.
mod Guards
mod Rows
mod Workflow
unfoldable pub use Guards.*
unfoldable pub use Rows.*
unfoldable pub use Workflow.*
