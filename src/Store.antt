-- ===== src/Store.antt =====
-- The PostgreSQL tables, what the repositories (apps/api/src/db/repositories) do with them, and the
-- workflow monad: a workflow reads and writes the tables, calls the trading engine, and may throw.
mod State
pub mod Bind
pub mod Tables
pub mod Keeps
mod Executions
mod Orders
mod OpenPositions
mod Fills
mod Positions
mod Snapshots
mod Proposals
mod Approvals
mod Audit
unfoldable pub use State.*
unfoldable pub use Executions.*
unfoldable pub use Orders.*
unfoldable pub use OpenPositions.*
unfoldable pub use Fills.*
unfoldable pub use Positions.*
unfoldable pub use Snapshots.*
unfoldable pub use Proposals.*
unfoldable pub use Approvals.*
unfoldable pub use Audit.*
