-- ===== src/Shadow.antt =====
-- The watcher of the shadow trades, apps/api/src/services/trading-ai/shadow-trade-watcher.ts, and
-- the rows that shadow-trade-service.ts gives it. The parameter `Decimal` stands here for JavaScript
-- numbers; NUMERIC columns hold finite ones.
mod Bars
mod Trades
mod Outcomes
mod Watcher
pub mod First
pub mod Level
pub mod Graph
pub mod Ticks
mod Tests
unfoldable pub use Bars.*
unfoldable pub use Trades.*
unfoldable pub use Outcomes.*
unfoldable pub use Watcher.*
