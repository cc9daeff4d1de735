-- ===== src/AiPlans.antt =====
-- The watcher of the AI trade plans, apps/api/src/services/trading-ai/ai-trade-plan-watcher.ts, with
-- plan-comment.ts. The parameter `Decimal` stands for JavaScript numbers.
mod Plans
mod Broker
mod Watcher
pub mod Evidence
pub mod Settle
pub mod Stuck
pub mod Unreachable
mod Tests
unfoldable pub use Plans.*
unfoldable pub use Broker.*
unfoldable pub use Watcher.*
