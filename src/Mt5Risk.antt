-- ===== src/Mt5Risk.antt =====
-- The MT5 risk engine, apps/api/src/services/mt5-risk-engine.ts. A JavaScript number stands as the
-- decimal that it prints as.
mod Symbol
mod Sizing
mod Input
mod Engine
pub mod Pass
pub mod Tradable
pub mod Volume
mod Tests
unfoldable pub use Symbol.*
unfoldable pub use Sizing.*
unfoldable pub use Input.*
unfoldable pub use Engine.*
