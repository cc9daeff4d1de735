-- ===== src/Hourly.antt =====
-- The hourly scheduler: apps/api/src/services/hourly-scheduler.ts on its table of claimed candles,
-- apps/api/src/db/repositories/hourly-candle-processing.ts.
mod Candles
mod Tick
pub mod Counts
pub mod Once
pub mod Latest
mod Tests
unfoldable pub use Candles.*
unfoldable pub use Tick.*
