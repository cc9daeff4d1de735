-- ===== src/Domain.antt =====
-- The entities of the database, apps/api/src/db/types.ts, and the messages exchanged with the
-- trading engine, apps/api/src/services/trading-engine-client.ts. Identifiers (UUIDs, broker ids,
-- request ids) are only compared, so they are numbers; a Date is its milliseconds.
mod Status
mod Rows
mod Broker
pub use Status.*
pub use Rows.*
pub use Broker.*
