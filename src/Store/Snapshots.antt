-- ===== src/Store/Snapshots.antt =====
-- apps/api/src/db/repositories/portfolio-snapshots.ts. The latest of the rows is the last inserted
-- of those with the greatest `created_at`.
use mt5_ai_trading.Prelude.{
  ℕ, Bool, Option, none, some, List, [], ◌∷◌, ◌++◌, String, any, where_rows, ltb, leb,
  if◌then◌else◌,
}
use mt5_ai_trading.Numeric.{Decimal}
use mt5_ai_trading.Domain.{PortfolioSnapshot, Position}
use mt5_ai_trading.Store.State.{Db, Action, gets, insert}

module _ (D : Decimal) where
  -- `pendingOrders` is `[]` in every call.
  pub record SnapshotData : Type 0 where
    pub cash_balance : D.Text
    pub portfolio_equity : D.Text
    pub open_positions : List (Position D)
    pub realized_pnl : D.Text
    pub unrealized_pnl : D.Text
    pub daily_pnl : D.Text
    pub snapshot_reason : String

module _ {D : Decimal} where
  abbrev later : Option (PortfolioSnapshot D) → PortfolioSnapshot D → PortfolioSnapshot D
  later none s = s
  later (some t) s = if leb s.created_at t.created_at then t else s

  -- `ORDER BY created_at DESC LIMIT 1`
  abbrev pub latest : List (PortfolioSnapshot D) → Option (PortfolioSnapshot D)
  latest [] = none
  latest (s ∷ r) = some (later (latest r) s)

  unfoldable pub find_latest_snapshot : Action D (Option (PortfolioSnapshot D))
  find_latest_snapshot = gets (λ w. latest w.db.snapshots)

  unfoldable pub find_latest_snapshot_before : ℕ → Action D (Option (PortfolioSnapshot D))
  find_latest_snapshot_before cutoff =
      gets (λ w. latest (where_rows (λ s. ltb s.created_at cutoff) w.db.snapshots))

  unfoldable pub has_snapshot_on_or_after : ℕ → Action D Bool
  has_snapshot_on_or_after cutoff = gets (λ w. any (λ s. leb cutoff s.created_at) w.db.snapshots)

  abbrev pub new_snapshot : SnapshotData D → ℕ → ℕ → PortfolioSnapshot D
  new_snapshot x id now = record {
    id = id;
    cash_balance = D.numeric x.cash_balance;
    portfolio_equity = D.numeric x.portfolio_equity;
    open_positions = x.open_positions;
    realized_pnl = D.numeric x.realized_pnl;
    unrealized_pnl = D.numeric x.unrealized_pnl;
    daily_pnl = D.numeric x.daily_pnl;
    snapshot_reason = x.snapshot_reason;
    created_at = now;
  }

  abbrev pub add_snapshot : PortfolioSnapshot D → Db D → Db D
  add_snapshot s db = record db { snapshots = db.snapshots ++ s ∷ [] }

  unfoldable pub create_snapshot : SnapshotData D → Action D (PortfolioSnapshot D)
  create_snapshot x = insert (new_snapshot x) add_snapshot
