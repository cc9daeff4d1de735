-- ===== src/Store/Positions.antt =====
-- apps/api/src/db/repositories/positions.ts. `ORDER BY symbol` is left out: rows come in order of
-- insertion.
use text.Mathlib.Text.{◌==◌ as str_eq}
use mt5_ai_trading.Prelude.{
  ℕ, Bool, not, Option, List, [], ◌∷◌, ◌++◌, String, find, where_rows, update_rows, is_some,
  if◌then◌else◌,
}
use mt5_ai_trading.Numeric.{Decimal, numeric_or_null}
use mt5_ai_trading.Domain.{Position, AssetClass}
use mt5_ai_trading.Store.State.{Db, Action, row, gets, modify_db, insert, ◌>>=◌, ◌>>◌}

module _ (D : Decimal) where
  pub record PositionData : Type 0 where
    pub symbol : String
    pub asset_class : AssetClass
    pub quantity : D.Text
    pub average_entry_price : Option D.Text
    pub realized_pnl : D.Text
    pub unrealized_pnl : D.Text
    pub last_price : Option D.Text
    pub last_price_at : Option ℕ

module _ {D : Decimal} where
  abbrev pub of_symbol : String → Position D → Bool
  of_symbol s p = str_eq p.symbol s

  unfoldable pub find_position_by_symbol_for_update : String → Action D (Option (Position D))
  find_position_by_symbol_for_update s = gets (λ w. find (of_symbol s) w.db.positions)

  unfoldable pub find_open_positions : Action D (List (Position D))
  find_open_positions =
      gets (λ w. where_rows (λ p. not (D.is_zero (D.parse p.quantity))) w.db.positions)

  abbrev pub new_position : PositionData D → ℕ → ℕ → Position D
  new_position x id now = record {
    id = id;
    symbol = x.symbol;
    asset_class = x.asset_class;
    quantity = D.numeric x.quantity;
    average_entry_price = numeric_or_null D x.average_entry_price;
    realized_pnl = D.numeric x.realized_pnl;
    unrealized_pnl = D.numeric x.unrealized_pnl;
    last_price = numeric_or_null D x.last_price;
    last_price_at = x.last_price_at;
    created_at = now;
    updated_at = now;
  }

  -- `ON CONFLICT (symbol) DO UPDATE`; the asset class stays.
  abbrev pub set_position : PositionData D → ℕ → Position D → Position D
  set_position x now p = record p {
    quantity = D.numeric x.quantity;
    average_entry_price = numeric_or_null D x.average_entry_price;
    realized_pnl = D.numeric x.realized_pnl;
    unrealized_pnl = D.numeric x.unrealized_pnl;
    last_price = numeric_or_null D x.last_price;
    last_price_at = x.last_price_at;
    updated_at = now;
  }

  abbrev pub add_position : Position D → Db D → Db D
  add_position p db = record db { positions = db.positions ++ p ∷ [] }

  abbrev pub put_positions : (Position D → Bool) → (Position D → Position D) → Db D → Db D
  put_positions t f db = record db { positions = update_rows t f db.positions }

  abbrev update_position : PositionData D → Action D (Position D)
  update_position x = do
    now ← gets (λ w. w.now)
    modify_db (put_positions (of_symbol x.symbol) (set_position x now))
    row (← gets (λ w. find (of_symbol x.symbol) w.db.positions))

  unfoldable pub upsert_position : PositionData D → Action D (Position D)
  upsert_position x = do
    existing ← gets (λ w. find (of_symbol x.symbol) w.db.positions)
    if is_some existing then update_position x else insert (new_position x) add_position
