-- ===== src/Store/Fills.antt =====
-- apps/api/src/db/repositories/fills.ts, the unique index on `broker_fill_id` and the checks that
-- quantity and price are positive and the fee is not negative.
use mt5_ai_trading.Prelude.{
  ℕ, Bool, false, not, ◌||◌, Option, none, some, List, [], ◌∷◌, ◌++◌, any, find, where_rows, ◌==◌,
}
use mt5_ai_trading.Numeric.{Decimal}
use mt5_ai_trading.Domain.{Fill, FillType}
use mt5_ai_trading.Store.State.{
  Db, Action, gets, throw_if, insert, unique_violation, check_violation, ◌>>=◌, ◌>>◌,
}

abbrev pub is_broker_id : ℕ → Option ℕ → Bool
is_broker_id k none = false
is_broker_id k (some b) = b == k

module _ {D : Decimal} where
  -- `SELECT … WHERE order_id = $1 ORDER BY filled_at`, in order of insertion
  abbrev pub order_fills : ℕ → Db D → List (Fill D)
  order_fills id db = where_rows (λ f. f.order_id == id) db.fills

  unfoldable pub find_fills_by_order : ℕ → Action D (List (Fill D))
  find_fills_by_order id = gets (λ w. order_fills id w.db)

  abbrev pub has_fill_id : ℕ → Fill D → Bool
  has_fill_id k f = is_broker_id k f.broker_fill_id

  unfoldable pub find_fill_by_broker_fill_id : ℕ → Action D (Option (Fill D))
  find_fill_by_broker_fill_id k = gets (λ w. find (has_fill_id k) w.db.fills)

  abbrev pub new_fill : ℕ → D.Text → D.Text → D.Text → FillType → ℕ → ℕ → ℕ → ℕ → Fill D
  new_fill order_id quantity price fee fill_type broker_fill_id filled_at id now = record {
    id = id;
    order_id = order_id;
    quantity = D.numeric quantity;
    price = D.numeric price;
    fee = D.numeric fee;
    fill_type = fill_type;
    broker_fill_id = some broker_fill_id;
    filled_at = filled_at;
  }

  abbrev pub add_fill : Fill D → Db D → Db D
  add_fill f db = record db { fills = db.fills ++ f ∷ [] }

  -- Both callers give a broker id and a time.
  unfoldable pub create_fill : ℕ → D.Text → D.Text → D.Text → FillType → ℕ → ℕ → Action D (Fill D)
  create_fill order_id quantity price fee fill_type broker_fill_id filled_at = do
    throw_if
        (not (D.gt (D.parse quantity) (D.of_nat 0))
          || not (D.gt (D.parse price) (D.of_nat 0))
          || not (D.lte (D.of_nat 0) (D.parse fee)))
        check_violation
    throw_if (← gets (λ w. any (has_fill_id broker_fill_id) w.db.fills)) unique_violation
    insert (new_fill order_id quantity price fee fill_type broker_fill_id filled_at) add_fill
