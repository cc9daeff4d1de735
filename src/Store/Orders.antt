-- ===== src/Store/Orders.antt =====
-- apps/api/src/db/repositories/orders.ts, the UNIQUE constraint on `broker_order_id` and the check
-- that a quantity is positive. `ORDER BY created_at` is the order of insertion.
use mt5_ai_trading.Prelude.{
  ℕ, Bool, true, false, not, ◌&&◌, Option, none, some, List, [], ◌∷◌, ◌++◌, String, any, find,
  where_rows, update_rows, coalesce, or_default, is_some, if◌then◌else◌, ◌==◌,
}
use mt5_ai_trading.Numeric.{Decimal, numeric_or_null}
use mt5_ai_trading.Domain.{
  Order, OrderStatus, OrderType, AssetClass, Side, ExitReason, BracketIds, RiskSnapshot, Execution,
}
use mt5_ai_trading.Store.State.{
  Db, Action, row, gets, throw_if, modify_db, insert, unique_violation, check_violation, ◌>>=◌,
  ◌>>◌,
}

abbrev pub no_bracket_ids : BracketIds
no_bracket_ids = record {
  parent = none;
  take_profit = none;
  stop_loss = none;
  cancelled_leg = none;
  filled_leg = none;
  cancelled_take_profit = none;
  cancelled_stop_loss = none;
}

abbrev pub is_buy : Side → Bool
is_buy Side.buy = true
is_buy Side.sell = false

abbrev pub is_filled : OrderStatus → Bool
is_filled OrderStatus.filled = true
is_filled _ = false

abbrev same_broker_id : Option ℕ → Option ℕ → Bool
same_broker_id (some a) (some b) = a == b
same_broker_id _ _ = false

module _ (D : Decimal) where
  pub record NewOrder : Type 0 where
    pub execution_id : ℕ
    pub symbol : String
    pub asset_class : AssetClass
    pub side : Side
    pub quantity : D.Text
    pub order_type : OrderType
    pub limit_price : Option D.Text
    pub broker_order_id : Option ℕ
    pub bracket_order_ids : BracketIds

  pub record OrderUpdate : Type 0 where
    pub filled_quantity : Option D.Text
    pub average_fill_price : Option D.Text
    pub broker_order_id : Option ℕ
    pub bracket_order_ids : Option BracketIds
    pub exit_reason : Option ExitReason

  pub record OpenBracketOrder : Type 0 where
    pub order_id : ℕ
    pub proposal_id : ℕ
    pub symbol : String
    pub bracket_order_ids : BracketIds

  pub record OpenIntradayPosition : Type 0 where
    pub order_id : ℕ
    pub proposal_id : ℕ
    pub symbol : String
    pub quantity : D.Text
    pub bracket_order_ids : BracketIds
    pub entered_at : ℕ
    pub risk_snapshot : RiskSnapshot D

module _ {D : Decimal} where
  abbrev pub new_order : NewOrder D → ℕ → ℕ → Order D
  new_order o id now = record {
    id = id;
    execution_id = o.execution_id;
    broker_order_id = o.broker_order_id;
    symbol = o.symbol;
    asset_class = o.asset_class;
    side = o.side;
    quantity = D.numeric o.quantity;
    order_type = o.order_type;
    limit_price = numeric_or_null D o.limit_price;
    status = OrderStatus.pending;
    filled_quantity = D.literal 0;
    average_fill_price = none;
    bracket_order_ids = o.bracket_order_ids;
    exit_reason = none;
    created_at = now;
    updated_at = now;
  }

  abbrev pub set_order : OrderStatus → OrderUpdate D → ℕ → Order D → Order D
  set_order status u now o = record o {
    status = status;
    updated_at = now;
    filled_quantity = or_default (numeric_or_null D u.filled_quantity) o.filled_quantity;
    average_fill_price = coalesce (numeric_or_null D u.average_fill_price) o.average_fill_price;
    broker_order_id = coalesce u.broker_order_id o.broker_order_id;
    bracket_order_ids = or_default u.bracket_order_ids o.bracket_order_ids;
    exit_reason = coalesce u.exit_reason o.exit_reason;
  }

  abbrev pub of_execution : ℕ → Order D → Bool
  of_execution id o = o.execution_id == id

  unfoldable pub find_orders_by_execution : ℕ → Action D (List (Order D))
  find_orders_by_execution id = gets (λ w. where_rows (of_execution id) w.db.orders)

  unfoldable pub find_order_by_execution : ℕ → Action D (Option (Order D))
  find_order_by_execution id = gets (λ w. find (of_execution id) w.db.orders)

  abbrev pub add_order : Order D → Db D → Db D
  add_order o db = record db { orders = db.orders ++ o ∷ [] }

  unfoldable pub create_order : NewOrder D → Action D (Order D)
  create_order o = do
    throw_if (not (D.gt (D.parse o.quantity) (D.of_nat 0))) check_violation
    throw_if
        (← gets (λ w. any (λ x. same_broker_id x.broker_order_id o.broker_order_id) w.db.orders))
        unique_violation
    insert (new_order o) add_order

  abbrev pub put_orders : (Order D → Bool) → (Order D → Order D) → Db D → Db D
  put_orders p f db = record db { orders = update_rows p f db.orders }

  unfoldable pub update_order_status : ℕ → OrderStatus → OrderUpdate D → Action D (Order D)
  update_order_status id status u = do
    now ← gets (λ w. w.now)
    modify_db (put_orders (λ o. o.id == id) (set_order status u now))
    row (← gets (λ w. find (λ o. o.id == id) w.db.orders))

  -- `NOT EXISTS (SELECT 1 … WHERE x.execution_id = … AND x.exit_reason IS NOT NULL)`
  abbrev pub has_exit : ℕ → List (Order D) → Bool
  has_exit id orders = any (λ x. of_execution id x && is_some x.exit_reason) orders

  abbrev pub is_open_entry : List (Order D) → Order D → Bool
  is_open_entry orders o =
      is_buy o.side && is_filled o.status && not (has_exit o.execution_id orders)

  -- The rows of `orders o JOIN executions e` for one order.
  abbrev bracket_rows : Order D → List Execution → List (OpenBracketOrder D)
  bracket_rows o [] = []
  bracket_rows o (e ∷ es) =
      let rest = bracket_rows o es in
      if◌then◌else◌ (e.id == o.execution_id)
        (record {
          order_id = o.id;
          proposal_id = e.proposal_id;
          symbol = o.symbol;
          bracket_order_ids = o.bracket_order_ids;
        }
          ∷ rest)
        rest

  abbrev is_bracketed : Order D → Bool
  is_bracketed o = is_some o.bracket_order_ids.take_profit && is_some o.bracket_order_ids.stop_loss

  abbrev join_brackets : List (Order D) → List Execution → List (OpenBracketOrder D)
  join_brackets [] es = []
  join_brackets (o ∷ os) es = bracket_rows o es ++ join_brackets os es

  unfoldable pub find_open_bracket_orders : Action D (List (OpenBracketOrder D))
  find_open_bracket_orders = gets (λ w.
      join_brackets (where_rows (λ o. is_open_entry w.db.orders o && is_bracketed o) w.db.orders)
        w.db.executions)
