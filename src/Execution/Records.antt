-- ===== src/Execution/Records.antt =====
-- The parts of a workflow of apps/api/src/services/trade-execution-service.ts that write rows:
-- `persistFills`, `updatePositionFromFills`, `writePortfolioSnapshot`, `ensureDayStartSnapshot`,
-- `assertPaperExecutionAllowed`, and the result that every workflow returns.
use text.Mathlib.Text.{◌==◌ as str_eq}
use mt5_ai_trading.Prelude.{
  ℕ, Bool, true, not, Option, none, some, List, [], ◌∷◌, String, or_default, coalesce, is_some,
  if◌then◌else◌,
}
use mt5_ai_trading.Numeric.{Decimal}
use mt5_ai_trading.Domain.{
  TradeProposal, Execution, Order, Fill, Position, FillEvent, FillType, Side, PortfolioSnapshot,
}
use mt5_ai_trading.Store.{
  Action, Engine, AuditLog, AuditData, position_accounting, execution_blocked, kill_switch,
  trading_mode, pure, throw, gets, of_reply, throw_if, or_else, ◌>>=◌, ◌>>◌,
  find_order_by_execution, order_fills, Db, find_fill_by_broker_fill_id, create_fill,
  find_position_by_symbol_for_update, find_open_positions, upsert_position, PositionData,
  create_snapshot, find_latest_snapshot_before, has_snapshot_on_or_after, get_trading_mode,
  get_trading_kill_switch_enabled, get_initial_paper_cash_usd,
}
use mt5_ai_trading.Execution.Accounting.{
  money, PositionAccountingState, PositionAccountingResult, calculate_position_accounting,
}
use mt5_ai_trading.Execution.Portfolio.{
  live_market_data, calculate_portfolio_pnl, start_of_utc_day, PortfolioPnl,
}

pub record ActorContext : Type 0 where
  pub actor_id : Option ℕ
  pub actor_email : String
  pub request_id : Option ℕ

module _ (D : Decimal) where
  pub record ExecutionWorkflowResult : Type 0 where
    pub proposal : TradeProposal D
    pub execution : Execution
    pub order : Option (Order D)
    pub fills : List (Fill D)
    pub position : Option (Position D)
    pub idempotent : Bool

module _ {D : Decimal} where
  abbrev pub audit :
      ActorContext → String → ℕ → String → Option (AuditData D) → Option (AuditData D) → AuditLog D
  audit actor event entity action before after = record {
    event_type = event;
    actor_id = actor.actor_id;
    actor_email = actor.actor_email;
    entity_type = "trade_proposal";
    entity_id = some entity;
    action = action;
    before_data = before;
    after_data = after;
    request_id = actor.request_id;
  }

  -- `order ? await findFillsByOrder(client, order.id) : []`
  abbrev pub fills_of : Option (Order D) → Db D → List (Fill D)
  fills_of none db = []
  fills_of (some o) db = order_fills o.id db

  -- `existingExecutionResult`
  unfoldable pub existing_execution_result :
      TradeProposal D → Execution → Action D (ExecutionWorkflowResult D)
  unfolding find_order_by_execution find_position_by_symbol_for_update
  existing_execution_result proposal execution = do
    order ← find_order_by_execution execution.id
    fills ← gets (λ w. fills_of order w.db)
    position ← find_position_by_symbol_for_update proposal.symbol
    pure (record {
      proposal = proposal;
      execution = execution;
      order = order;
      fills = fills;
      position = position;
      idempotent = true;
    })

  abbrev pub fill_type : FillEvent D → FillType
  fill_type f = if f.is_partial then FillType.partial else FillType.full

  -- One round of `persistFills`: a fill that the table has already is taken from there.
  unfoldable pub persist_fill : ℕ → FillEvent D → Action D (Fill D)
  unfolding find_fill_by_broker_fill_id create_fill
  persist_fill order_id f = do
    existing ← find_fill_by_broker_fill_id f.fill_id
    or_else existing
        (create_fill order_id f.quantity f.price f.fee (fill_type f) f.fill_id f.filled_at)

  unfoldable pub persist_fills : ℕ → List (FillEvent D) → Action D (List (Fill D))
  persist_fills order_id [] = pure []
  persist_fills order_id (f ∷ fs) = do
    x ← persist_fill order_id f
    xs ← persist_fills order_id fs
    pure (x ∷ xs)

  abbrev accounting_state : Position D → PositionAccountingState D
  accounting_state p = record {
    quantity = some p.quantity;
    average_entry_price = p.average_entry_price;
    realized_pnl = some p.realized_pnl;
    unrealized_pnl = some p.unrealized_pnl;
  }

  abbrev state_of : Option (Position D) → Option (PositionAccountingState D)
  state_of none = none
  state_of (some p) = some (accounting_state p)

  abbrev old_price : Option (Position D) → Option D.Text
  old_price none = none
  old_price (some p) = p.last_price

  abbrev old_price_at : Option (Position D) → Option ℕ
  old_price_at none = none
  old_price_at (some p) = p.last_price_at

  abbrev pub or_accounting_error : {A : Type 0} → Option A → Action D A
  or_accounting_error none = throw position_accounting
  or_accounting_error (some a) = pure a

  abbrev position_data :
      TradeProposal D → Option (Position D) → PositionAccountingResult D → ℕ → PositionData D
  position_data proposal existing a now = record {
    symbol = proposal.symbol;
    asset_class = proposal.asset_class;
    quantity = a.quantity;
    average_entry_price = a.average_entry_price;
    realized_pnl = a.realized_pnl;
    unrealized_pnl = a.unrealized_pnl;
    last_price = coalesce a.last_price (old_price existing);
    last_price_at = if is_some a.last_price then some now else old_price_at existing;
  }

  -- `updatePositionFromFills`; the side is given apart, since exits pass SELL for the proposal's.
  unfoldable pub update_position_from_fills :
      TradeProposal D → Side → List (FillEvent D) → Action D (Option (Position D))
  unfolding find_position_by_symbol_for_update upsert_position
  update_position_from_fills proposal side [] = find_position_by_symbol_for_update proposal.symbol
  update_position_from_fills proposal side (f ∷ fs) = do
    existing ← find_position_by_symbol_for_update proposal.symbol
    now ← gets (λ w. w.now)
    a ← or_accounting_error (calculate_position_accounting (state_of existing) side (f ∷ fs))
    p ← upsert_position (position_data proposal existing a now)
    pure (some p)

  abbrev equity_or : D.Text → Option (PortfolioSnapshot D) → D.Value
  equity_or fallback none = D.parse fallback
  equity_or fallback (some s) = D.parse s.portfolio_equity

  -- `getDayStartEquity`
  unfoldable pub get_day_start_equity : ℕ → D.Text → Action D D.Value
  unfolding find_latest_snapshot_before
  get_day_start_equity now fallback = do
    baseline ← find_latest_snapshot_before (start_of_utc_day now)
    pure (equity_or fallback baseline)

  unfoldable pub write_portfolio_snapshot : Engine D → String → Action D (Unit {0})
  unfolding find_open_positions get_initial_paper_cash_usd get_day_start_equity create_snapshot
  write_portfolio_snapshot E reason = do
    portfolio ← of_reply (E.paper_portfolio (← gets (λ w. w.calls)))
    open_positions ← find_open_positions
    market ← gets (λ w. live_market_data (E.market_snapshots w.calls))
    initial_cash ← get_initial_paper_cash_usd
    let initial = or_default initial_cash (D.literal 100_000)
    let pnl = calculate_portfolio_pnl initial portfolio.cash open_positions market.prices
    day_start ← get_day_start_equity (← gets (λ w. w.now)) initial
    create_snapshot (record {
      cash_balance = portfolio.cash;
      portfolio_equity = pnl.portfolio_equity;
      open_positions = open_positions;
      realized_pnl = pnl.realized_pnl;
      unrealized_pnl = pnl.unrealized_pnl;
      daily_pnl = money D (D.minus (D.parse pnl.portfolio_equity) day_start);
      snapshot_reason = reason;
    })
    pure tt

  -- `ensureDayStartSnapshot`, on the fields of the view that it stores
  unfoldable pub ensure_day_start_snapshot :
      D.Text → PortfolioPnl D → List (Position D) → Action D (Unit {0})
  unfolding has_snapshot_on_or_after create_snapshot start_of_utc_day
  ensure_day_start_snapshot cash view positions = do
    present ← has_snapshot_on_or_after (start_of_utc_day (← gets (λ w. w.now)))
    let create = create_snapshot (record {
      cash_balance = cash;
      portfolio_equity = view.portfolio_equity;
      open_positions = positions;
      realized_pnl = view.realized_pnl;
      unrealized_pnl = view.unrealized_pnl;
      daily_pnl = D.to_fixed 8 (D.of_nat 0);
      snapshot_reason = "DAY_OPEN";
    })
    if present then pure tt else (create >> pure tt)

  -- `assertPaperExecutionAllowed`
  unfoldable pub assert_paper_execution_allowed : Action D (Unit {0})
  unfolding get_trading_mode get_trading_kill_switch_enabled
  assert_paper_execution_allowed = do
    mode ← get_trading_mode
    throw_if (not (str_eq (or_default mode "PAPER") "PAPER")) (execution_blocked trading_mode)
    enabled ← get_trading_kill_switch_enabled
    throw_if (not (or_default enabled true)) (execution_blocked kill_switch)
