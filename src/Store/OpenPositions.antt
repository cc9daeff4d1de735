-- ===== src/Store/OpenPositions.antt =====
-- `findOpenIntradayPositions` and `findOpenHourlyPositions` of apps/api/src/db/repositories/orders.ts:
-- the filled BUY orders with no exit, joined with their executions and proposals.
use mt5_ai_trading.Prelude.{
  ◌&&◌, Option, List, [], ◌∷◌, ◌++◌, is_some, where_rows, if◌then◌else◌, ◌==◌,
}
use mt5_ai_trading.Numeric.{Decimal}
use mt5_ai_trading.Domain.{Order, Execution, TradeProposal, RiskSnapshot, PhaseSnapshot}
use mt5_ai_trading.Store.State.{Action, gets}
use mt5_ai_trading.Store.Orders.{OpenIntradayPosition, is_open_entry}

-- A phase of the risk snapshot: `p.risk_snapshot ? 'phase25'` tests that it is there.
abbrev pub Phase : Decimal → Type 0
Phase D = RiskSnapshot D → Option (PhaseSnapshot D)

module _ {D : Decimal} where
  abbrev open_position : Order D → TradeProposal D → OpenIntradayPosition D
  open_position o p = record {
    order_id = o.id;
    proposal_id = p.id;
    symbol = o.symbol;
    quantity = o.quantity;
    bracket_order_ids = o.bracket_order_ids;
    entered_at = o.created_at;
    risk_snapshot = p.risk_snapshot;
  }

  -- `JOIN trade_proposals p ON p.id = e.proposal_id`, with the test on the risk snapshot
  abbrev join_proposals :
      Phase D → Order D → Execution → List (TradeProposal D) → List (OpenIntradayPosition D)
  join_proposals phase o e [] = []
  join_proposals phase o e (p ∷ ps) =
      let rest = join_proposals phase o e ps in
      if◌then◌else◌ (p.id == e.proposal_id && is_some (phase p.risk_snapshot))
        (open_position o p ∷ rest) rest

  -- `JOIN executions e ON e.id = o.execution_id`
  abbrev join_executions :
      Phase D → Order D → List Execution → List (TradeProposal D) → List (OpenIntradayPosition D)
  join_executions phase o [] ps = []
  join_executions phase o (e ∷ es) ps =
      let rest = join_executions phase o es ps in
      if◌then◌else◌ (e.id == o.execution_id) (join_proposals phase o e ps ++ rest) rest

  abbrev join_orders :
      Phase D
      → List (Order D)
      → List Execution
      → List (TradeProposal D)
      → List (OpenIntradayPosition D)
  join_orders phase [] es ps = []
  join_orders phase (o ∷ os) es ps = join_executions phase o es ps ++ join_orders phase os es ps

  unfoldable pub find_open_positions_in : Phase D → Action D (List (OpenIntradayPosition D))
  find_open_positions_in phase = gets (λ w.
      join_orders phase (where_rows (is_open_entry w.db.orders) w.db.orders) w.db.executions
        w.db.proposals)

  unfoldable pub find_open_intraday_positions : Action D (List (OpenIntradayPosition D))
  unfolding find_open_positions_in
  find_open_intraday_positions = find_open_positions_in (λ s. s.phase25)

  unfoldable pub find_open_hourly_positions : Action D (List (OpenIntradayPosition D))
  unfolding find_open_positions_in
  find_open_hourly_positions = find_open_positions_in (λ s. s.phase27)
