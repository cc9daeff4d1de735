-- ===== src/Examples.antt =====
-- Rows, engines and worlds at which the theorems are tried, with whole numbers for decimals.
use mt5_ai_trading.Prelude.{ℕ, true, false, none, some, List, [], ◌∷◌}
use mt5_ai_trading.Numeric.Whole.{pos, whole_numbers}
use mt5_ai_trading.Domain.{
  AssetClass, Side, OrderType, ProposalStatus, ExecutionStatus, OrderStatus, TradeProposal,
  Execution, RiskSnapshot, FillEvent, OrderResult, proposal_attempt,
}
use mt5_ai_trading.Store.{Db, World, Engine, SessionRows, replied, failed}
use mt5_ai_trading.Execution.Records.{ActorContext}

abbrev pub no_snapshot : RiskSnapshot whole_numbers
no_snapshot = record { phase22 = none; phase25 = none; phase26 = none; phase27 = none }

-- An order for three shares, which expires at 100.
abbrev pub proposal_in : ProposalStatus → TradeProposal whole_numbers
proposal_in s = record {
  id = 1;
  signal_id = 1;
  strategy_id = 1;
  symbol = "ACME";
  asset_class = AssetClass.stock;
  side = Side.buy;
  quantity = pos 3;
  order_type = OrderType.market;
  reference_price = pos 20;
  limit_price = none;
  estimated_notional = pos 60;
  risk_check_id = none;
  risk_snapshot = no_snapshot;
  status = s;
  created_at = 10;
  pending_approval_at = some 10;
  expires_at = 100;
  approved_at = some 20;
  rejected_at = none;
  filled_at = none;
  updated_at = 20;
}

abbrev pub execution_in : ExecutionStatus → Execution
execution_in s = record {
  id = 2;
  proposal_id = 1;
  idempotency_key = proposal_attempt 1;
  broker_order_id = none;
  status = s;
  attempt_number = 1;
  error_message = none;
  created_at = 30;
  submitted_at = none;
  completed_at = none;
  updated_at = 30;
}

abbrev pub no_session_rows : SessionRows
no_session_rows = record {
  max_holding = none;
  market_open = none;
  market_close = none;
  no_new_trades_minutes_before_close = none;
  force_close_before_close_minutes = none;
  force_close_enabled = none;
}

abbrev pub tables : ProposalStatus → List Execution → Db whole_numbers
tables s es = record {
  proposals = proposal_in s ∷ [];
  approvals = [];
  risk_checks = [];
  executions = es;
  orders = [];
  fills = [];
  positions = [];
  snapshots = [];
  audit_logs = [];
  settings = record {
    trading_mode = none;
    trading_kill_switch_enabled = some true;
    initial_paper_cash_usd = some (pos 1000);
    phase25 = no_session_rows;
    phase27 = no_session_rows;
  };
  next_id = 3;
}

abbrev pub world_at : ℕ → ProposalStatus → List Execution → World whole_numbers
world_at now s es = record { db = tables s es; calls = []; now = now }

abbrev pub order_result : OrderStatus → List (FillEvent whole_numbers) → OrderResult whole_numbers
order_result s fills = record {
  broker_order_id = 7;
  status = s;
  fills = fills;
  bracket_order_ids = none;
  rejected_reason = none;
  error_message = none;
}

abbrev pub fill_of : ℕ → ℕ → ℕ → FillEvent whole_numbers
fill_of id quantity price = record {
  order_id = 7;
  fill_id = id;
  quantity = pos quantity;
  price = pos price;
  fee = pos 1;
  is_partial = false;
  filled_at = 40;
}

-- An engine that gives the same answer to every order.
abbrev pub engine_with : OrderResult whole_numbers → Engine whole_numbers
engine_with r = record {
  submit_order = λ calls request. replied r;
  get_order = λ calls id. replied (some r);
  paper_portfolio = λ calls. replied (record { cash = pos 940; positions = [] });
  market_snapshots = λ calls. replied [];
}

abbrev pub filling_engine : Engine whole_numbers
filling_engine = engine_with (order_result OrderStatus.filled (fill_of 8 3 20 ∷ []))

abbrev pub cancelling_engine : Engine whole_numbers
cancelling_engine = engine_with (order_result OrderStatus.cancelled [])

-- An engine that is out of reach for orders.
abbrev pub failing_engine : Engine whole_numbers
failing_engine = record {
  submit_order = λ calls request. failed "fetch failed";
  get_order = λ calls id. failed "fetch failed";
  paper_portfolio = λ calls. failed "fetch failed";
  market_snapshots = λ calls. failed "fetch failed";
}

abbrev pub owner : ActorContext
owner = record { actor_id = some 5; actor_email = "owner@localhost"; request_id = none }

abbrev pub approved_world : World whole_numbers
approved_world = world_at 50 ProposalStatus.approved []

abbrev pub repeated_world : World whole_numbers
repeated_world = world_at 50 ProposalStatus.filled (execution_in ExecutionStatus.filled ∷ [])

abbrev pub late_world : World whole_numbers
late_world = world_at 100 ProposalStatus.approved []
