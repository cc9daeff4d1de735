-- ===== src/Execution/Reconcile/Tests.antt =====
-- Runs of the polls on one open position.
use mt5_ai_trading.Prelude.{◌≡◌, refl, ◌↔◌, ◌⊎◌, false, true, none, some, [], ◌∷◌, length}
use mt5_ai_trading.Numeric.Whole.{pos, whole_numbers}
use mt5_ai_trading.Domain.{
  AssetClass, Side, OrderType, OrderStatus, ProposalStatus, ExecutionStatus, ExitReason,
  TradeProposal, Order, Position, PhaseSnapshot, OrderResult,
}
use mt5_ai_trading.Store.{
  World, ok, OpenIntradayPosition, no_bracket_ids, find_execution_by_idempotency_key,
  find_orders_by_execution, create_order, update_order_status, create_fill,
  find_fill_by_broker_fill_id, find_proposal_by_id_for_update, find_position_by_symbol_for_update,
  upsert_position, find_open_positions, get_initial_paper_cash_usd, find_latest_snapshot_before,
  create_snapshot, create_audit_log, with_transaction,
}
use mt5_ai_trading.Execution.Accounting.{
  calculate_position_accounting, account_fills, account_fill, opening_books,
}
use mt5_ai_trading.Execution.Records.{
  persist_fill, persist_fills, update_position_from_fills, write_portfolio_snapshot,
  get_day_start_equity,
}
use mt5_ai_trading.Execution.Session.{Horizon, settings_at, exit_due, is_force_closed}
use mt5_ai_trading.Execution.Close.{
  close_position, close_body, send_close, submit_close, record_close, record_close_effects,
}
use mt5_ai_trading.Execution.Reconcile.{reconcile_time_exits, reconcile_bracket_orders}
use mt5_ai_trading.Execution.Reconcile.Bounds.{IsBalanced, open_list, time_exit_counts}
use mt5_ai_trading.Execution.Reconcile.Due.{IsTradingTime, IsWithinLimit, exit_due-none}
use mt5_ai_trading.Execution.Reconcile.Trace.{Adds, time_exits_sent}
use mt5_ai_trading.Execution.Reconcile.Once.{close_once}
use mt5_ai_trading.Execution.Reconcile.Brackets.{bracket_poll_asks}
use mt5_ai_trading.Examples.{
  no_snapshot, proposal_in, execution_in, tables, fill_of, filling_engine, failing_engine,
  order_result, owner,
}

abbrev intraday_phase : PhaseSnapshot whole_numbers
intraday_phase = record {
  is_bracket = true;
  stop_loss = some (pos 15);
  take_profit = some (pos 25);
  fee_bps = none;
  max_holding = some 30;
  force_close_enabled = none;
}

abbrev intraday_proposal : TradeProposal whole_numbers
intraday_proposal = record (proposal_in ProposalStatus.filled) {
  risk_snapshot = record no_snapshot { phase25 = some intraday_phase };
}

abbrev open_entry : Order whole_numbers
open_entry = record {
  id = 6;
  execution_id = 2;
  broker_order_id = some 11;
  symbol = "ACME";
  asset_class = AssetClass.stock;
  side = Side.buy;
  quantity = pos 3;
  order_type = OrderType.market;
  limit_price = none;
  status = OrderStatus.filled;
  filled_quantity = pos 3;
  average_fill_price = some (pos 20);
  bracket_order_ids = record no_bracket_ids { take_profit = some 12; stop_loss = some 13 };
  exit_reason = none;
  created_at = 30;
  updated_at = 30;
}

abbrev held : Position whole_numbers
held = record {
  id = 5;
  symbol = "ACME";
  asset_class = AssetClass.stock;
  quantity = pos 3;
  average_entry_price = some (pos 20);
  realized_pnl = pos 0;
  unrealized_pnl = pos 0;
  last_price = some (pos 20);
  last_price_at = some 30;
  created_at = 30;
  updated_at = 30;
}

-- Half an hour after the entry, before the market opens.
abbrev held_world : World whole_numbers
held_world = record {
  db = record (tables ProposalStatus.filled (execution_in ExecutionStatus.filled ∷ [])) {
    proposals = intraday_proposal ∷ [];
    orders = open_entry ∷ [];
    positions = held ∷ [];
    next_id = 20;
  };
  calls = [];
  now = 1_800_030;
}

abbrev held_position : OpenIntradayPosition whole_numbers
held_position = record {
  order_id = 6;
  proposal_id = 1;
  symbol = "ACME";
  quantity = pos 3;
  bracket_order_ids = open_entry.bracket_order_ids;
  entered_at = 30;
  risk_snapshot = intraday_proposal.risk_snapshot;
}

time_exit_counts_example :
    IsBalanced (reconcile_time_exits filling_engine Horizon.intraday owner none held_world).0
    × ((reconcile_time_exits filling_engine Horizon.intraday owner none held_world).0.checked
        ≡ length (open_list Horizon.intraday held_world))
time_exit_counts_example = time_exit_counts filling_engine Horizon.intraday owner none held_world

time_exits_sent_example :
    Adds Horizon.intraday
      (settings_at Horizon.intraday held_world)
      1_800_030
      (open_list Horizon.intraday held_world)
      held_world
      (reconcile_time_exits filling_engine Horizon.intraday owner none held_world).1
time_exits_sent_example = time_exits_sent filling_engine Horizon.intraday owner none held_world

bracket_poll_asks_example : (reconcile_bracket_orders filling_engine owner held_world).1.calls ≡ []
bracket_poll_asks_example = bracket_poll_asks filling_engine owner held_world

exit_due-none_example :
    (exit_due Horizon.intraday (settings_at Horizon.intraday held_world) 1_800_029 held_position
      ≡ none)
    ↔ (IsWithinLimit Horizon.intraday
          (settings_at Horizon.intraday held_world)
          1_800_029
          held_position
        × ((is_force_closed Horizon.intraday held_position ≡ false)
            ⊎ IsTradingTime (settings_at Horizon.intraday held_world) 1_800_029))
exit_due-none_example =
    exit_due-none Horizon.intraday (settings_at Horizon.intraday held_world) 1_800_029 held_position

-- At the holding limit the position is due.
due_at_limit :
    exit_due Horizon.intraday (settings_at Horizon.intraday held_world) 1_800_030 held_position
    ≡ some ExitReason.max_holding_time
unfolding exit_due
due_at_limit = refl

abbrev closed_answer : OrderResult whole_numbers
closed_answer = order_result OrderStatus.filled (fill_of 8 3 20 ∷ [])

-- The broker's fills are those of a position of three shares.
abbrev closed_world : World whole_numbers
closed_world =
    let q =
      close_position filling_engine Horizon.intraday held_position ExitReason.max_holding_time owner
        none held_world in
    q.1

closes :
    close_position filling_engine Horizon.intraday held_position ExitReason.max_holding_time owner
      none held_world
    ≡ (ok tt, closed_world)
unfolding close_position close_body with_transaction send_close submit_close record_close
    record_close_effects find_execution_by_idempotency_key find_orders_by_execution create_order
    update_order_status persist_fills persist_fill create_fill find_fill_by_broker_fill_id
    find_proposal_by_id_for_update update_position_from_fills find_position_by_symbol_for_update
    upsert_position write_portfolio_snapshot find_open_positions get_initial_paper_cash_usd
    get_day_start_equity find_latest_snapshot_before create_snapshot create_audit_log
    calculate_position_accounting account_fills account_fill opening_books
closes = refl

close_once_example :
    close_position failing_engine Horizon.intraday held_position ExitReason.end_of_day owner none
      closed_world
    ≡ (ok tt, closed_world)
close_once_example =
    close_once filling_engine failing_engine Horizon.intraday Horizon.intraday held_position
      held_position ExitReason.max_holding_time ExitReason.end_of_day owner owner none none
      held_world closed_world (execution_in ExecutionStatus.filled) closed_answer refl refl refl
      closes refl
