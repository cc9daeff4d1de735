-- ===== src/Execution/BookTests.antt =====
-- Runs of the accounting, of `persistFills` and of `recordApprovedBracketExit`.
use mt5_ai_trading.Prelude.{◌≡◌, refl, true, ◌⊎◌, none, some, List, [], ◌∷◌}
use mt5_ai_trading.Numeric.Whole.{pos, whole_numbers, whole_numbers-IsDecimal}
use mt5_ai_trading.Domain.{
  AssetClass, Side, OrderType, ProposalStatus, ExecutionStatus, OrderStatus, FillType,
  TradeProposal, Order, Fill, FillEvent, PhaseSnapshot,
}
use mt5_ai_trading.Store.{World, ok, no_bracket_ids, find_fill_by_broker_fill_id, create_fill}
use mt5_ai_trading.Execution.Accounting.{Books, account_fill, account_fills}
use mt5_ai_trading.Execution.Records.{persist_fill, persist_fills}
use mt5_ai_trading.Execution.Repeat.{persist_fills_again}
use mt5_ai_trading.Execution.Bounds.{
  IsNonnegative, IsOpen, IsClosed, account_fills-nonneg, account_buys, account_sells,
}
use mt5_ai_trading.Execution.Exit.{BracketExitReason, record_approved_bracket_exit}
use mt5_ai_trading.Execution.Exits.{Refuses, exit_again, exit_refused}
use mt5_ai_trading.Execution.Outcome.{stored_result}
use mt5_ai_trading.Examples.{
  repeated_world, no_snapshot, proposal_in, execution_in, tables, fill_of, filling_engine, owner,
}

abbrev sold : List (FillEvent whole_numbers)
sold = fill_of 9 2 25 ∷ []

abbrev held : Books whole_numbers
held = record {
  quantity = pos 3;
  average_entry_price = pos 20;
  realized_pnl = pos 0;
  last_price = none;
}

abbrev left_over : Books whole_numbers
left_over = record {
  quantity = pos 1;
  average_entry_price = pos 20;
  realized_pnl = pos 9;
  last_price = some (pos 25);
}

sold_as : account_fills Side.sell held sold ≡ some left_over
unfolding account_fills account_fill
sold_as = refl

account_fills-nonneg_example : IsNonnegative whole_numbers left_over.quantity
account_fills-nonneg_example =
    account_fills-nonneg whole_numbers-IsDecimal Side.sell sold held left_over refl refl
      ((refl, refl), tt) sold_as

account_sells_example :
    IsClosed left_over
    ⊎ (IsOpen left_over × (left_over.average_entry_price ≡ held.average_entry_price))
account_sells_example = account_sells sold held left_over refl (refl, tt) sold_as

account_buys_example :
    (c : Books whole_numbers) × (account_fills Side.buy held sold ≡ some c)
    × (c.realized_pnl ≡ held.realized_pnl)
account_buys_example = account_buys sold held

abbrev phase22_bracket : PhaseSnapshot whole_numbers
phase22_bracket = record {
  is_bracket = true;
  stop_loss = some (pos 15);
  take_profit = some (pos 25);
  fee_bps = none;
  max_holding = none;
  force_close_enabled = none;
}

abbrev bracket_proposal : TradeProposal whole_numbers
bracket_proposal = record (proposal_in ProposalStatus.filled) {
  risk_snapshot = record no_snapshot { phase22 = some phase22_bracket };
}

abbrev entry : Order whole_numbers
entry = record {
  id = 6;
  execution_id = 2;
  broker_order_id = some 7;
  symbol = "ACME";
  asset_class = AssetClass.stock;
  side = Side.buy;
  quantity = pos 3;
  order_type = OrderType.market;
  limit_price = none;
  status = OrderStatus.filled;
  filled_quantity = pos 3;
  average_fill_price = some (pos 20);
  bracket_order_ids = no_bracket_ids;
  exit_reason = none;
  created_at = 30;
  updated_at = 30;
}

abbrev stored_fill : Fill whole_numbers
stored_fill = record {
  id = 10;
  order_id = 6;
  quantity = pos 3;
  price = pos 25;
  fee = pos 1;
  fill_type = FillType.full;
  broker_fill_id = some 9;
  filled_at = 40;
}

abbrev exited_world : World whole_numbers
exited_world = record {
  db = record (tables ProposalStatus.filled (execution_in ExecutionStatus.filled ∷ [])) {
    proposals = bracket_proposal ∷ [];
    orders = entry ∷ [];
    fills = stored_fill ∷ [];
  };
  calls = [];
  now = 60;
}

exit_again_example :
    record_approved_bracket_exit filling_engine 1 BracketExitReason.take_profit
      (fill_of 9 3 25)
      owner
      exited_world
    ≡ (
      ok (stored_result bracket_proposal (execution_in ExecutionStatus.filled) exited_world),
      exited_world,
    )
exit_again_example =
    exit_again filling_engine 1 BracketExitReason.take_profit (fill_of 9 3 25) owner exited_world
      bracket_proposal (execution_in ExecutionStatus.filled) entry stored_fill refl refl refl refl
      refl

exit_refused_example :
    Refuses
      (record_approved_bracket_exit filling_engine 1 BracketExitReason.stop_loss
        (fill_of 9 3 25)
        owner)
      repeated_world
exit_refused_example =
    exit_refused filling_engine 1 BracketExitReason.stop_loss (fill_of 9 3 25) owner repeated_world
      (proposal_in ProposalStatus.filled) refl refl

abbrev persisted : Fill whole_numbers
persisted = record {
  id = 3;
  order_id = 6;
  quantity = pos 2;
  price = pos 25;
  fee = pos 1;
  fill_type = FillType.full;
  broker_fill_id = some 9;
  filled_at = 40;
}

persists :
    persist_fills 6 sold repeated_world
    ≡ (ok (persisted ∷ []), (persist_fills 6 sold repeated_world).1)
unfolding persist_fills persist_fill find_fill_by_broker_fill_id create_fill
persists = refl

persist_fills_again_example :
    persist_fills 7 sold (persist_fills 6 sold repeated_world).1
    ≡ (ok (persisted ∷ []), (persist_fills 6 sold repeated_world).1)
persist_fills_again_example =
    persist_fills_again 6 7 sold repeated_world (persist_fills 6 sold repeated_world).1
      (persisted ∷ []) persists
