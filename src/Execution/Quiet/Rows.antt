-- ===== src/Execution/Quiet/Rows.antt =====
-- The parts of `executeApprovedProposal` that stand before and after its request, as quiet steps.
use mt5_ai_trading.Prelude.{ℕ, Option, none, some, List, [], ◌∷◌, String}
use mt5_ai_trading.Numeric.{Decimal}
use mt5_ai_trading.Domain.{
  TradeProposal, Execution, FillEvent, Side, OrderResult, ProposalStatus, Order, Bracket,
}
use mt5_ai_trading.Store.{
  Engine, find_fill_by_broker_fill_id, find_position_by_symbol_for_update, find_open_positions,
  get_initial_paper_cash_usd, find_latest_snapshot_before, create_snapshot, get_trading_mode,
  get_trading_kill_switch_enabled, find_order_by_execution,
}
use mt5_ai_trading.Execution.Records.{
  ActorContext, persist_fill, persist_fills, update_position_from_fills, write_portfolio_snapshot,
  assert_paper_execution_allowed, existing_execution_result, get_day_start_equity,
  or_accounting_error,
}
use mt5_ai_trading.Execution.Submit.{
  find_settled, reject_expired, check_submission, prepare_submission, settle_proposal,
  update_proposal_status_after_submission, record_submission, record_failure, audit_bracket,
}
use mt5_ai_trading.Execution.Quiet.{IsQuiet, store_steps}

module _ {D : Decimal} where
  persist_fill-IsQuiet : (o : ℕ) (f : FillEvent D) → IsQuiet (persist_fill o f)
  unfolding persist_fill find_fill_by_broker_fill_id
  persist_fill-IsQuiet o f = search store_steps depth 12

  pub persist_fills-IsQuiet : (o : ℕ) (fs : List (FillEvent D)) → IsQuiet (persist_fills o fs)
  unfolding persist_fills
  persist_fills-IsQuiet o [] = search store_steps
  persist_fills-IsQuiet o (f ∷ fs) =
      search (store_steps, persist_fill-IsQuiet o f, persist_fills-IsQuiet o fs) depth 8

  or_accounting_error-IsQuiet :
      {A : Type 0} (o : Option A) → IsQuiet {A = A} (or_accounting_error {D = D} o)
  or_accounting_error-IsQuiet none = search store_steps
  or_accounting_error-IsQuiet (some a) = search store_steps

  pub update_position_from_fills-IsQuiet :
      (p : TradeProposal D) (s : Side) (fs : List (FillEvent D))
      → IsQuiet (update_position_from_fills p s fs)
  unfolding update_position_from_fills find_position_by_symbol_for_update
  update_position_from_fills-IsQuiet p s [] = search store_steps
  update_position_from_fills-IsQuiet p s (f ∷ fs) =
      search (store_steps, or_accounting_error-IsQuiet) depth 12

  pub write_portfolio_snapshot-IsQuiet :
      (E : Engine D) (reason : String) → IsQuiet (write_portfolio_snapshot E reason)
  unfolding write_portfolio_snapshot find_open_positions get_initial_paper_cash_usd
      get_day_start_equity find_latest_snapshot_before create_snapshot
  write_portfolio_snapshot-IsQuiet E reason = search store_steps depth 24

  assert_paper_execution_allowed-IsQuiet : IsQuiet {D = D} assert_paper_execution_allowed
  unfolding assert_paper_execution_allowed get_trading_mode get_trading_kill_switch_enabled
  assert_paper_execution_allowed-IsQuiet = search store_steps depth 12

  reject_expired-IsQuiet : (p : TradeProposal D) → IsQuiet (reject_expired p)
  unfolding reject_expired
  reject_expired-IsQuiet p = search store_steps depth 12

  pub find_settled-IsQuiet : (e : Option Execution) → IsQuiet {D = D} (find_settled e)
  unfolding find_settled find_order_by_execution
  find_settled-IsQuiet none = search store_steps
  find_settled-IsQuiet (some e) = search store_steps depth 8

  pub existing_execution_result-IsQuiet :
      (p : TradeProposal D) (e : Execution) → IsQuiet (existing_execution_result p e)
  unfolding existing_execution_result find_order_by_execution find_position_by_symbol_for_update
  existing_execution_result-IsQuiet p e = search store_steps depth 12

  pub prepare_submission-IsQuiet :
      (p : TradeProposal D) (e : Option Execution) → IsQuiet (prepare_submission p e)
  unfolding prepare_submission check_submission
  prepare_submission-IsQuiet p e =
      search (store_steps, reject_expired-IsQuiet, assert_paper_execution_allowed-IsQuiet) depth 24

  update_proposal_status_after_submission-IsQuiet :
      (p : TradeProposal D) (s : ProposalStatus)
      → IsQuiet (update_proposal_status_after_submission p s)
  unfolding update_proposal_status_after_submission
  update_proposal_status_after_submission-IsQuiet p s = search store_steps depth 12

  settle_proposal-IsQuiet :
      (p : TradeProposal D) (r : OrderResult D) → IsQuiet (settle_proposal p r)
  unfolding settle_proposal
  settle_proposal-IsQuiet p r =
      search (store_steps, update_proposal_status_after_submission-IsQuiet) depth 12

  audit_bracket-IsQuiet :
      (a : ActorContext) (p : TradeProposal D) (o : Order D) (r : OrderResult D)
      (b : Option (Bracket D))
      → IsQuiet (audit_bracket a p o r b)
  audit_bracket-IsQuiet a p o r none = search store_steps
  audit_bracket-IsQuiet a p o r (some b) = search store_steps

  ruleset record_steps = (
    store_steps, persist_fills-IsQuiet, update_position_from_fills-IsQuiet,
    write_portfolio_snapshot-IsQuiet, settle_proposal-IsQuiet, audit_bracket-IsQuiet,
  )

  pub record_submission-IsQuiet :
      (E : Engine D) (a : ActorContext) (p : TradeProposal D) (e : Execution) (s : TradeProposal D)
      (r : OrderResult D)
      → IsQuiet (record_submission E a p e s r)
  unfolding record_submission
  record_submission-IsQuiet E a p e s r = search record_steps depth 40

  pub record_failure-IsQuiet :
      (a : ActorContext) (p : TradeProposal D) (e : Execution) (s : TradeProposal D) (m : String)
      → IsQuiet (record_failure a p e s m)
  unfolding record_failure find_order_by_execution find_position_by_symbol_for_update
  record_failure-IsQuiet a p e s m = search record_steps depth 30
