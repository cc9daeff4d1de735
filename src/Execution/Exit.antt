-- ===== src/Execution/Exit.antt =====
-- `recordApprovedBracketExit` of apps/api/src/services/trade-execution-service.ts.
use mt5_ai_trading.Prelude.{ℕ, Bool, true, false, not, ◌&&◌, Option, none, some, [], ◌∷◌, is_some}
use mt5_ai_trading.Numeric.{Decimal}
use mt5_ai_trading.Domain.{
  TradeProposal, ProposalStatus, Execution, Order, OrderStatus, OrderType, Side, PhaseSnapshot, Leg,
  ExitReason, FillEvent, proposal_attempt,
}
use mt5_ai_trading.Store.{
  Action, Engine, not_found, invalid_transition, pure, or_throw, throw_if, with_transaction, ◌>>=◌,
  ◌>>◌, view, exit_recorded, is_buy, find_execution_by_idempotency_key, NewOrder, OrderUpdate,
  find_order_by_execution, create_order, update_order_status, find_proposal_by_id_for_update,
  find_fill_by_broker_fill_id, create_audit_log,
}
use mt5_ai_trading.Execution.Messages.{with_exit_text, proposal_snapshot}
use mt5_ai_trading.Execution.Records.{
  ActorContext, ExecutionWorkflowResult, audit, existing_execution_result, persist_fills,
  update_position_from_fills, write_portfolio_snapshot,
}

-- `BracketExitReason`
pub data BracketExitReason : Type 0 where
  take_profit stop_loss manual other : BracketExitReason

abbrev pub exit_reason_of : BracketExitReason → ExitReason
exit_reason_of BracketExitReason.take_profit = ExitReason.take_profit
exit_reason_of BracketExitReason.stop_loss = ExitReason.stop_loss
exit_reason_of BracketExitReason.manual = ExitReason.manual
exit_reason_of BracketExitReason.other = ExitReason.other

abbrev pub filled_leg : BracketExitReason → Leg
filled_leg BracketExitReason.take_profit = Leg.take_profit
filled_leg _ = Leg.stop_loss

abbrev pub cancelled_leg : BracketExitReason → Leg
cancelled_leg BracketExitReason.take_profit = Leg.stop_loss
cancelled_leg _ = Leg.take_profit

module _ {D : Decimal} where
  abbrev pub is_bracket_phase : Option (PhaseSnapshot D) → Bool
  is_bracket_phase none = false
  is_bracket_phase (some a) = a.is_bracket

  -- The proposals whose exits are recorded.
  abbrev pub has_phase22_bracket : TradeProposal D → Bool
  has_phase22_bracket p = is_buy p.side && is_bracket_phase p.risk_snapshot.phase22

  abbrev pub exit_order :
      TradeProposal D → Execution → Order D → BracketExitReason → FillEvent D → NewOrder D
  exit_order proposal execution order reason f = record {
    execution_id = execution.id;
    symbol = proposal.symbol;
    asset_class = proposal.asset_class;
    side = Side.sell;
    quantity = f.quantity;
    order_type = OrderType.market;
    limit_price = none;
    broker_order_id = some f.order_id;
    bracket_order_ids = record (order.bracket_order_ids) {
      cancelled_leg = some (cancelled_leg reason);
    };
  }

  abbrev pub exit_update : Order D → BracketExitReason → FillEvent D → OrderUpdate D
  exit_update order reason f = record {
    filled_quantity = some f.quantity;
    average_fill_price = some f.price;
    broker_order_id = some f.order_id;
    bracket_order_ids = some (record (order.bracket_order_ids) {
      filled_leg = some (filled_leg reason);
      cancelled_leg = some (cancelled_leg reason);
    });
    exit_reason = some (exit_reason_of reason);
  }

  -- The rows of a fill that is not stored yet.
  unfoldable pub record_exit :
      Engine D
      → ActorContext
      → TradeProposal D
      → Execution
      → Order D
      → BracketExitReason
      → FillEvent D
      → Action D (ExecutionWorkflowResult D)
  record_exit E actor proposal execution order reason f = do
    new_order ← create_order (exit_order proposal execution order reason f)
    fills ← persist_fills new_order.id (f ∷ [])
    updated_order ← update_order_status new_order.id OrderStatus.filled (exit_update order reason f)
    position ← update_position_from_fills proposal Side.sell (f ∷ [])
    write_portfolio_snapshot E (with_exit_text "BRACKET_EXIT_" (exit_reason_of reason))
    create_audit_log (
        audit actor "BRACKET_EXIT_RECONCILED" proposal.id
          (with_exit_text "RECORD_" (exit_reason_of reason))
          (some (view (proposal_snapshot proposal)))
          (some (exit_recorded (exit_reason_of reason) f)))
    pure (record {
      proposal = proposal;
      execution = execution;
      order = some updated_order;
      fills = fills;
      position = position;
      idempotent = false;
    })

  abbrev pub exit_unless :
      Engine D
      → ActorContext
      → TradeProposal D
      → Execution
      → Order D
      → BracketExitReason
      → FillEvent D
      → Bool
      → Action D (ExecutionWorkflowResult D)
  exit_unless E actor proposal execution order reason f true =
      existing_execution_result proposal execution
  exit_unless E actor proposal execution order reason f false =
      record_exit E actor proposal execution order reason f

  -- The exit of a bracket whose proposal, execution and parent order have been found.
  abbrev pub exit_guarded :
      Engine D
      → ActorContext
      → TradeProposal D
      → BracketExitReason
      → FillEvent D
      → Execution
      → Order D
      → Action D (ExecutionWorkflowResult D)
  exit_guarded E actor proposal reason f execution order = do
    throw_if (not (has_phase22_bracket proposal))
        (invalid_transition proposal.status ProposalStatus.filled)
    existing_fill ← find_fill_by_broker_fill_id f.fill_id
    exit_unless E actor proposal execution order reason f (is_some existing_fill)

  abbrev pub exit_of_execution :
      Engine D
      → ActorContext
      → TradeProposal D
      → BracketExitReason
      → FillEvent D
      → Execution
      → Action D (ExecutionWorkflowResult D)
  exit_of_execution E actor proposal reason f execution = do
    order ← find_order_by_execution execution.id
    parent ← or_throw order (not_found "Bracket parent order not found")
    exit_guarded E actor proposal reason f execution parent

  abbrev pub exit_of_proposal :
      Engine D
      → ActorContext
      → BracketExitReason
      → FillEvent D
      → TradeProposal D
      → Action D (ExecutionWorkflowResult D)
  exit_of_proposal E actor reason f proposal = do
    execution ← find_execution_by_idempotency_key (proposal_attempt proposal.id)
    known ← or_throw execution (not_found "Trade execution not found")
    exit_of_execution E actor proposal reason f known

  unfoldable pub exit_body :
      Engine D
      → ℕ
      → BracketExitReason
      → FillEvent D
      → ActorContext
      → Action D (ExecutionWorkflowResult D)
  exit_body E id reason f actor = do
    found ← find_proposal_by_id_for_update id
    proposal ← or_throw found (not_found "Trade proposal not found")
    exit_of_proposal E actor reason f proposal

  -- `recordApprovedBracketExit`
  unfoldable pub record_approved_bracket_exit :
      Engine D
      → ℕ
      → BracketExitReason
      → FillEvent D
      → ActorContext
      → Action D (ExecutionWorkflowResult D)
  unfolding exit_body with_transaction
  record_approved_bracket_exit E id reason f actor =
      with_transaction (exit_body E id reason f actor)
