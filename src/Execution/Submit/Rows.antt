-- ===== src/Execution/Submit/Rows.antt =====
-- The rows that `executeApprovedProposal` leaves for the broker's answer and for a failed request.
use mt5_ai_trading.Prelude.{
  ℕ, false, Option, none, some, [], String, coalesce, is_some, if◌then◌else◌,
}
use mt5_ai_trading.Numeric.{Decimal}
use mt5_ai_trading.Domain.{
  TradeProposal, ProposalStatus, Execution, ExecutionStatus, Order, Bracket, BracketIds,
  BrokerBracketIds, OrderResult, same_status,
}
use mt5_ai_trading.Lifecycle.{assert_valid_proposal_transition}
use mt5_ai_trading.Store.{
  Action, Engine, pure, gets, ◌>>=◌, ◌>>◌, view, view_error, view_executed, bracket_created,
  update_execution_status, ExecutionUpdate, no_bracket_ids, NewOrder, OrderUpdate,
  find_order_by_execution, create_order, update_order_status, find_position_by_symbol_for_update,
  update_proposal_status, ProposalTimes, no_times, create_audit_log,
}
use mt5_ai_trading.Execution.Accounting.{filled_quantity, average_fill_price}
use mt5_ai_trading.Execution.Messages.{
  execution_status_from_broker, proposal_status_from_broker, is_complete, execution_reason,
  proposal_snapshot, bracket_from_proposal,
}
use mt5_ai_trading.Execution.Records.{
  ActorContext, ExecutionWorkflowResult, audit, persist_fills, update_position_from_fills,
  write_portfolio_snapshot,
}

abbrev bracket_ids : BrokerBracketIds → BracketIds
bracket_ids b = record no_bracket_ids {
  parent = b.parent;
  take_profit = b.take_profit;
  stop_loss = b.stop_loss;
}

abbrev given_ids : Option BrokerBracketIds → Option BracketIds
given_ids none = none
given_ids (some b) = some (bracket_ids b)

abbrev filled_times : ProposalStatus → ℕ → ProposalTimes
filled_times s now =
    if same_status s ProposalStatus.filled
    then record no_times { filled_at = some now }
    else no_times

abbrev pub failure_update : String → ExecutionUpdate
failure_update message = record {
  broker_order_id = none;
  error_message = some message;
  submitted_at = none;
  completed_at = none;
}

module _ {D : Decimal} where
  abbrev order_bracket_ids : TradeProposal D → OrderResult D → BracketIds
  order_bracket_ids proposal r = elim r.bracket_order_ids [
    | some b ↦ bracket_ids b
    | none ↦
        if is_some (bracket_from_proposal proposal)
        then record no_bracket_ids { parent = some r.broker_order_id }
        else no_bracket_ids
  ]

  abbrev entry_order : TradeProposal D → Execution → OrderResult D → NewOrder D
  entry_order proposal execution r = record {
    execution_id = execution.id;
    symbol = proposal.symbol;
    asset_class = proposal.asset_class;
    side = proposal.side;
    quantity = proposal.quantity;
    order_type = proposal.order_type;
    limit_price = proposal.limit_price;
    broker_order_id = some r.broker_order_id;
    bracket_order_ids = order_bracket_ids proposal r;
  }

  abbrev entry_order_update : OrderResult D → OrderUpdate D
  entry_order_update r = record {
    filled_quantity = some (filled_quantity r.fills);
    average_fill_price = average_fill_price r.fills;
    broker_order_id = some r.broker_order_id;
    bracket_order_ids = given_ids r.bracket_order_ids;
    exit_reason = none;
  }

  abbrev execution_update : OrderResult D → ℕ → ExecutionUpdate
  execution_update r now = record {
    broker_order_id = some r.broker_order_id;
    error_message = coalesce r.rejected_reason r.error_message;
    submitted_at = some now;
    completed_at = if is_complete (execution_status_from_broker r.status) then some now else none;
  }

  -- `updateProposalStatusAfterSubmission`
  unfoldable pub update_proposal_status_after_submission :
      TradeProposal D → ProposalStatus → Action D (TradeProposal D)
  update_proposal_status_after_submission submitted next = do
    assert_valid_proposal_transition submitted.status next
    now ← gets (λ w. w.now)
    update_proposal_status submitted.id next (filled_times next now)

  abbrev pub settled_as : TradeProposal D → ProposalStatus → Action D (TradeProposal D)
  settled_as submitted next =
      if same_status next ProposalStatus.submitted
      then pure submitted
      else update_proposal_status_after_submission submitted next

  abbrev pub mark : TradeProposal D → Action D (TradeProposal D)
  mark p = update_proposal_status p.id ProposalStatus.submitted no_times

  abbrev pub settle_marked : OrderResult D → TradeProposal D → Action D (TradeProposal D)
  settle_marked r submitted = settled_as submitted (proposal_status_from_broker r.status)

  abbrev pub mark_settled : TradeProposal D → OrderResult D → Action D (TradeProposal D)
  mark_settled submitting r = mark submitting >>= settle_marked r

  -- The status of the proposal once the broker has answered: SUBMITTED, then that of the answer.
  unfoldable pub settle_proposal : TradeProposal D → OrderResult D → Action D (TradeProposal D)
  settle_proposal submitting r =
      assert_valid_proposal_transition submitting.status ProposalStatus.submitted
      >> mark_settled submitting r

  abbrev pub audit_bracket :
      ActorContext
      → TradeProposal D
      → Order D
      → OrderResult D
      → Option (Bracket D)
      → Action D (Unit {0})
  audit_bracket actor proposal order r none = pure tt
  audit_bracket actor proposal order r (some b) = create_audit_log (
      audit actor "BRACKET_ORDER_CREATED" proposal.id "CREATE_BRACKET_ENTRY" none
        (some (bracket_created order.id r.broker_order_id b.stop_loss_price b.take_profit_price)))

  -- The rows that an accepted order leaves, in the order of the code.
  unfoldable pub record_submission :
      Engine D
      → ActorContext
      → TradeProposal D
      → Execution
      → TradeProposal D
      → OrderResult D
      → Action D (ExecutionWorkflowResult D)
  record_submission E actor proposal execution submitting r = do
    order ← create_order (entry_order proposal execution r)
    fills ← persist_fills order.id r.fills
    updated_order ← update_order_status order.id r.status (entry_order_update r)
    now ← gets (λ w. w.now)
    updated_execution ←
        update_execution_status execution.id (execution_status_from_broker r.status)
          (execution_update r now)
    final ← settle_proposal submitting r
    position ← update_position_from_fills proposal proposal.side r.fills
    write_portfolio_snapshot E (execution_reason (proposal_status_from_broker r.status))
    create_audit_log (
        audit actor "TRADE_EXECUTED" final.id "SUBMIT_PAPER_ORDER"
          (some (view (proposal_snapshot proposal)))
          (some (view_executed (proposal_snapshot final) updated_execution.id r.broker_order_id)))
    audit_bracket actor final updated_order r (bracket_from_proposal proposal)
    pure (record {
      proposal = final;
      execution = updated_execution;
      order = some updated_order;
      fills = fills;
      position = position;
      idempotent = false;
    })

  -- What a failed request leaves beside the two statuses.
  abbrev pub report_failure :
      ActorContext
      → TradeProposal D
      → Execution
      → String
      → Execution
      → TradeProposal D
      → Action D (ExecutionWorkflowResult D)
  report_failure actor proposal execution message failed_execution failed_proposal = do
    create_audit_log (
        audit actor "TRADE_EXECUTION_ERROR" failed_proposal.id "SUBMIT_PAPER_ORDER_FAILED"
          (some (view (proposal_snapshot proposal)))
          (some (view_error (proposal_snapshot failed_proposal) message)))
    order ← find_order_by_execution execution.id
    position ← find_position_by_symbol_for_update proposal.symbol
    pure (record {
      proposal = failed_proposal;
      execution = failed_execution;
      order = order;
      fills = [];
      position = position;
      idempotent = false;
    })

  abbrev pub mark_failed : TradeProposal D → Action D (TradeProposal D)
  mark_failed submitting =
      update_proposal_status submitting.id ProposalStatus.execution_error no_times

  abbrev pub fail_proposal :
      ActorContext
      → TradeProposal D
      → Execution
      → TradeProposal D
      → String
      → Execution
      → Action D (ExecutionWorkflowResult D)
  fail_proposal actor proposal execution submitting message failed_execution =
      assert_valid_proposal_transition submitting.status ProposalStatus.execution_error
      >> (mark_failed submitting
          >>= report_failure actor proposal execution message failed_execution)

  -- The rows that a failed request leaves.
  unfoldable pub record_failure :
      ActorContext
      → TradeProposal D
      → Execution
      → TradeProposal D
      → String
      → Action D (ExecutionWorkflowResult D)
  record_failure actor proposal execution submitting message =
      update_execution_status execution.id ExecutionStatus.error (failure_update message)
      >>= fail_proposal actor proposal execution submitting message
