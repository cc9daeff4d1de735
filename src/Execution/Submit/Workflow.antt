-- ===== src/Execution/Submit/Workflow.antt =====
-- `executeApprovedProposal`: its guards, its request and its rows in the order of the code.
use mt5_ai_trading.Prelude.{ℕ, Option, none, some}
use mt5_ai_trading.Numeric.{Decimal}
use mt5_ai_trading.Domain.{TradeProposal, ProposalStatus, Execution, OrderResult, proposal_attempt}
use mt5_ai_trading.Lifecycle.{assert_valid_proposal_transition}
use mt5_ai_trading.Store.{
  Action, Engine, Reply, replied, failed, not_found, submit, pure, gets, or_throw, or_else, call,
  with_transaction, ◌>>=◌, ◌>>◌, find_execution_by_idempotency_key, create_execution,
  find_proposal_by_id_for_update, update_proposal_status, no_times,
}
use mt5_ai_trading.Execution.Messages.{entry_request}
use mt5_ai_trading.Execution.Records.{
  ActorContext, ExecutionWorkflowResult, existing_execution_result,
}
use mt5_ai_trading.Execution.Submit.Guards.{find_settled, check_submission}
use mt5_ai_trading.Execution.Submit.Rows.{record_submission, record_failure}

module _ {D : Decimal} where
  abbrev pub prepared :
      TradeProposal D → Option Execution → Unit {0} → Action D (Execution × TradeProposal D)
  prepared proposal existing _ = do
    execution ← or_else existing (create_execution proposal.id (proposal_attempt proposal.id) 1)
    assert_valid_proposal_transition proposal.status ProposalStatus.submitting
    submitting ← update_proposal_status proposal.id ProposalStatus.submitting no_times
    pure (execution, submitting)

  -- What is done before the request: the guards, the execution's row and SUBMITTING.
  unfoldable pub prepare_submission :
      TradeProposal D → Option Execution → Action D (Execution × TradeProposal D)
  prepare_submission proposal existing = check_submission proposal >>= prepared proposal existing

  abbrev pub record_reply :
      Engine D
      → ActorContext
      → TradeProposal D
      → Execution
      → TradeProposal D
      → Reply (OrderResult D)
      → Action D (ExecutionWorkflowResult D)
  record_reply E actor proposal execution submitting (replied r) =
      record_submission E actor proposal execution submitting r
  record_reply E actor proposal execution submitting (failed message) =
      record_failure actor proposal execution submitting message

  unfoldable pub submit_proposal :
      Engine D
      → ActorContext
      → TradeProposal D
      → Execution × TradeProposal D
      → Action D (ExecutionWorkflowResult D)
  submit_proposal E actor proposal (execution, submitting) = do
    calls ← gets (λ w. w.calls)
    call (submit (entry_request proposal))
    record_reply E actor proposal execution submitting
        (E.submit_order calls (entry_request proposal))

  abbrev pub execute_found :
      Engine D
      → ActorContext
      → TradeProposal D
      → Option Execution
      → Option Execution
      → Action D (ExecutionWorkflowResult D)
  execute_found E actor proposal existing (some e) = existing_execution_result proposal e
  execute_found E actor proposal existing none =
      prepare_submission proposal existing >>= submit_proposal E actor proposal

  abbrev pub execute_known :
      Engine D → ℕ → ActorContext → TradeProposal D → Action D (ExecutionWorkflowResult D)
  execute_known E id actor proposal = do
    existing ← find_execution_by_idempotency_key (proposal_attempt id)
    settled ← find_settled existing
    execute_found E actor proposal existing settled

  unfoldable pub execute_body : Engine D → ℕ → ActorContext → Action D (ExecutionWorkflowResult D)
  execute_body E id actor = do
    found ← find_proposal_by_id_for_update id
    proposal ← or_throw found (not_found "Trade proposal not found")
    execute_known E id actor proposal

  -- `executeApprovedProposal`
  unfoldable pub execute_approved_proposal :
      Engine D → ℕ → ActorContext → Action D (ExecutionWorkflowResult D)
  unfolding execute_body with_transaction
  execute_approved_proposal E id actor = with_transaction (execute_body E id actor)
