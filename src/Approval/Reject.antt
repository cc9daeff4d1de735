-- ===== src/Approval/Reject.antt =====
-- `rejectProposal` of apps/api/src/services/trade-proposal-service.ts.
use mt5_ai_trading.Prelude.{ℕ, false, Option, none, some, String}
use mt5_ai_trading.Numeric.{Decimal}
use mt5_ai_trading.Domain.{TradeProposal, ProposalStatus, ApprovalAction}
use mt5_ai_trading.Lifecycle.{assert_valid_proposal_transition}
use mt5_ai_trading.Store.{
  Action, not_found, whole, whole_reason, pure, gets, or_throw, with_transaction, ◌>>=◌, ◌>>◌,
  find_proposal_by_id_for_update, update_proposal_status, find_approval_by_proposal_and_request_id,
  create_approval, create_audit_log,
}
use mt5_ai_trading.Execution.Records.{ActorContext, audit}
use mt5_ai_trading.Approval.Decide.{
  ApprovalWorkflowResult, rejected_times, check_pending, unless_decided, with_ids,
}

module _ {D : Decimal} where
  unfoldable pub record_rejection :
      ActorContext → ℕ → ℕ → Option String → TradeProposal D → Action D (ApprovalWorkflowResult D)
  record_rejection actor request approver reason p = do
    approval ← create_approval p.id approver ApprovalAction.reject reason request
    assert_valid_proposal_transition p.status ProposalStatus.owner_rejected
    now ← gets (λ w. w.now)
    rejected ← update_proposal_status p.id ProposalStatus.owner_rejected (rejected_times now)
    create_audit_log (
        audit actor "TRADE_PROPOSAL_REJECTED" rejected.id "REJECT_TRADE_PROPOSAL" (some (whole p))
          (some (whole_reason rejected reason)))
    pure (record {
      proposal = rejected;
      approval = approval;
      risk_check = none;
      risk_result = none;
      idempotent = false;
    })

  abbrev pub reject_new :
      ActorContext → ℕ → ℕ → Option String → TradeProposal D → Action D (ApprovalWorkflowResult D)
  reject_new actor request approver reason p =
      check_pending ProposalStatus.owner_rejected p
      >> record_rejection actor request approver reason p

  abbrev pub reject_found :
      ActorContext → ℕ → ℕ → Option String → TradeProposal D → Action D (ApprovalWorkflowResult D)
  reject_found actor request approver reason p =
      find_approval_by_proposal_and_request_id p.id request
      >>= unless_decided p (reject_new actor request approver reason p)

  unfoldable pub reject_body :
      ℕ → Option String → ActorContext → ℕ → ℕ → Action D (ApprovalWorkflowResult D)
  reject_body id reason actor request approver = do
    found ← find_proposal_by_id_for_update id
    proposal ← or_throw found (not_found "Trade proposal not found")
    reject_found actor request approver reason proposal

  -- `rejectProposal`
  unfoldable pub reject_proposal :
      ℕ → Option String → ActorContext → Action D (ApprovalWorkflowResult D)
  unfolding reject_body with_transaction
  reject_proposal id reason actor =
      with_ids (reject_body id reason actor) actor.request_id actor.actor_id
