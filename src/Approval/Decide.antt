-- ===== src/Approval/Decide.antt =====
-- `cancelProposal`, `approveProposal` and `rejectProposal` of
-- apps/api/src/services/trade-proposal-service.ts. A request id is `none` where the code finds it
-- missing or blank; addresses and user agents are not kept.
use mt5_ai_trading.Prelude.{
  ℕ, Bool, true, false, not, Option, none, some, [], ◌∷◌, ◌++◌, String, leb, if◌then◌else◌,
}
use mt5_ai_trading.Numeric.{Decimal}
use mt5_ai_trading.Domain.{
  TradeProposal, ProposalStatus, TradeApproval, ApprovalAction, RiskCheck, RiskCheckStage,
  RiskResult, same_status,
}
use mt5_ai_trading.Lifecycle.{assert_valid_proposal_transition}
use mt5_ai_trading.Store.{
  Action, Engine, AuditLog, validation, not_found, invalid_transition, whole, risk_completed, pure,
  throw, gets, or_throw, throw_if, with_transaction, ◌>>=◌, ◌>>◌, find_proposal_by_id_for_update,
  update_proposal_status, ProposalTimes, no_times, find_approval_by_proposal_and_request_id,
  create_approval, create_risk_check, RiskCheckData, create_audit_log,
}
use mt5_ai_trading.Execution.Records.{ActorContext, audit}
use mt5_ai_trading.Execution.Submit.{expire_proposal}
use mt5_ai_trading.Approval.Risk.{
  RiskDesk, RiskReply, controls_rule, phase_of, assess, maybe_auto_disable_kill_switch,
}

pub record ApprovalWorkflowResult (D : Decimal) : Type 0 where
  pub proposal : TradeProposal D
  pub approval : TradeApproval
  pub risk_check : Option RiskCheck
  pub risk_result : Option RiskReply
  pub idempotent : Bool

abbrev risk_action : RiskResult → String
risk_action RiskResult.pass = "RISK_CHECK_PASS_PRE_EXECUTION"
risk_action RiskResult.reject = "RISK_CHECK_REJECT_PRE_EXECUTION"

abbrev pub approved_times : ℕ → ProposalTimes
approved_times now = record no_times { approved_at = some now }

abbrev pub rejected_times : ℕ → ProposalTimes
rejected_times now = record no_times { rejected_at = some now }

module _ {D : Decimal} where
  -- `proposal.expiresAt <= now`
  abbrev pub is_late : ℕ → TradeProposal D → Bool
  is_late now p = leb p.expires_at now

  unfoldable pub reject_late : TradeProposal D → Action D (Unit {0})
  reject_late p = do now ← gets (λ w. w.now); if is_late now p then expire_proposal p else pure tt

  -- The guards of a decision that would set the status `target`.
  unfoldable pub check_pending : ProposalStatus → TradeProposal D → Action D (Unit {0})
  check_pending target p = do
    throw_if (not (same_status p.status ProposalStatus.pending_approval))
        (invalid_transition p.status target)
    reject_late p

  -- A decision that the table has already for this request.
  abbrev pub decided_before : TradeProposal D → TradeApproval → ApprovalWorkflowResult D
  decided_before p a = record {
    proposal = p;
    approval = a;
    risk_check = none;
    risk_result = none;
    idempotent = true;
  }

  abbrev pub risk_check_data : TradeProposal D → RiskReply → RiskCheckData
  risk_check_data p r = record {
    signal_id = some p.signal_id;
    proposal_id = some p.id;
    stage = RiskCheckStage.pre_execution;
    result = r.result;
    rules_checked = r.rules_checked ++ controls_rule (phase_of p) ∷ [];
    failed_rules = r.failed_rules;
    reason = r.reason;
  }

  abbrev pub risk_check_log : ActorContext → TradeProposal D → RiskReply → RiskCheck → AuditLog D
  risk_check_log actor p r c = record {
    event_type = "RISK_CHECK_COMPLETED";
    actor_id = actor.actor_id;
    actor_email = actor.actor_email;
    entity_type = "risk_check";
    entity_id = some c.id;
    action = risk_action r.result;
    before_data = none;
    after_data = some (risk_completed r.result r.failed_rules r.reason p.id);
    request_id = actor.request_id;
  }

  abbrev pub set_approved : TradeProposal D → Action D (TradeProposal D)
  set_approved p = do
    assert_valid_proposal_transition p.status ProposalStatus.approved
    now ← gets (λ w. w.now)
    update_proposal_status p.id ProposalStatus.approved (approved_times now)

  -- The status of an approved proposal whose risk is rejected, by way of REVALIDATING.
  abbrev pub reject_revalidating : TradeProposal D → Action D (TradeProposal D)
  reject_revalidating revalidating =
      assert_valid_proposal_transition revalidating.status
        ProposalStatus.risk_rejected_after_approval
      >> update_proposal_status revalidating.id ProposalStatus.risk_rejected_after_approval no_times

  abbrev pub revalidate : TradeProposal D → Action D (TradeProposal D)
  revalidate approved =
      update_proposal_status approved.id ProposalStatus.revalidating no_times
      >>= reject_revalidating

  abbrev pub reject_approved : TradeProposal D → Action D (TradeProposal D)
  reject_approved approved =
      assert_valid_proposal_transition approved.status ProposalStatus.revalidating
      >> revalidate approved

  abbrev pub set_rejected_after_approval : TradeProposal D → Action D (TradeProposal D)
  set_rejected_after_approval p = set_approved p >>= reject_approved

  abbrev pub settled_proposal : TradeProposal D → RiskResult → Action D (TradeProposal D)
  settled_proposal p RiskResult.pass = set_approved p
  settled_proposal p RiskResult.reject = set_rejected_after_approval p

  abbrev decision_log : ActorContext → TradeProposal D → TradeProposal D → RiskResult → AuditLog D
  decision_log actor p q RiskResult.pass =
      audit actor "TRADE_PROPOSAL_APPROVED" q.id "APPROVE_TRADE_PROPOSAL" (some (whole p))
        (some (whole q))
  decision_log actor p q RiskResult.reject =
      audit actor "TRADE_PROPOSAL_APPROVAL_RISK_REJECTED" q.id "APPROVE_REJECTED_BY_RISK"
        (some (whole p)) (some (whole q))

  abbrev pub finish_approval :
      ActorContext
      → TradeProposal D
      → RiskReply
      → RiskCheck
      → TradeApproval
      → TradeProposal D
      → Action D (ApprovalWorkflowResult D)
  finish_approval actor p r check approval settled = do
    create_audit_log (decision_log actor p settled r.result)
    pure (record {
      proposal = settled;
      approval = approval;
      risk_check = some check;
      risk_result = some r;
      idempotent = false;
    })

  -- The proposal's status on the combined risk result.
  abbrev pub settle_approval :
      ActorContext
      → TradeProposal D
      → RiskReply
      → RiskCheck
      → TradeApproval
      → Action D (ApprovalWorkflowResult D)
  settle_approval actor p r check approval =
      settled_proposal p r.result >>= finish_approval actor p r check approval

  abbrev pub record_checked :
      ActorContext
      → ℕ
      → ℕ
      → TradeProposal D
      → RiskReply
      → RiskCheck
      → Action D (ApprovalWorkflowResult D)
  record_checked actor request approver p r check = do
    create_audit_log (risk_check_log actor p r check)
    approval ← create_approval p.id approver ApprovalAction.approve none request
    settle_approval actor p r check approval

  -- The rows of an approval.
  unfoldable pub record_approval :
      ActorContext → ℕ → ℕ → TradeProposal D → RiskReply → Action D (ApprovalWorkflowResult D)
  record_approval actor request approver p r =
      create_risk_check (risk_check_data p r) >>= record_checked actor request approver p r

  -- An approval that the table does not have yet.
  abbrev pub apply_risk :
      ActorContext → ℕ → ℕ → TradeProposal D → RiskReply → Action D (ApprovalWorkflowResult D)
  apply_risk actor request approver p r =
      maybe_auto_disable_kill_switch actor r.failed_rules
      >> record_approval actor request approver p r

  abbrev pub assessed :
      RiskDesk D
      → Engine D
      → ActorContext
      → ℕ
      → ℕ
      → TradeProposal D
      → Action D (ApprovalWorkflowResult D)
  assessed R E actor request approver p = assess R E p >>= apply_risk actor request approver p

  abbrev pub approve_new :
      RiskDesk D
      → Engine D
      → ActorContext
      → ℕ
      → ℕ
      → TradeProposal D
      → Action D (ApprovalWorkflowResult D)
  approve_new R E actor request approver p =
      check_pending ProposalStatus.approved p >> assessed R E actor request approver p

  abbrev pub unless_decided :
      TradeProposal D
      → Action D (ApprovalWorkflowResult D)
      → Option TradeApproval
      → Action D (ApprovalWorkflowResult D)
  unless_decided p m (some a) = pure (decided_before p a)
  unless_decided p m none = m

  abbrev pub approve_found :
      RiskDesk D
      → Engine D
      → ActorContext
      → ℕ
      → ℕ
      → TradeProposal D
      → Action D (ApprovalWorkflowResult D)
  approve_found R E actor request approver p =
      find_approval_by_proposal_and_request_id p.id request
      >>= unless_decided p (approve_new R E actor request approver p)

  unfoldable pub approve_body :
      RiskDesk D → Engine D → ℕ → ActorContext → ℕ → ℕ → Action D (ApprovalWorkflowResult D)
  approve_body R E id actor request approver = do
    found ← find_proposal_by_id_for_update id
    proposal ← or_throw found (not_found "Trade proposal not found")
    approve_found R E actor request approver proposal

  -- `requireActorId` and `requireRequestId`, then the transaction
  abbrev pub with_approver : {A : Type 0} → (ℕ → Action D A) → Option ℕ → Action D A
  with_approver m none =
      throw (validation "An authenticated actor is required to approve or reject a proposal")
  with_approver m (some approver) = with_transaction (m approver)

  abbrev pub with_ids : {A : Type 0} → (ℕ → ℕ → Action D A) → Option ℕ → Option ℕ → Action D A
  with_ids m none actor_id = throw (validation "requestId is required")
  with_ids m (some request) actor_id = with_approver (m request) actor_id

  -- `approveProposal`
  unfoldable pub approve_proposal :
      RiskDesk D → Engine D → ℕ → ActorContext → Action D (ApprovalWorkflowResult D)
  unfolding approve_body with_transaction
  approve_proposal R E id actor =
      with_ids (approve_body R E id actor) actor.request_id actor.actor_id
