-- ===== src/Approval/Tests.antt =====
-- Runs of the owner's decisions.
use mt5_ai_trading.Prelude.{◌≡◌, refl, true, false, none, some, List, [], ◌∷◌, String}
use mt5_ai_trading.Numeric.Whole.{pos, whole_numbers}
use mt5_ai_trading.Domain.{
  ProposalStatus, RiskResult, RiskCheckStage, TradeApproval, ApprovalAction, TradeProposal,
  MarketSnapshot, PaperPortfolio,
}
use mt5_ai_trading.Lifecycle.{assert_valid_proposal_transition}
use mt5_ai_trading.Store.{
  World, Result, ok, err, replied, find_proposal, find_proposal_by_id_for_update,
  find_approval_by_proposal_and_request_id, update_proposal_status, create_approval,
  create_risk_check, create_audit_log, get_trading_kill_switch_enabled,
  set_trading_kill_switch_enabled,
}
use mt5_ai_trading.Execution.Records.{ActorContext}
use mt5_ai_trading.Execution.Submit.{execute_approved_proposal}
use mt5_ai_trading.Approval.Risk.{
  RiskDesk, RiskReply, Controls, phase_of, join_reasons, combine, assess,
  maybe_auto_disable_kill_switch,
}
use mt5_ai_trading.Approval.Decide.{
  ApprovalWorkflowResult, decided_before, reject_late, check_pending, record_approval,
  approve_proposal,
}
use mt5_ai_trading.Approval.Cancel.{cancel_proposal}
use mt5_ai_trading.Approval.Reject.{reject_proposal}
use mt5_ai_trading.Approval.Late.{approve_again, late_decisions, expired_now}
use mt5_ai_trading.Approval.Halt.{daily_loss_halts}
use mt5_ai_trading.Approval.Status.{expected_status, approval_decided}
use mt5_ai_trading.Examples.{proposal_in, tables, world_at, filling_engine}

abbrev approver : ActorContext
approver = record { actor_id = some 5; actor_email = "owner@localhost"; request_id = some 9 }

abbrev reply_of : RiskResult → List String → RiskReply
reply_of x rules = record { result = x; rules_checked = []; failed_rules = rules; reason = none }

abbrev passing : Controls
passing = record { passed = true; failed_rules = []; reason = none }

abbrev desk : RiskReply → RiskDesk whole_numbers
desk r = record {
  market_snapshot = λ calls symbol.
      replied (some (record { symbol = symbol; price = pos 20; timestamp = 49; is_stale = false }));
  controls = λ phase p m f w. ok passing;
  evaluate = λ p m f w. replied r;
}

abbrev earlier : TradeApproval
earlier = record {
  id = 4;
  proposal_id = 1;
  approved_by = 5;
  action = ApprovalAction.approve;
  reason = none;
  request_id = 9;
  created_at = 40;
}

abbrev pending_world : World whole_numbers
pending_world = world_at 50 ProposalStatus.pending_approval []

abbrev late_world : World whole_numbers
late_world = world_at 100 ProposalStatus.pending_approval []

abbrev decided_world : World whole_numbers
decided_world = record {
  db = record (tables ProposalStatus.approved []) { approvals = earlier ∷ [] };
  calls = [];
  now = 50;
}

approve_again_example :
    approve_proposal (desk (reply_of RiskResult.pass [])) filling_engine 1 approver decided_world
    ≡ (ok (decided_before (proposal_in ProposalStatus.approved) earlier), decided_world)
approve_again_example =
    approve_again (desk (reply_of RiskResult.pass [])) filling_engine 1 approver 9 5 decided_world
      (proposal_in ProposalStatus.approved) earlier refl refl refl refl

late_decisions_example :
    (approve_proposal (desk (reply_of RiskResult.pass [])) filling_engine 1 approver late_world
      ≡ (err (expired_now (proposal_in ProposalStatus.pending_approval) late_world), late_world))
    × (reject_proposal 1 none approver late_world
        ≡ (err (expired_now (proposal_in ProposalStatus.pending_approval) late_world), late_world))
    × (cancel_proposal 1 approver late_world
        ≡ (err (expired_now (proposal_in ProposalStatus.pending_approval) late_world), late_world))
late_decisions_example =
    late_decisions (desk (reply_of RiskResult.pass [])) filling_engine 1 none approver 9 5
      late_world (proposal_in ProposalStatus.pending_approval) refl refl refl refl refl refl

abbrev decided_result :
    RiskReply → ProposalStatus → List String → ApprovalWorkflowResult whole_numbers
decided_result r s rules = record {
  proposal = record (proposal_in s) { approved_at = some 50; updated_at = 50 };
  approval = record {
    id = 4;
    proposal_id = 1;
    approved_by = 5;
    action = ApprovalAction.approve;
    reason = none;
    request_id = 9;
    created_at = 50;
  };
  risk_check = some (record {
    id = 3;
    signal_id = some 1;
    proposal_id = some 1;
    stage = RiskCheckStage.pre_execution;
    result = r.result;
    rules_checked = "PHASE22_ADVANCED_RISK_CONTROLS" ∷ [];
    failed_rules = rules;
    reason = none;
    created_at = 50;
  });
  risk_result = some r;
  idempotent = false;
}

abbrev daily_loss : List String
daily_loss = "MAX_DAILY_LOSS" ∷ []

abbrev passed_run :
    Result whole_numbers (ApprovalWorkflowResult whole_numbers) × World whole_numbers
passed_run =
    approve_proposal (desk (reply_of RiskResult.pass [])) filling_engine 1 approver pending_world

abbrev lost_run : Result whole_numbers (ApprovalWorkflowResult whole_numbers) × World whole_numbers
lost_run =
    approve_proposal (desk (reply_of RiskResult.reject daily_loss)) filling_engine 1 approver
      pending_world

passes :
    passed_run
    ≡ (ok (decided_result (reply_of RiskResult.pass []) ProposalStatus.approved []), passed_run.1)
unfolding approve_proposal assess combine join_reasons check_pending reject_late record_approval
    maybe_auto_disable_kill_switch create_risk_check create_approval create_audit_log
    update_proposal_status assert_valid_proposal_transition find_approval_by_proposal_and_request_id
    find_proposal_by_id_for_update
passes = refl

loses : lost_run ≡ (
  ok (
      decided_result
        (reply_of RiskResult.reject daily_loss)
        ProposalStatus.risk_rejected_after_approval
        daily_loss),
  lost_run.1,
)
unfolding approve_proposal assess combine join_reasons check_pending reject_late record_approval
    maybe_auto_disable_kill_switch get_trading_kill_switch_enabled set_trading_kill_switch_enabled
    create_risk_check create_approval create_audit_log update_proposal_status
    assert_valid_proposal_transition find_approval_by_proposal_and_request_id
    find_proposal_by_id_for_update
loses = refl

approval_decided_example :
    (p : TradeProposal whole_numbers) × (m : MarketSnapshot whole_numbers) × (f : PaperPortfolio
      whole_numbers)
    × (c : Controls) × (e : RiskReply) × (find_proposal 1 pending_world.db ≡ some p)
    × ((desk (reply_of RiskResult.pass [])).controls (phase_of p) p m f pending_world ≡ ok c)
    × ((desk (reply_of RiskResult.pass [])).evaluate p m f pending_world ≡ replied e)
    × (ProposalStatus.approved ≡ expected_status e.result c.passed)
    × (find_proposal 1 passed_run.1.db
        ≡ some (decided_result (reply_of RiskResult.pass []) ProposalStatus.approved []).proposal)
approval_decided_example =
    approval_decided (desk (reply_of RiskResult.pass [])) filling_engine 1 approver pending_world
      passed_run.1 (decided_result (reply_of RiskResult.pass []) ProposalStatus.approved []) passes
      refl

daily_loss_halts_example :
    (execute_approved_proposal filling_engine 1 approver lost_run.1).1.calls ≡ lost_run.1.calls
daily_loss_halts_example =
    daily_loss_halts (desk (reply_of RiskResult.reject daily_loss)) filling_engine filling_engine 1
      1 approver approver pending_world lost_run.1 lost_run.1
      (decided_result (reply_of RiskResult.reject daily_loss)
        ProposalStatus.risk_rejected_after_approval daily_loss)
      (reply_of RiskResult.reject daily_loss) loses refl refl refl refl
