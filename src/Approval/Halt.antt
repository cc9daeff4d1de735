-- ===== src/Approval/Halt.antt =====
-- The kill switch setting between `approveProposal` and `executeApprovedProposal`.
use mt5_ai_trading.Prelude.{
  ℕ, ◌≡◌, refl, ◌∙◌, sym, ap, inl, inr, Bool, true, false, Option, none, some, List, [], String,
  any, arith, or_default,
}
use mt5_ai_trading.Numeric.{Decimal}
use mt5_ai_trading.Domain.{TradeProposal, ProposalStatus, ApprovalAction, RiskResult}
use mt5_ai_trading.Lifecycle.{assert_valid_proposal_transition}
use mt5_ai_trading.Store.{
  World, Db, Engine, ok, AuditLog, ProposalTimes, RiskCheckData, create_risk_check,
  create_audit_log, create_approval, update_proposal_status, get_trading_kill_switch_enabled,
  set_trading_kill_switch_enabled,
}
use mt5_ai_trading.Store.Keeps.{Keeps, bind_inversion, >>=-Keeps, pure-Keeps, gets-Keeps}
use mt5_ai_trading.Execution.Records.{ActorContext}
use mt5_ai_trading.Execution.Submit.{execute_approved_proposal}
use mt5_ai_trading.Execution.Safety.{execute_sends_guarded}
use mt5_ai_trading.Approval.Risk.{
  RiskDesk, RiskReply, is_daily_loss_rule, maybe_auto_disable_kill_switch,
}
use mt5_ai_trading.Approval.Decide.{
  ApprovalWorkflowResult, settled_proposal, record_approval, apply_risk, approve_proposal,
}
use mt5_ai_trading.Approval.Run.{approval_run}

abbrev rules_of : Option RiskReply → List String
rules_of none = []
rules_of (some x) = x.failed_rules

module _ {D : Decimal} where
  -- What `assertPaperExecutionAllowed` reads of the kill switch setting.
  abbrev pub execution_enabled : World D → Bool
  execution_enabled w = or_default w.db.settings.trading_kill_switch_enabled true

  create_risk_check-Keeps : (x : RiskCheckData) → Keeps execution_enabled (create_risk_check x)
  unfolding create_risk_check
  create_risk_check-Keeps x = record { kept = λ w. refl }

  create_audit_log-Keeps : (x : AuditLog D) → Keeps execution_enabled (create_audit_log x)
  unfolding create_audit_log
  create_audit_log-Keeps x = record { kept = λ w. refl }

  create_approval-Keeps :
      (p u : ℕ) (x : ApprovalAction) (reason : Option String) (k : ℕ)
      → Keeps execution_enabled (create_approval p u x reason k)
  unfolding create_approval
  create_approval-Keeps p u x reason k = record { kept = λ w. ground arith }

  update_proposal_status-Keeps :
      (id : ℕ) (s : ProposalStatus) (t : ProposalTimes)
      → Keeps execution_enabled (update_proposal_status id s t)
  unfolding update_proposal_status
  update_proposal_status-Keeps id s t = record { kept = λ w. ground arith }

  assert_valid_proposal_transition-Keeps :
      (s t : ProposalStatus) → Keeps execution_enabled (assert_valid_proposal_transition s t)
  unfolding assert_valid_proposal_transition
  assert_valid_proposal_transition-Keeps s t = record { kept = λ w. refl }

  ruleset approval_steps = (
    >>=-Keeps, pure-Keeps, gets-Keeps, create_risk_check-Keeps, create_audit_log-Keeps,
    create_approval-Keeps, update_proposal_status-Keeps, assert_valid_proposal_transition-Keeps,
  )

  settled_proposal-Keeps :
      (p : TradeProposal D) (x : RiskResult) → Keeps execution_enabled (settled_proposal p x)
  settled_proposal-Keeps p RiskResult.pass = search approval_steps depth 12
  settled_proposal-Keeps p RiskResult.reject = search approval_steps depth 24

  record_approval-Keeps :
      (a : ActorContext) (k u : ℕ) (p : TradeProposal D) (x : RiskReply)
      → Keeps execution_enabled (record_approval a k u p x)
  unfolding record_approval
  record_approval-Keeps a k u p x = search (approval_steps, settled_proposal-Keeps) depth 24

  maybe_auto_disable-ends :
      (a : ActorContext) (rules : List String) (w : World D)
      → any is_daily_loss_rule rules ≡ true
      → execution_enabled (maybe_auto_disable_kill_switch a rules w).1 ≡ false
  unfolding maybe_auto_disable_kill_switch get_trading_kill_switch_enabled
      set_trading_kill_switch_enabled create_audit_log
  maybe_auto_disable-ends a rules w h = rw h (ground arith)

  record_approval-risk :
      (a : ActorContext) (k u : ℕ) (p : TradeProposal D) (x : RiskReply) (w w' : World D)
      (r : ApprovalWorkflowResult D)
      → record_approval a k u p x w ≡ (ok r, w')
      → r.risk_result ≡ some x
  unfolding record_approval create_risk_check create_audit_log create_approval
  record_approval-risk a k u p x w w' r h = ground arith

  apply_risk-Halts :
      (a : ActorContext) (k u : ℕ) (p : TradeProposal D) (x y : RiskReply) (w w' : World D)
      (r : ApprovalWorkflowResult D)
      → apply_risk a k u p x w ≡ (ok r, w')
      → r.risk_result ≡ some y
      → any is_daily_loss_rule y.failed_rules ≡ true
      → execution_enabled w' ≡ false
  apply_risk-Halts a k u p x y w w' r h same loss =
      let (t, ended, rest) =
        bind_inversion (maybe_auto_disable_kill_switch a x.failed_rules)
          (λ _. record_approval a k u p x) w w' r h in
      let between = (maybe_auto_disable_kill_switch a x.failed_rules w).1 in
      let theirs = record_approval-risk a k u p x between w' r rest in
      let loss' = ap (λ o. any is_daily_loss_rule (rules_of o)) (sym theirs ∙ same) ∙ loss in
      ap (λ q. execution_enabled q.1) (sym rest)
      ∙ (record_approval-Keeps a k u p x).kept between
      ∙ maybe_auto_disable-ends a x.failed_rules w loss'

  -- If `approveProposal` returns a result that is no repetition and whose combined risk result has a
  -- failed daily loss rule, then `executeApprovedProposal`, of any proposal by anyone and at any time
  -- while the tables stay as they then are, sends the broker nothing.
  pub daily_loss_halts :
      (R : RiskDesk D) (E F : Engine D) (id other : ℕ) (a b : ActorContext) (w w' v : World D)
      (r : ApprovalWorkflowResult D) (x : RiskReply)
      → approve_proposal R E id a w ≡ (ok r, w')
      → r.idempotent ≡ false
      → r.risk_result ≡ some x
      → any is_daily_loss_rule x.failed_rules ≡ true
      → v.db ≡ w'.db
      → (execute_approved_proposal F other b v).1.calls ≡ v.calls
  daily_loss_halts R E F id other a b w w' v r x h new same loss tables =
      let run = approval_run R E id a w w' r h new in
      let off =
        ap (λ (db : Db D). or_default db.settings.trading_kill_switch_enabled true) tables
        ∙ apply_risk-Halts a run.request run.approver run.proposal run.risk x w w' r run.decided
            same loss in
      elim (execute_sends_guarded F other b v) [
        | inl quiet ↦ quiet
        | inr (p, fp, may, sent) ↦ absurd (ground (arith, may.enabled, off))
      ]
