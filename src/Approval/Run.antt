-- ===== src/Approval/Run.antt =====
-- What a successful `approveProposal` that is no repetition has done.
use mt5_ai_trading.Prelude.{ℕ, ◌≡◌, refl, ◌∙◌, sym, ap, false, Option, none, some, arith, find}
use mt5_ai_trading.Numeric.{Decimal}
use mt5_ai_trading.Domain.{TradeProposal, ProposalStatus, TradeApproval}
use mt5_ai_trading.Lifecycle.{assert_valid_proposal_transition}
use mt5_ai_trading.Store.{
  World, Action, Engine, Result, ok, not_found, find_proposal, is_approval,
  find_proposal_by_id_for_update, find_approval_by_proposal_and_request_id, update_proposal_status,
}
use mt5_ai_trading.Store.Keeps.{
  Keeps, bind_inversion, or_throw_inversion, transaction_inversion, >>=-Keeps, pure-Keeps,
  gets-Keeps, or_throw-Keeps, of_reply-Keeps,
}
use mt5_ai_trading.Execution.Records.{ActorContext}
use mt5_ai_trading.Approval.Risk.{RiskDesk, RiskReply, assess, of_result}
use mt5_ai_trading.Approval.Decide.{
  ApprovalWorkflowResult, reject_late, check_pending, unless_decided, with_ids, apply_risk,
  assessed, approve_new, approve_found, approve_body, approve_proposal,
}

module _ {D : Decimal} where
  abbrev pub whole_world : World D → World D
  whole_world w = w

  of_result-Keeps : {A : Type 0} (r : Result D A) → Keeps whole_world (of_result r)
  of_result-Keeps r = record { kept = λ w. refl }

  -- The questions about the risk change nothing.
  pub assess-Keeps :
      (R : RiskDesk D) (E : Engine D) (p : TradeProposal D) → Keeps whole_world (assess R E p)
  unfolding assess
  assess-Keeps R E p =
      search
        (
          >>=-Keeps whole_world,
          pure-Keeps whole_world,
          gets-Keeps whole_world,
          or_throw-Keeps whole_world,
          of_reply-Keeps whole_world,
          of_result-Keeps,
        )
        depth 24

  check_pending-ok :
      (t : ProposalStatus) (p : TradeProposal D) (w : World D)
      → (check_pending t p w).0 ≡ ok tt
      → (check_pending t p w).1 ≡ w
  unfolding check_pending reject_late assert_valid_proposal_transition update_proposal_status
  check_pending-ok t p w h = ground arith

  with_ids_inversion :
      {A : Type 0} (m : ℕ → ℕ → Action D A) (o x : Option ℕ) (w w' : World D) (r : A)
      → with_ids m o x w ≡ (ok r, w')
      → (k : ℕ) × (u : ℕ) × (m k u w ≡ (ok r, w'))
  with_ids_inversion m none x w w' r h = absurd (ground (arith, ap (λ q. q.0) h))
  with_ids_inversion m (some k) none w w' r h = absurd (ground (arith, ap (λ q. q.0) h))
  with_ids_inversion m (some k) (some u) w w' r h = (k, u, transaction_inversion (m k u) w w' r h)

  unless_decided_inversion :
      (p : TradeProposal D) (m : Action D (ApprovalWorkflowResult D)) (o : Option TradeApproval)
      (w w' : World D) (r : ApprovalWorkflowResult D)
      → unless_decided p m o w ≡ (ok r, w')
      → r.idempotent ≡ false
      → m w ≡ (ok r, w')
  unless_decided_inversion p m none w w' r h new = h
  unless_decided_inversion p m (some a) w w' r h new = absurd (ground (arith, ap (λ q. q.0) h))

  -- The steps of a successful approval.
  pub record ApprovalRun (R : RiskDesk D) (E : Engine D) (id : ℕ) (a : ActorContext)
      (w w' : World D) (r : ApprovalWorkflowResult D) : Type 0 where
    pub proposal : TradeProposal D
    pub request : ℕ
    pub approver : ℕ
    pub risk : RiskReply
    pub found : find_proposal id w.db ≡ some proposal
    pub assessed_as : (assess R E proposal w).0 ≡ ok risk
    pub decided : apply_risk a request approver proposal risk w ≡ (ok r, w')

  approve_found_run :
      (R : RiskDesk D) (E : Engine D) (id : ℕ) (a : ActorContext) (k u : ℕ) (p : TradeProposal D)
      (w w' : World D) (r : ApprovalWorkflowResult D)
      → find_proposal id w.db ≡ some p
      → r.idempotent ≡ false
      → approve_found R E a k u p w ≡ (ok r, w')
      → ApprovalRun R E id a w w' r
  unfolding find_approval_by_proposal_and_request_id
  approve_found_run R E id a k u p w w' r fp new h =
      let run =
        unless_decided_inversion p (approve_new R E a k u p)
          (find (is_approval p.id k) w.db.approvals) w w' r h new in
      let (t, passed, rest) =
        bind_inversion (check_pending ProposalStatus.approved p) (λ _. assessed R E a k u p) w w' r
          run in
      let here = check_pending-ok ProposalStatus.approved p w passed in
      let (x, risk, decided) =
        bind_inversion (assess R E p) (apply_risk a k u p) w w' r
          (sym (ap (assessed R E a k u p) here) ∙ rest) in
      record {
        proposal = p;
        request = k;
        approver = u;
        risk = x;
        found = fp;
        assessed_as = risk;
        decided = sym (ap (apply_risk a k u p x) ((assess-Keeps R E p).kept w)) ∙ decided;
      }

  pub approval_run :
      (R : RiskDesk D) (E : Engine D) (id : ℕ) (a : ActorContext) (w w' : World D)
      (r : ApprovalWorkflowResult D)
      → approve_proposal R E id a w ≡ (ok r, w')
      → r.idempotent ≡ false
      → ApprovalRun R E id a w w' r
  unfolding approve_proposal approve_body find_proposal_by_id_for_update
  approval_run R E id a w w' r h new =
      let (k, u, body) =
        with_ids_inversion (approve_body R E id a) a.request_id a.actor_id w w' r h in
      let (p, fp, rest) =
        or_throw_inversion (find_proposal id w.db) (not_found "Trade proposal not found")
          (approve_found R E a k u) w w' r body in
      approve_found_run R E id a k u p w w' r fp new rest
