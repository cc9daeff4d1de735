-- ===== src/Approval/Stored.antt =====
-- The row that an approval leaves for the proposal: each update returns the row that it stores.
use mathlib.Core.Path.{subst}
use mt5_ai_trading.Prelude.{
  ℕ, ◌≡◌, refl, ◌∙◌, sym, ap, Option, none, some, arith, find, update_rows,
}
use mt5_ai_trading.Numeric.{Decimal}
use mt5_ai_trading.Domain.{
  TradeProposal, ProposalStatus, RiskResult, RiskCheck, TradeApproval, ApprovalAction,
}
use mt5_ai_trading.Lifecycle.{assert_valid_proposal_transition}
use mt5_ai_trading.Store.{
  World, Action, Result, ok, ◌>>=◌, gets, ProposalTimes, no_times, has_id, set_status,
  put_proposals, find_proposal, create_risk_check, create_audit_log, create_approval,
  update_proposal_status, row,
}
use mt5_ai_trading.Store.Tables.{find-update_rows_inv, find-holds}
use mt5_ai_trading.Store.Keeps.{bind_inversion}
use mt5_ai_trading.Execution.Records.{ActorContext}
use mt5_ai_trading.Approval.Risk.{RiskReply}
use mt5_ai_trading.Approval.Decide.{
  ApprovalWorkflowResult, approved_times, set_approved, reject_approved, revalidate,
  reject_revalidating, settled_proposal, finish_approval, settle_approval, record_checked,
  risk_check_data, risk_check_log, record_approval,
}

-- The status that a risk result leads to.
abbrev pub decided_status : RiskResult → ProposalStatus
decided_status RiskResult.pass = ProposalStatus.approved
decided_status RiskResult.reject = ProposalStatus.risk_rejected_after_approval

module _ {D : Decimal} where
  -- The row `q` has the id and the status, and is the one that is stored.
  pub record IsStored (id : ℕ) (s : ProposalStatus) (w : World D) (q : TradeProposal D)
      : Type 0 where
    pub status_is : q.status ≡ s
    pub id_is : q.id ≡ id
    pub stored : find_proposal id w.db ≡ some q

  abbrev marked : ℕ → ProposalStatus → ProposalTimes → World D → World D
  marked id s t w = record w { db = put_proposals (has_id id) (set_status s t w.now) w.db }

  pub pair_of : {A : Type 0} {x : Result D A × World D} {a : A} → x.0 ≡ ok a → x ≡ (ok a, x.1)
  pair_of {x} h = ap (λ r. (r, x.1)) h

  row_inversion :
      {A : Type 0} (o : Option A) (w w' : World D) (a : A)
      → row o w ≡ (ok a, w')
      → (o ≡ some a) × (w ≡ w')
  row_inversion none w w' a h = absurd (ground (arith, ap (λ q. q.0) h))
  row_inversion (some x) w w' a h = (ground (arith, ap (λ q. q.0) h), ap (λ q. q.1) h)

  update_proposal_status-IsStored :
      (id : ℕ) (s : ProposalStatus) (t : ProposalTimes) (w w' : World D) (q : TradeProposal D)
      → update_proposal_status id s t w ≡ (ok q, w')
      → IsStored id s w' q
  unfolding update_proposal_status
  update_proposal_status-IsStored id s t w w' q h =
      let rows = update_rows (has_id id) (set_status s t w.now) w.db.proposals in
      let (found, here) = row_inversion (find (has_id id) rows) (marked id s t w) w' q h in
      let (x, made) =
        find-update_rows_inv (has_id id) (set_status s t w.now) w.db.proposals q (λ y. refl)
          found in
      record {
        status_is = ap (λ y. y.status) made;
        id_is = ground (arith, find-holds (has_id id) rows q found);
        stored = subst (λ v. find_proposal id v.db ≡ some q) here found;
      }

  set_approved-IsStored :
      (p : TradeProposal D) (w w' : World D) (q : TradeProposal D)
      → set_approved p w ≡ (ok q, w')
      → IsStored p.id ProposalStatus.approved w' q
  set_approved-IsStored p w w' q h =
      let (t, allowed, rest) =
        bind_inversion (assert_valid_proposal_transition p.status ProposalStatus.approved)
          (λ _. gets (λ w. w.now) >>= λ now.
            update_proposal_status p.id ProposalStatus.approved (approved_times now))
          w w' q h in
      let now = (assert_valid_proposal_transition p.status ProposalStatus.approved w).1 in
      update_proposal_status-IsStored p.id ProposalStatus.approved (approved_times now.now) now w' q
        rest

  reject_approved-IsStored :
      (p : TradeProposal D) (w w' : World D) (q : TradeProposal D)
      → reject_approved p w ≡ (ok q, w')
      → IsStored p.id ProposalStatus.risk_rejected_after_approval w' q
  reject_approved-IsStored p w w' q h =
      let (t, allowed, rest) =
        bind_inversion (assert_valid_proposal_transition p.status ProposalStatus.revalidating)
          (λ _. revalidate p) w w' q h in
      let v = (assert_valid_proposal_transition p.status ProposalStatus.revalidating w).1 in
      let marking : Action D (TradeProposal D) =
        update_proposal_status p.id ProposalStatus.revalidating no_times in
      let (y, marked_as, last) = bind_inversion marking reject_revalidating v w' q rest in
      let (s, final, end) =
        bind_inversion
          (assert_valid_proposal_transition y.status ProposalStatus.risk_rejected_after_approval)
          (λ _. update_proposal_status y.id ProposalStatus.risk_rejected_after_approval no_times)
          (marking v).1 w' q last in
      let same =
        (update_proposal_status-IsStored p.id ProposalStatus.revalidating no_times v (marking v).1 y
          (pair_of marked_as)).id_is in
      subst (λ i. IsStored i ProposalStatus.risk_rejected_after_approval w' q) same
        (update_proposal_status-IsStored y.id ProposalStatus.risk_rejected_after_approval no_times _
          w' q end)

  settled_proposal-IsStored :
      (p : TradeProposal D) (x : RiskResult) (w w' : World D) (q : TradeProposal D)
      → settled_proposal p x w ≡ (ok q, w')
      → IsStored p.id (decided_status x) w' q
  settled_proposal-IsStored p RiskResult.pass w w' q h = set_approved-IsStored p w w' q h
  settled_proposal-IsStored p RiskResult.reject w w' q h =
      let (y, approved, rest) = bind_inversion (set_approved p) reject_approved w w' q h in
      let same = (set_approved-IsStored p w (set_approved p w).1 y (pair_of approved)).id_is in
      subst (λ i. IsStored i ProposalStatus.risk_rejected_after_approval w' q) same
        (reject_approved-IsStored y (set_approved p w).1 w' q rest)

  finish_approval-IsStored :
      (a : ActorContext) (p : TradeProposal D) (x : RiskReply) (c : RiskCheck) (y : TradeApproval)
      (q : TradeProposal D) (id : ℕ) (s : ProposalStatus) (w w' : World D)
      (r : ApprovalWorkflowResult D)
      → IsStored id s w q
      → finish_approval a p x c y q w ≡ (ok r, w')
      → IsStored id s w' r.proposal
  unfolding create_audit_log
  finish_approval-IsStored a p x c y q id s w w' r k h =
      let row : q ≡ r.proposal = ground (arith, ap (λ z. z.0) h) in
      record {
        status_is = ap (λ z. z.status) (sym row) ∙ k.status_is;
        id_is = ap (λ z. z.id) (sym row) ∙ k.id_is;
        stored = ap (λ z. find_proposal id z.1.db) (sym h) ∙ k.stored ∙ ap some row;
      }

  pub record_approval-IsStored :
      (a : ActorContext) (k u : ℕ) (p : TradeProposal D) (x : RiskReply) (w w' : World D)
      (r : ApprovalWorkflowResult D)
      → record_approval a k u p x w ≡ (ok r, w')
      → IsStored p.id (decided_status x.result) w' r.proposal
  unfolding record_approval
  record_approval-IsStored a k u p x w w' r h =
      let (c, checked, rest) =
        bind_inversion (create_risk_check (risk_check_data p x)) (record_checked a k u p x) w w' r
          h in
      let v = (create_risk_check (risk_check_data p x) w).1 in
      let log : Action D (Unit {0}) = create_audit_log (risk_check_log a p x c) in
      let approval : Action D TradeApproval =
        create_approval p.id u ApprovalAction.approve none k in
      let (t, logged, after) =
        bind_inversion log (λ _. approval >>= settle_approval a p x c) v w' r rest in
      let (y, approved, last) =
        bind_inversion approval (settle_approval a p x c) (log v).1 w' r after in
      let settling = settled_proposal p x.result in
      let start = (approval (log v).1).1 in
      let (q, settled, end) = bind_inversion settling (finish_approval a p x c y) start w' r last in
      finish_approval-IsStored a p x c y q p.id (decided_status x.result) (settling start).1 w' r
        (settled_proposal-IsStored p x.result start (settling start).1 q (pair_of settled)) end
