-- ===== src/Approval/Late.antt =====
-- Decisions that come again, and decisions that come too late.

use mt5_ai_trading.Prelude.{
  ℕ, ◌≡◌, ◌∙◌, ap, Bool, true, not, Option, none, some, arith, find, String, if◌then◌else◌,
}
use mt5_ai_trading.Numeric.{Decimal}
use mt5_ai_trading.Domain.{TradeProposal, ProposalStatus, TradeApproval, same_status}
use mt5_ai_trading.Lifecycle.{assert_valid_proposal_transition}
use mt5_ai_trading.Store.{
  World, Action, Engine, Error, Result, ok, err, in_transaction, with_transaction, or_throw, pure,
  throw_if, invalid_transition, not_found, proposal_expired, ◌>>=◌, ◌>>◌, has_id, find_proposal,
  is_approval, set_status, no_times, put_proposals, find_proposal_by_id_for_update,
  find_approval_by_proposal_and_request_id, update_proposal_status,
}
use mt5_ai_trading.Store.Bind.{>>=-err}
use mt5_ai_trading.Store.Tables.{find-update_rows, find-holds}
use mt5_ai_trading.Execution.Records.{ActorContext}
use mt5_ai_trading.Execution.Submit.{expire_proposal}
use mt5_ai_trading.Approval.Risk.{RiskDesk}
use mt5_ai_trading.Approval.Decide.{
  is_late, reject_late, assessed, check_pending, decided_before, unless_decided, with_approver,
  with_ids, approve_new, approve_found, approve_body, approve_proposal,
}
use mt5_ai_trading.Approval.Cancel.{
  is_late_pending, reject_late_pending, cancel_in_time, cancel_found, cancel_body, cancel_proposal,
}
use mt5_ai_trading.Approval.Reject.{
  reject_new, reject_found, record_rejection, reject_body, reject_proposal,
}

module _ {D : Decimal} where
  approve_body_lem :
      (R : RiskDesk D) (E : Engine D) (id : ℕ) (a : ActorContext) (k u : ℕ) (w : World D)
      {p : TradeProposal D} {o : Option TradeApproval}
      → find_proposal id w.db ≡ some p
      → find (is_approval p.id k) w.db.approvals ≡ o
      → approve_body R E id a k u w ≡ unless_decided p (approve_new R E a k u p) o w
  unfolding approve_body find_proposal_by_id_for_update find_approval_by_proposal_and_request_id
  approve_body_lem R E id a k u w {p} fp fo =
      ap (λ q. (or_throw q (not_found "Trade proposal not found") >>= approve_found R E a k u) w) fp
      ∙ ap (λ o. unless_decided p (approve_new R E a k u p) o w) fo

  -- A decision whose actor and request are known runs in a transaction.
  with_ids_lem :
      {A : Type 0} (m : ℕ → ℕ → Action D A) {r x : Option ℕ} (k u : ℕ) (w : World D)
      {q : Result D A × World D}
      → r ≡ some k
      → x ≡ some u
      → m k u w ≡ q
      → with_ids m r x w ≡ in_transaction w q
  unfolding with_transaction
  with_ids_lem m {x} k u w hk hu h =
      ap (λ o. with_ids m o x w) hk ∙ ap (λ o. with_approver (m k) o w) hu ∙ ap (in_transaction w) h

  -- If the proposal has an approval row for the request's id, `approveProposal` returns that row with
  -- the proposal as it is, marked as idempotent, and changes nothing.
  pub approve_again :
      (R : RiskDesk D) (E : Engine D) (id : ℕ) (a : ActorContext) (k u : ℕ) (w : World D)
      (p : TradeProposal D) (x : TradeApproval)
      → a.request_id ≡ some k
      → a.actor_id ≡ some u
      → find_proposal id w.db ≡ some p
      → find (is_approval p.id k) w.db.approvals ≡ some x
      → approve_proposal R E id a w ≡ (ok (decided_before p x), w)
  unfolding approve_proposal
  approve_again R E id a k u w p x hk hu fp fx =
      with_ids_lem (approve_body R E id a) k u w hk hu (approve_body_lem R E id a k u w fp fx)

  -- The world in which a late proposal has been marked.
  abbrev marked_late : TradeProposal D → World D → World D
  marked_late p w = record w {
    db = put_proposals (has_id p.id) (set_status ProposalStatus.expired no_times w.now) w.db;
  }

  abbrev pub expired_now : TradeProposal D → World D → Error D
  expired_now p w = proposal_expired (set_status ProposalStatus.expired no_times w.now p)

  expire_pending :
      (p : TradeProposal D) (w : World D)
      → find_proposal p.id w.db ≡ some p
      → p.status ≡ ProposalStatus.pending_approval
      → expire_proposal p w ≡ (err (expired_now p w), marked_late p w)
  unfolding assert_valid_proposal_transition update_proposal_status
  expire_pending p w fp pending = ground (
    arith,
    find-update_rows (has_id p.id) (set_status ProposalStatus.expired no_times w.now) w.db.proposals
        p (λ x h. h) fp,
  )

  abbrev expire_when : Bool → TradeProposal D → Action D (Unit {0})
  expire_when b p = if b then expire_proposal p else pure tt

  reject_late_lem :
      (p : TradeProposal D) (w : World D)
      → is_late w.now p ≡ true
      → reject_late p w ≡ expire_proposal p w
  unfolding reject_late
  reject_late_lem p w late = ap (λ (b : Bool). expire_when b p w) late

  check_pending_lem :
      (t : ProposalStatus) (p : TradeProposal D) (w : World D)
      → p.status ≡ ProposalStatus.pending_approval
      → check_pending t p w ≡ reject_late p w
  unfolding check_pending
  check_pending_lem t p w pending =
      ap
        (λ s.
          (throw_if (not (same_status s ProposalStatus.pending_approval)) (invalid_transition s t)
              >> reject_late p)
            w)
        pending

  check_pending_late :
      (t : ProposalStatus) (p : TradeProposal D) (w : World D)
      → find_proposal p.id w.db ≡ some p
      → p.status ≡ ProposalStatus.pending_approval
      → is_late w.now p ≡ true
      → check_pending t p w ≡ (err (expired_now p w), marked_late p w)
  check_pending_late t p w fp pending late =
      check_pending_lem t p w pending ∙ reject_late_lem p w late ∙ expire_pending p w fp pending

  is_late_pending_lem :
      (p : TradeProposal D) (now : ℕ)
      → p.status ≡ ProposalStatus.pending_approval
      → is_late now p ≡ true
      → is_late_pending now p ≡ true
  is_late_pending_lem p now pending late = ground arith

  reject_late_pending_lem :
      (p : TradeProposal D) (w : World D)
      → find_proposal p.id w.db ≡ some p
      → p.status ≡ ProposalStatus.pending_approval
      → is_late w.now p ≡ true
      → reject_late_pending p w ≡ (err (expired_now p w), marked_late p w)
  unfolding reject_late_pending
  reject_late_pending_lem p w fp pending late =
      ap (λ (b : Bool). expire_when b p w) (is_late_pending_lem p w.now pending late)
      ∙ expire_pending p w fp pending

  find_proposal-id :
      (id : ℕ) (w : World D) (p : TradeProposal D)
      → find_proposal id w.db ≡ some p
      → find_proposal p.id w.db ≡ some p
  find_proposal-id id w p h = ground (arith, find-holds (has_id id) w.db.proposals p h)

  -- A stored proposal that is PENDING_APPROVAL past its expiry, with no approval row for the
  -- request's id: approving, rejecting and cancelling it each throw ProposalExpiredError with the
  -- proposal as EXPIRED, and leave the tables as they were, so that the stored proposal stays
  -- PENDING_APPROVAL.
  pub late_decisions :
      (R : RiskDesk D) (E : Engine D) (id : ℕ) (reason : Option String) (a : ActorContext) (k u : ℕ)
      (w : World D) (p : TradeProposal D)
      → a.request_id ≡ some k
      → a.actor_id ≡ some u
      → find_proposal id w.db ≡ some p
      → find (is_approval p.id k) w.db.approvals ≡ none
      → p.status ≡ ProposalStatus.pending_approval
      → is_late w.now p ≡ true
      → (approve_proposal R E id a w ≡ (err (expired_now p w), w))
        × (reject_proposal id reason a w ≡ (err (expired_now p w), w))
        × (cancel_proposal id a w ≡ (err (expired_now p w), w))
  unfolding approve_proposal reject_proposal reject_body cancel_proposal cancel_body
      find_proposal_by_id_for_update find_approval_by_proposal_and_request_id
  late_decisions R E id reason a k u w p hk hu fp fo pending late =
      let own = find_proposal-id id w p fp in
      (
        with_ids_lem (approve_body R E id a) k u w hk hu (
            approve_body_lem R E id a k u w fp fo
            ∙ >>=-err (check_pending ProposalStatus.approved p) (λ _. assessed R E a k u p) w
                (check_pending_late ProposalStatus.approved p w own pending late)),
        with_ids_lem (reject_body id reason a) k u w hk hu (
            ap
              (λ q.
                (or_throw q (not_found "Trade proposal not found") >>= reject_found a k u reason) w)
              fp
            ∙ ap (λ o. unless_decided p (reject_new a k u reason p) o w) fo
            ∙ >>=-err (check_pending ProposalStatus.owner_rejected p)
                (λ _. record_rejection a k u reason p) w
                (check_pending_late ProposalStatus.owner_rejected p w own pending late)),
        ap (in_transaction w) (
            ap (λ q. (or_throw q (not_found "Trade proposal not found") >>= cancel_found a) w) fp
            ∙ >>=-err (reject_late_pending p) (λ _. cancel_in_time a p) w
                (reject_late_pending_lem p w own pending late)),
      )
