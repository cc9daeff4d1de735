-- ===== src/Execution/Failed.antt =====
-- What becomes of `executeApprovedProposal` when its request to the broker fails.

use mathlib.Core.Path.{subst}
use mt5_ai_trading.Prelude.{
  ℕ, ◌==◌, Bool-cases, ◌≡◌, refl, ◌∙◌, sym, ap, inl, inr, Bool, true, none, some, List, [], ◌∷◌,
  ◌++◌, String, arith, find,
}
use mt5_ai_trading.Numeric.{Decimal}
use mt5_ai_trading.Domain.{
  TradeProposal, ProposalStatus, Execution, ExecutionStatus, proposal_attempt,
}
use mt5_ai_trading.Lifecycle.{assert_valid_proposal_transition}
use mt5_ai_trading.Store.{
  World, Action, Engine, failed, ok, submit, in_transaction, ◌>>=◌, has_id, set_status, no_times,
  find_proposal, find_execution, update_execution_status, put_executions, set_execution,
  find_order_by_execution, find_position_by_symbol_for_update, create_audit_log,
}
use mt5_ai_trading.Store.Bind.{>>=-ok}
use mt5_ai_trading.Store.Tables.{find-update_rows}
use mt5_ai_trading.Execution.Messages.{entry_request}
use mt5_ai_trading.Execution.Records.{ActorContext, ExecutionWorkflowResult}
use mt5_ai_trading.Execution.Outcome.{execute_body_lem, find_proposal-id}
use mt5_ai_trading.Execution.Submit.{
  find_settled, prepare_submission, submit_proposal, failure_update, fail_proposal, mark_failed,
  report_failure, record_failure, record_reply, execute_approved_proposal,
}
use mt5_ai_trading.Execution.Ready.{
  IsReady, new_row, with_execution, marked_as, marked_row, update_proposal_status_found,
  submitting_row, submitting_world, prepare_submission_ready,
}

find-append_some :
    {A : Type 0} (t : A → Bool) (l : List A) (a : A)
    → t a ≡ true
    → (y : A) × (find t (l ++ a ∷ []) ≡ some y)
find-append_some t [] a h = (a, ground arith)
find-append_some t (x ∷ l) a h = elim (Bool-cases (t x)) [
  | inl hit ↦ (x, rw hit refl)
  | inr miss ↦ let (y, rest) = find-append_some t l a h in (y, rw miss rest)
]

same_number : (n : ℕ) → (n == n) ≡ true
same_number n = ground arith

module _ {D : Decimal} where
  abbrev with_failed : Execution → String → World D → World D
  with_failed e m w = record w {
    db =
        put_executions (λ x. x.id == e.id)
          (set_execution ExecutionStatus.error (failure_update m) w.now) w.db;
  }

  update_execution_status_found :
      (e y : Execution) (m : String) (w : World D)
      → find (λ x. x.id == e.id) w.db.executions ≡ some y
      → update_execution_status e.id ExecutionStatus.error (failure_update m) w
        ≡ (ok (set_execution ExecutionStatus.error (failure_update m) w.now y), with_failed e m w)
  unfolding update_execution_status
  update_execution_status_found e y m w h = ground (
    arith,
    find-update_rows (λ x. x.id == e.id)
        (set_execution ExecutionStatus.error (failure_update m) w.now) w.db.executions y (λ x k. k)
        h,
  )

  failure_allowed :
      (s : TradeProposal D) (w : World D)
      → s.status ≡ ProposalStatus.submitting
      → assert_valid_proposal_transition s.status ProposalStatus.execution_error w ≡ (ok tt, w)
  unfolding assert_valid_proposal_transition
  failure_allowed s w h = rw h refl

  report_failure_ends :
      (a : ActorContext) (p : TradeProposal D) (e : Execution) (m : String) (x : Execution)
      (q : TradeProposal D) (w : World D)
      → (r : ExecutionWorkflowResult D) × (w' : World D) × (report_failure a p e m x q w
          ≡ (ok r, w'))
        × (r.proposal ≡ q)
        × (w'.db.proposals ≡ w.db.proposals)
  unfolding create_audit_log find_order_by_execution find_position_by_symbol_for_update
  report_failure_ends a p e m x q w = (_, _, refl, refl, refl)

  -- How a workflow ends whose request has failed.
  abbrev pub EndsInError : Action D (ExecutionWorkflowResult D) → ℕ → World D → Type 0
  EndsInError run id w =
      (r : ExecutionWorkflowResult D) × (w' : World D) × (run w ≡ (ok r, w'))
      × (r.proposal.status ≡ ProposalStatus.execution_error)
      × (find_proposal id w'.db ≡ some r.proposal)

  record_failure-EndsInError :
      (a : ActorContext) (p s : TradeProposal D) (e y : Execution) (m : String) (w : World D)
      → s.status ≡ ProposalStatus.submitting
      → find_proposal s.id w.db ≡ some s
      → find (λ x. x.id == e.id) w.db.executions ≡ some y
      → EndsInError (record_failure a p e s m) s.id w
  unfolding record_failure
  record_failure-EndsInError a p s e y m w status fp fe =
      let x = set_execution ExecutionStatus.error (failure_update m) w.now y in
      let v = with_failed e m w in
      let q = set_status ProposalStatus.execution_error no_times w.now s in
      let (r, w', ran, same, rows) =
        report_failure_ends a p e m x q (marked_as ProposalStatus.execution_error s v) in
      (
        r,
        w',
        >>=-ok (update_execution_status e.id ExecutionStatus.error (failure_update m))
              (fail_proposal a p e s m) w (update_execution_status_found e y m w fe)
            ∙ >>=-ok (assert_valid_proposal_transition s.status ProposalStatus.execution_error)
                (λ _. mark_failed s >>= report_failure a p e m x) v (failure_allowed s v status)
            ∙ >>=-ok (mark_failed s) (report_failure a p e m x) v
                (update_proposal_status_found s ProposalStatus.execution_error v fp)
            ∙ ran,
        ap (λ z. z.status) same,
        ap (find (has_id s.id)) rows
            ∙ marked_row s ProposalStatus.execution_error v fp
            ∙ ap some (sym same),
      )

  submit_proposal-EndsInError :
      (E : Engine D) (a : ActorContext) (p : TradeProposal D) (m : String) (w : World D)
      → find_proposal p.id w.db ≡ some p
      → E.submit_order w.calls (entry_request p) ≡ failed m
      → EndsInError
          (submit_proposal E a p (new_row p w, submitting_row p w))
          p.id
          (submitting_world p w)
  unfolding submit_proposal
  submit_proposal-EndsInError E a p m w fp answer =
      let e = new_row p w in
      let s = submitting_row p w in
      let sent = record (submitting_world p w) { calls = submit (entry_request p) ∷ w.calls } in
      let (y, there) = find-append_some (λ x. x.id == e.id) w.db.executions e (same_number e.id) in
      let (r, w', ran, status, stored) =
        record_failure-EndsInError a p s e y m sent refl
          (marked_row p ProposalStatus.submitting (with_execution p w) fp) there in
      (r, w', ap (λ q. record_reply E a p e s q sent) answer ∙ ran, status, stored)

  -- For a stored APPROVED proposal before its expiry, with no stored execution, under PAPER mode and
  -- an enabled kill switch: if the request to the broker fails, `executeApprovedProposal` still
  -- returns a result, and the stored proposal is then the returned one, in EXECUTION_ERROR.
  pub execute_failed :
      (E : Engine D) (id : ℕ) (a : ActorContext) (w : World D) (p : TradeProposal D) (m : String)
      → find_proposal id w.db ≡ some p
      → find_execution (proposal_attempt id) w.db ≡ none
      → IsReady p w
      → E.submit_order w.calls (entry_request p) ≡ failed m
      → EndsInError (execute_approved_proposal E id a) id w
  unfolding execute_approved_proposal find_settled
  execute_failed E id a w p m fp fe h answer =
      let same = find_proposal-id id w.db p fp in
      let own = subst (λ k. find_proposal k w.db ≡ some p) (sym same) fp in
      let new = subst (λ k. find_execution (proposal_attempt k) w.db ≡ none) (sym same) fe in
      let (r, w', ran, status, stored) = submit_proposal-EndsInError E a p m w own answer in
      (
        r,
        w',
        ap (in_transaction w) (
            execute_body_lem E id a w fp fe
            ∙ >>=-ok (prepare_submission p none) (submit_proposal E a p) w
                (prepare_submission_ready p w h own new)
            ∙ ran),
        status,
        subst (λ k. find_proposal k w'.db ≡ some r.proposal) same stored,
      )
