-- ===== src/Execution/Cancelled.antt =====
-- What becomes of `executeApprovedProposal` when the broker answers an order with CANCELLED.
use mt5_ai_trading.Prelude.{
  List, ◌∷◌, ◌⊎◌, ℕ, ◌≡◌, refl, ◌∙◌, sym, ap, inl, inr, Option, none, some, arith,
}
use mt5_ai_trading.Numeric.{Decimal}
use mt5_ai_trading.Domain.{
  TradeProposal, ProposalStatus, Execution, OrderStatus, OrderResult, OrderRequest,
  proposal_attempt,
}
use mt5_ai_trading.Lifecycle.{assert_valid_proposal_transition}
use mt5_ai_trading.Store.{
  World, Action, Engine, Error, BrokerCall, replied, ok, err, invalid_transition, submit,
  find_proposal, find_execution, set_status, no_times, ProposalTimes, has_id, in_transaction,
  or_throw, not_found, ◌>>=◌, update_proposal_status, find_proposal_by_id_for_update,
  find_execution_by_idempotency_key, find_order_by_execution, find_position_by_symbol_for_update,
}
use mt5_ai_trading.Store.Bind.{bind_cases}
use mt5_ai_trading.Store.Tables.{find-update_rows_inv}
use mathlib.Core.Path.{subst}
use mt5_ai_trading.Execution.Messages.{proposal_status_from_broker, entry_request}
use mt5_ai_trading.Execution.Records.{ActorContext, existing_execution_result}
use mt5_ai_trading.Execution.Submit.{
  prepare_submission, submit_proposal, record_reply, execute_found, execute_known, execute_body,
  execute_approved_proposal, find_settled, settle_proposal, update_proposal_status_after_submission,
  record_submission, settled_as, mark, mark_settled, settle_marked,
}

module _ {D : Decimal} where
  -- A workflow that throws, wherever it starts.
  record IsFailing {A : Type 0} (m : Action D A) : Type 0 where
    fails : (w : World D) → (e : Error D) × ((m w).0 ≡ err e)

  first-IsFailing :
      {A B : Type 0} (m : Action D A) (f : A → Action D B) → IsFailing m → IsFailing (m >>= f)
  first-IsFailing m f h = record {
    fails = λ w. elim (bind_cases m f w) [
      | inl (a, done, same) ↦ absurd (ground (arith, (h.fails w).1))
      | inr (e, thrown, same) ↦ (e, ap (λ q. q.0) same)
    ];
  }

  rest-IsFailing :
      {A B : Type 0} (m : Action D A) (f : A → Action D B)
      → ((a : A) → IsFailing (f a))
      → IsFailing (m >>= f)
  rest-IsFailing m f h = record {
    fails = λ w. elim (bind_cases m f w) [
      | inl (a, done, same) ↦
          let (e, thrown) = (h a).fails (m w).1 in (e, ap (λ q. q.0) same ∙ thrown)
      | inr (e, thrown, same) ↦ (e, ap (λ q. q.0) same)
    ];
  }

  -- The row that `updateProposalStatus` returns has the status that it set.
  update_proposal_status-status :
      (id : ℕ) (s : ProposalStatus) (t : ProposalTimes) (w : World D) (p : TradeProposal D)
      → (update_proposal_status id s t w).0 ≡ ok p
      → p.status ≡ s
  unfolding update_proposal_status
  update_proposal_status-status id s t w p h =
      ground (
        arith,
        find-update_rows_inv (has_id id) (set_status s t w.now) w.db.proposals p (λ x. refl),
      )

  after_submission_cancelled :
      (p : TradeProposal D)
      → p.status ≡ ProposalStatus.submitted
      → IsFailing (update_proposal_status_after_submission p ProposalStatus.cancelled)
  unfolding update_proposal_status_after_submission assert_valid_proposal_transition
  after_submission_cancelled p h = record {
    fails = λ w. (invalid_transition p.status ProposalStatus.cancelled, rw h);
  }

  -- What `settle_proposal` does with the row that it has marked SUBMITTED.
  settled_as-IsFailing :
      (p : TradeProposal D) (s : OrderStatus)
      → p.status ≡ ProposalStatus.submitted
      → s ≡ OrderStatus.cancelled
      → IsFailing (settled_as p (proposal_status_from_broker s))
  settled_as-IsFailing p s h e =
      subst (λ t. IsFailing (settled_as p (proposal_status_from_broker t))) (sym e)
        (after_submission_cancelled p h)

  settle_proposal-IsFailing :
      (p : TradeProposal D) (r : OrderResult D)
      → r.status ≡ OrderStatus.cancelled
      → IsFailing (settle_proposal p r)
  unfolding settle_proposal
  settle_proposal-IsFailing p r e =
      rest-IsFailing (assert_valid_proposal_transition p.status ProposalStatus.submitted)
        (λ _. mark_settled p r)
        (λ _. record {
          fails = λ w. elim (bind_cases (mark p) (settle_marked r) w) [
            | inl (a, done, same) ↦
                let status =
                  update_proposal_status-status p.id ProposalStatus.submitted no_times w a done in
                let (x, thrown) = (settled_as-IsFailing a r.status status e).fails (mark p w).1 in
                (x, ap (λ q. q.0) same ∙ thrown)
            | inr (x, thrown, same) ↦ (x, ap (λ q. q.0) same)
          ];
        })

  record_submission-IsFailing :
      (E : Engine D) (a : ActorContext) (p : TradeProposal D) (e : Execution) (s : TradeProposal D)
      (r : OrderResult D)
      → r.status ≡ OrderStatus.cancelled
      → IsFailing (record_submission E a p e s r)
  unfolding record_submission
  record_submission-IsFailing E a p e s r h =
      search (rest-IsFailing, first-IsFailing, settle_proposal-IsFailing s r h) depth 12

  -- A broker that answers every order with CANCELLED.
  abbrev pub AlwaysCancels : Engine D → Type 0
  AlwaysCancels E =
      (cs : List (BrokerCall D)) (q : OrderRequest D)
      → (r : OrderResult D) × (E.submit_order cs q ≡ replied r) × (r.status ≡ OrderStatus.cancelled)

  submit_proposal-IsFailing :
      (E : Engine D) (a : ActorContext) (p : TradeProposal D) (x : Execution × TradeProposal D)
      → AlwaysCancels E
      → IsFailing (submit_proposal E a p x)
  unfolding submit_proposal
  submit_proposal-IsFailing E a p (e, s) h = record {
    fails = λ w.
        let (r, answer, status) = h w.calls (entry_request p) in
        let sent = record w { calls = submit (entry_request p) ∷ w.calls } in
        let (x, thrown) = (record_submission-IsFailing E a p e s r status).fails sent in
        (x, ap (λ q. (record_reply E a p e s q sent).0) answer ∙ thrown);
  }

  find_settled-keeps : (o : Option Execution) (w : World D) → (find_settled o w).1 ≡ w
  unfolding find_settled find_order_by_execution
  find_settled-keeps none w = refl
  find_settled-keeps (some e) w = refl

  -- A workflow that throws, or leaves the world as it is.
  abbrev FailsOrKeeps : {A : Type 0} → Action D A → World D → Type 0
  FailsOrKeeps m w = ((e : Error D) × ((m w).0 ≡ err e)) ⊎ ((m w).1 ≡ w)

  submission-IsFailing :
      (E : Engine D) (a : ActorContext) (p : TradeProposal D) (o : Option Execution)
      → AlwaysCancels E
      → IsFailing (prepare_submission p o >>= submit_proposal E a p)
  submission-IsFailing E a p o h =
      rest-IsFailing (prepare_submission p o) (submit_proposal E a p)
        (λ x. submit_proposal-IsFailing E a p x h)

  execute_found_cancelled :
      (E : Engine D) (a : ActorContext) (p : TradeProposal D) (o settled : Option Execution)
      (w : World D)
      → AlwaysCancels E
      → FailsOrKeeps (execute_found E a p o settled) w
  unfolding existing_execution_result find_order_by_execution find_position_by_symbol_for_update
  execute_found_cancelled E a p o none w h = inl ((submission-IsFailing E a p o h).fails w)
  execute_found_cancelled E a p o (some x) w h = inr refl

  execute_settled_cancelled :
      (E : Engine D) (a : ActorContext) (p : TradeProposal D) (o : Option Execution) (w : World D)
      → AlwaysCancels E
      → FailsOrKeeps (find_settled o >>= execute_found E a p o) w
  execute_settled_cancelled E a p o w h =
      elim (bind_cases (find_settled o) (execute_found E a p o) w) [
        | inl (s, ready, same) ↦
            rw (same, find_settled-keeps o w) (execute_found_cancelled E a p o s w h)
        | inr (x, refused, same) ↦ inl (x, ap (λ q. q.0) same)
      ]

  execute_known_cancelled :
      (E : Engine D) (id : ℕ) (a : ActorContext) (w : World D) (o : Option (TradeProposal D))
      → AlwaysCancels E
      → FailsOrKeeps (or_throw o (not_found "Trade proposal not found") >>= execute_known E id a) w
  unfolding find_execution_by_idempotency_key
  execute_known_cancelled E id a w none h = inr refl
  execute_known_cancelled E id a w (some p) h =
      execute_settled_cancelled E a p (find_execution (proposal_attempt id) w.db) w h

  execute_body_cancelled :
      (E : Engine D) (id : ℕ) (a : ActorContext) (w : World D)
      → AlwaysCancels E
      → FailsOrKeeps (execute_body E id a) w
  unfolding execute_body find_proposal_by_id_for_update
  execute_body_cancelled E id a w h = execute_known_cancelled E id a w (find_proposal id w.db) h

  -- The tables after a transaction that has thrown, or has changed nothing.
  ended_same :
      {A : Type 0} (m : Action D A) (w : World D)
      → FailsOrKeeps m w
      → (in_transaction w (m w)).1.db ≡ w.db
  ended_same m w (inl (e, h)) = ground arith
  ended_same m w (inr h) = ground arith

  -- If the broker answers every order with CANCELLED, `executeApprovedProposal` leaves the tables as
  -- they were, although it may have sent an order: neither the execution nor the order is recorded.
  pub execute_cancelled :
      (E : Engine D) (id : ℕ) (a : ActorContext) (w : World D)
      → AlwaysCancels E
      → (execute_approved_proposal E id a w).1.db ≡ w.db
  unfolding execute_approved_proposal
  execute_cancelled E id a w h =
      ended_same (execute_body E id a) w (execute_body_cancelled E id a w h)
