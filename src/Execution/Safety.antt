-- ===== src/Execution/Safety.antt =====
-- When `executeApprovedProposal` sends an order to the broker, and what it sends.
use text.Mathlib.Text.{◌==◌ as str_eq}
use mt5_ai_trading.Prelude.{
  ◌<◌, leb, ◌&&◌, not, ℕ, ◌≡◌, refl, ◌∙◌, ap, ◌⊎◌, inl, inr, true, false, Option, none, some, ◌∷◌,
  arith, or_default,
}
use mt5_ai_trading.Numeric.{Decimal}
use mathlib.Core.Path.{subst}
use mt5_ai_trading.Domain.{
  TradeProposal, ProposalStatus, same_status, Execution, proposal_attempt, OrderResult,
}
use mt5_ai_trading.Lifecycle.{assert_valid_proposal_transition}
use mt5_ai_trading.Store.{
  World, Engine, Reply, replied, failed, ok, submit, find_proposal, ◌>>=◌,
  find_proposal_by_id_for_update, find_execution, find_execution_by_idempotency_key,
  find_order_by_execution, or_throw, not_found, update_proposal_status, get_trading_mode,
  get_trading_kill_switch_enabled,
}
use mt5_ai_trading.Store.Bind.{bind_cases, with_transaction-calls}
use mt5_ai_trading.Execution.Messages.{entry_request}
use mt5_ai_trading.Execution.Records.{ActorContext, assert_paper_execution_allowed}
use mt5_ai_trading.Execution.Submit.{
  may_submit, is_expired, reject_expired, check_submission, prepared, prepare_submission,
  submit_proposal, record_reply, execute_found, execute_known, execute_body,
  execute_approved_proposal, find_settled,
}
use mt5_ai_trading.Execution.Quiet.Rows.{
  record_submission-IsQuiet, record_failure-IsQuiet, prepare_submission-IsQuiet,
  existing_execution_result-IsQuiet,
}

may_submit-cases :
    (s : ProposalStatus)
    → may_submit s ≡ true
    → (s ≡ ProposalStatus.approved) ⊎ (s ≡ ProposalStatus.execution_error)
may_submit-cases ProposalStatus.approved h = inl refl
may_submit-cases ProposalStatus.execution_error h = inr refl
may_submit-cases ProposalStatus.risk_checking h = ground arith
may_submit-cases ProposalStatus.risk_rejected h = ground arith
may_submit-cases ProposalStatus.pending_approval h = ground arith
may_submit-cases ProposalStatus.owner_rejected h = ground arith
may_submit-cases ProposalStatus.expired h = ground arith
may_submit-cases ProposalStatus.revalidating h = ground arith
may_submit-cases ProposalStatus.risk_rejected_after_approval h = ground arith
may_submit-cases ProposalStatus.submitting h = ground arith
may_submit-cases ProposalStatus.submitted h = ground arith
may_submit-cases ProposalStatus.partially_filled h = ground arith
may_submit-cases ProposalStatus.filled h = ground arith
may_submit-cases ProposalStatus.cancel_pending h = ground arith
may_submit-cases ProposalStatus.cancelled h = ground arith
may_submit-cases ProposalStatus.execution_rejected h = ground arith

unexpired : (t now : ℕ) → (leb t now && true) ≡ false → now < t
unexpired t now h = ground arith

module _ {D : Decimal} where
  -- The guards under which a proposal may be sent.
  pub record MaySend (p : TradeProposal D) (w : World D) : Type 0 where
    pub ready :
        ((p.status ≡ ProposalStatus.approved) × (w.now < p.expires_at))
        ⊎ (p.status ≡ ProposalStatus.execution_error)
    pub paper : str_eq (or_default w.db.settings.trading_mode "PAPER") "PAPER" ≡ true
    pub enabled : or_default w.db.settings.trading_kill_switch_enabled true ≡ true

  reject_expired-ok :
      (p : TradeProposal D) (w : World D)
      → (reject_expired p w).0 ≡ ok tt
      → (is_expired w.now p ≡ false) × (reject_expired p w ≡ (ok tt, w))
  unfolding reject_expired update_proposal_status assert_valid_proposal_transition
  reject_expired-ok p w h = ground arith

  -- The guards as the code tests them.
  record Passes (p : TradeProposal D) (w : World D) : Type 0 where
    pub status_ok : may_submit p.status ≡ true
    pub not_expired : is_expired w.now p ≡ false
    pub paper : str_eq (or_default w.db.settings.trading_mode "PAPER") "PAPER" ≡ true
    pub enabled : or_default w.db.settings.trading_kill_switch_enabled true ≡ true

  check_submission-Passes :
      (p : TradeProposal D) (w : World D) → (check_submission p w).0 ≡ ok tt → Passes p w
  unfolding check_submission assert_paper_execution_allowed get_trading_mode
      get_trading_kill_switch_enabled reject_expired update_proposal_status
      assert_valid_proposal_transition
  check_submission-Passes p w h = ground arith

  Passes-MaySend : (p : TradeProposal D) (w : World D) → Passes p w → MaySend p w
  Passes-MaySend p w h = record {
    ready = elim (may_submit-cases p.status h.status_ok) [
      | inl e ↦ inl (
        e,
        unexpired p.expires_at w.now (
            subst
              (λ s.
                (leb p.expires_at w.now && not (same_status s ProposalStatus.execution_error))
                ≡ false)
              e h.not_expired),
      )
      | inr e ↦ inr e
    ];
    paper = h.paper;
    enabled = h.enabled;
  }

  prepare_submission-MaySend :
      (p : TradeProposal D) (e : Option Execution) (w : World D) (x : Execution × TradeProposal D)
      → (prepare_submission p e w).0 ≡ ok x
      → MaySend p w
  unfolding prepare_submission
  prepare_submission-MaySend p e w x h = elim (bind_cases (check_submission p) (prepared p e) w) [
    | inl (a, passed, same) ↦ Passes-MaySend p w (check_submission-Passes p w passed)
    | inr (x, refused, same) ↦ cc
  ]

  submit_proposal-calls :
      (E : Engine D) (a : ActorContext) (p : TradeProposal D) (x : Execution × TradeProposal D)
      (w : World D)
      → (submit_proposal E a p x w).1.calls ≡ submit (entry_request p) ∷ w.calls
  unfolding submit_proposal
  submit_proposal-calls E a p (e, s) w = go (E.submit_order w.calls (entry_request p))
    where
      sent : World D
      sent = record w { calls = submit (entry_request p) ∷ w.calls }

      go :
          (r : Reply (OrderResult D))
          → (record_reply E a p e s r sent).1.calls ≡ submit (entry_request p) ∷ w.calls
      go (replied r) = (record_submission-IsQuiet E a p e s r).calls_same sent
      go (failed m) = (record_failure-IsQuiet a p e s m).calls_same sent

  -- What a workflow on the proposal with this id may send.
  abbrev pub SendsOnce : ℕ → World D → World D → Type 0
  SendsOnce id w w' =
      (w'.calls ≡ w.calls)
      ⊎ ((p : TradeProposal D) × (find_proposal id w.db ≡ some p)
          × MaySend p w
          × (w'.calls ≡ submit (entry_request p) ∷ w.calls))

  submission-SendsOnce :
      (E : Engine D) (a : ActorContext) (id : ℕ) (p : TradeProposal D) (e : Option Execution)
      (w : World D)
      → find_proposal id w.db ≡ some p
      → SendsOnce id w ((prepare_submission p e >>= submit_proposal E a p) w).1
  submission-SendsOnce E a id p e w found =
      elim (bind_cases (prepare_submission p e) (submit_proposal E a p) w) [
        | inl (x, ready, same) ↦ rw same (
            inr (
              p,
              found,
              prepare_submission-MaySend p e w x ready,
              submit_proposal-calls E a p x (prepare_submission p e w).1
                  ∙ ap (λ c. submit (entry_request p) ∷ c)
                      ((prepare_submission-IsQuiet p e).calls_same w),
            ))
        | inr (x, refused, same) ↦ rw same (inl ((prepare_submission-IsQuiet p e).calls_same w))
      ]

  execute_found-SendsOnce :
      (E : Engine D) (a : ActorContext) (id : ℕ) (p : TradeProposal D)
      (e settled : Option Execution) (w : World D)
      → find_proposal id w.db ≡ some p
      → SendsOnce id w (execute_found E a p e settled w).1
  execute_found-SendsOnce E a id p e none w found = submission-SendsOnce E a id p e w found
  execute_found-SendsOnce E a id p e (some x) w found =
      inl ((existing_execution_result-IsQuiet p x).calls_same w)

  find_settled-world : (e : Option Execution) (w : World D) → (find_settled e w).1 ≡ w
  unfolding find_settled find_order_by_execution
  find_settled-world none w = refl
  find_settled-world (some e) w = refl

  execute_settled-SendsOnce :
      (E : Engine D) (a : ActorContext) (id : ℕ) (p : TradeProposal D) (e : Option Execution)
      (w : World D)
      → find_proposal id w.db ≡ some p
      → SendsOnce id w ((find_settled e >>= execute_found E a p e) w).1
  execute_settled-SendsOnce E a id p e w found =
      elim (bind_cases (find_settled e) (execute_found E a p e) w) [
        | inl (s, ready, same) ↦
            rw (same, find_settled-world e w) (execute_found-SendsOnce E a id p e s w found)
        | inr (x, refused, same) ↦ rw (same, find_settled-world e w) (inl refl)
      ]

  execute_known-SendsOnce :
      (E : Engine D) (id : ℕ) (a : ActorContext) (w : World D) (o : Option (TradeProposal D))
      → find_proposal id w.db ≡ o
      → SendsOnce id w
          ((or_throw o (not_found "Trade proposal not found") >>= execute_known E id a) w).1
  unfolding find_execution_by_idempotency_key
  execute_known-SendsOnce E id a w none missing = inl refl
  execute_known-SendsOnce E id a w (some p) found =
      execute_settled-SendsOnce E a id p (find_execution (proposal_attempt id) w.db) w found

  execute_body-SendsOnce :
      (E : Engine D) (id : ℕ) (a : ActorContext) (w : World D)
      → SendsOnce id w (execute_body E id a w).1
  unfolding execute_body find_proposal_by_id_for_update
  execute_body-SendsOnce E id a w = execute_known-SendsOnce E id a w (find_proposal id w.db) refl

  -- Whatever it returns or throws, `executeApprovedProposal` either sends the broker nothing or
  -- sends exactly one order: that of the stored proposal with this id, which is then APPROVED and
  -- not past its expiry, or in EXECUTION_ERROR, while the trading mode is PAPER and the kill switch
  -- setting is not false.
  pub execute_sends_guarded :
      (E : Engine D) (id : ℕ) (a : ActorContext) (w : World D)
      → SendsOnce id w (execute_approved_proposal E id a w).1
  unfolding execute_approved_proposal
  execute_sends_guarded E id a w =
      rw (with_transaction-calls (execute_body E id a) w) (execute_body-SendsOnce E id a w)
