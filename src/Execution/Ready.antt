-- ===== src/Execution/Ready.antt =====
-- A submission whose guards pass: the execution's row, and the proposal as SUBMITTING.
use text.Mathlib.Text.{◌==◌ as str_eq}
use mt5_ai_trading.Prelude.{
  suc, ◌<◌, ◌≡◌, refl, ◌∙◌, Bool, true, false, none, some, List, [], ◌∷◌, arith, find, any,
  or_default,
}
use mt5_ai_trading.Numeric.{Decimal}
use mt5_ai_trading.Domain.{TradeProposal, ProposalStatus, Execution, proposal_attempt}
use mt5_ai_trading.Lifecycle.{assert_valid_proposal_transition}
use mt5_ai_trading.Store.{
  World, Action, ok, pure, ◌>>=◌, ◌>>◌, has_id, has_key, set_status, no_times, find_proposal,
  find_execution, create_execution, new_execution, add_execution, update_proposal_status,
  get_trading_mode, get_trading_kill_switch_enabled, put_proposals,
}
use mt5_ai_trading.Store.Bind.{>>=-ok}
use mt5_ai_trading.Store.Tables.{find-update_rows}
use mt5_ai_trading.Execution.Records.{assert_paper_execution_allowed}
use mt5_ai_trading.Execution.Submit.{reject_expired, check_submission, prepared, prepare_submission}

any-none : {A : Type 0} (p : A → Bool) (l : List A) → find p l ≡ none → any p l ≡ false
any-none p [] h = refl
any-none p (x ∷ l) h = ground (arith, any-none p l)

module _ {D : Decimal} where
  -- A stored proposal that is APPROVED and in time, under PAPER mode and an enabled kill switch.
  pub record IsReady (p : TradeProposal D) (w : World D) : Type 0 where
    pub approved : p.status ≡ ProposalStatus.approved
    pub in_time : w.now < p.expires_at
    pub paper : str_eq (or_default w.db.settings.trading_mode "PAPER") "PAPER" ≡ true
    pub enabled : or_default w.db.settings.trading_kill_switch_enabled true ≡ true

  check_submission_ready :
      (p : TradeProposal D) (w : World D) → IsReady p w → check_submission p w ≡ (ok tt, w)
  unfolding check_submission reject_expired assert_paper_execution_allowed get_trading_mode
      get_trading_kill_switch_enabled
  check_submission_ready p w h = ground arith

  abbrev pub new_row : TradeProposal D → World D → Execution
  new_row p w = new_execution p.id (proposal_attempt p.id) 1 w.db.next_id w.now

  abbrev pub with_execution : TradeProposal D → World D → World D
  with_execution p w = record w {
    db = add_execution (new_row p w) (record (w.db) { next_id = suc w.db.next_id });
  }

  create_execution_new :
      (p : TradeProposal D) (w : World D)
      → find_execution (proposal_attempt p.id) w.db ≡ none
      → create_execution p.id (proposal_attempt p.id) 1 w ≡ (ok (new_row p w), with_execution p w)
  unfolding create_execution
  create_execution_new p w h =
      ground (arith, any-none (has_key (proposal_attempt p.id)) w.db.executions h)

  abbrev pub marked_as : ProposalStatus → TradeProposal D → World D → World D
  marked_as s p w = record w { db = put_proposals (has_id p.id) (set_status s no_times w.now) w.db }

  pub marked_row :
      (p : TradeProposal D) (s : ProposalStatus) (w : World D)
      → find_proposal p.id w.db ≡ some p
      → find_proposal p.id (marked_as s p w).db ≡ some (set_status s no_times w.now p)
  marked_row p s w h =
      find-update_rows (has_id p.id) (set_status s no_times w.now) w.db.proposals p (λ x e. e) h

  pub update_proposal_status_found :
      (p : TradeProposal D) (s : ProposalStatus) (w : World D)
      → find_proposal p.id w.db ≡ some p
      → update_proposal_status p.id s no_times w
        ≡ (ok (set_status s no_times w.now p), marked_as s p w)
  unfolding update_proposal_status
  update_proposal_status_found p s w h = ground (arith, marked_row p s w h)

  submitting_allowed :
      (p : TradeProposal D) (w : World D)
      → p.status ≡ ProposalStatus.approved
      → assert_valid_proposal_transition p.status ProposalStatus.submitting w ≡ (ok tt, w)
  unfolding assert_valid_proposal_transition
  submitting_allowed p w h = rw h refl

  abbrev pub submitting_row : TradeProposal D → World D → TradeProposal D
  submitting_row p w = set_status ProposalStatus.submitting no_times w.now p

  abbrev pub submitting_world : TradeProposal D → World D → World D
  submitting_world p w = marked_as ProposalStatus.submitting p (with_execution p w)

  prepared_ready :
      (p : TradeProposal D) (w : World D)
      → p.status ≡ ProposalStatus.approved
      → find_proposal p.id w.db ≡ some p
      → find_execution (proposal_attempt p.id) w.db ≡ none
      → prepared p none tt w ≡ (ok (new_row p w, submitting_row p w), submitting_world p w)
  prepared_ready p w status fp fe =
      let v = with_execution p w in
      let update : Action D (TradeProposal D) =
        update_proposal_status p.id ProposalStatus.submitting no_times in
      >>=-ok (create_execution p.id (proposal_attempt p.id) 1)
        (λ e.
          assert_valid_proposal_transition p.status ProposalStatus.submitting
          >> (update >>= λ s. pure (e, s)))
        w (create_execution_new p w fe)
      ∙ >>=-ok (assert_valid_proposal_transition p.status ProposalStatus.submitting)
          (λ _. update >>= λ s. pure (new_row p w, s)) v (submitting_allowed p v status)
      ∙ >>=-ok update (λ s. pure (new_row p w, s)) v
          (update_proposal_status_found p ProposalStatus.submitting v fp)

  pub prepare_submission_ready :
      (p : TradeProposal D) (w : World D)
      → IsReady p w
      → find_proposal p.id w.db ≡ some p
      → find_execution (proposal_attempt p.id) w.db ≡ none
      → prepare_submission p none w ≡ (ok (new_row p w, submitting_row p w), submitting_world p w)
  unfolding prepare_submission
  prepare_submission_ready p w h fp fe =
      >>=-ok (check_submission p) (prepared p none) w (check_submission_ready p w h)
      ∙ prepared_ready p w h.approved fp fe
