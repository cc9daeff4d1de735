-- ===== src/Execution/Outcome.antt =====
-- `executeApprovedProposal` on proposals that have been executed before and on late ones.
use mt5_ai_trading.Prelude.{
  ℕ, ◌≡◌, refl, ◌∙◌, sym, ap, true, false, Option, none, some, arith, find,
}
use mt5_ai_trading.Numeric.{Decimal}
use mt5_ai_trading.Domain.{TradeProposal, ProposalStatus, Execution, proposal_attempt}
use mt5_ai_trading.Lifecycle.{is_allowed, assert_valid_proposal_transition}
use mt5_ai_trading.Store.{
  World, Db, Engine, ok, err, find_proposal, find_execution, set_status, no_times, proposal_expired,
  has_id, put_proposals, in_transaction, or_throw, not_found, ◌>>=◌, of_execution, of_symbol,
  find_proposal_by_id_for_update, find_execution_by_idempotency_key, update_proposal_status,
  find_order_by_execution, find_position_by_symbol_for_update,
}
use mt5_ai_trading.Store.Bind.{>>=-ok, >>=-err}
use mt5_ai_trading.Store.Tables.{find-update_rows, find-holds}
use mathlib.Core.Path.{subst}
use mt5_ai_trading.Execution.Messages.{is_error}
use mt5_ai_trading.Execution.Records.{
  ActorContext, ExecutionWorkflowResult, existing_execution_result, fills_of,
}
use mt5_ai_trading.Execution.Submit.{
  is_expired, reject_expired, check_submission, after_expiry, prepared, prepare_submission,
  submit_proposal, execute_known, execute_found, execute_body, execute_approved_proposal,
  find_settled,
}

module _ {D : Decimal} where
  -- What is stored for an execution: its first order, that order's fills, and the position.
  abbrev pub stored_result : TradeProposal D → Execution → World D → ExecutionWorkflowResult D
  stored_result p e w = record {
    proposal = p;
    execution = e;
    order = find (of_execution e.id) w.db.orders;
    fills = fills_of (find (of_execution e.id) w.db.orders) w.db;
    position = find (of_symbol p.symbol) w.db.positions;
    idempotent = true;
  }

  existing_execution_result_lem :
      (p : TradeProposal D) (e : Execution) (w : World D)
      → existing_execution_result p e w ≡ (ok (stored_result p e w), w)
  unfolding existing_execution_result find_order_by_execution find_position_by_symbol_for_update
  existing_execution_result_lem p e w = refl

  -- The workflow once the proposal and its execution have been looked up.
  pub execute_body_lem :
      (E : Engine D) (id : ℕ) (a : ActorContext) (w : World D) {p : TradeProposal D}
      {o : Option Execution}
      → find_proposal id w.db ≡ some p
      → find_execution (proposal_attempt id) w.db ≡ o
      → execute_body E id a w ≡ (find_settled o >>= execute_found E a p o) w
  unfolding execute_body find_proposal_by_id_for_update find_execution_by_idempotency_key
  execute_body_lem E id a w {p} fp fe =
      ap (λ q. (or_throw q (not_found "Trade proposal not found") >>= execute_known E id a) w) fp
      ∙ ap (λ o. (find_settled o >>= execute_found E a p o) w) fe

  find_settled_live :
      (e : Execution) (w : World D)
      → is_error e.status ≡ false
      → find_settled (some e) w ≡ (ok (some e), w)
  unfolding find_settled find_order_by_execution
  find_settled_live e w h = rw h

  -- If the proposal's execution is stored with a status other than ERROR, the call returns what is
  -- stored for it, marked as idempotent, and changes neither the tables nor what the broker was sent.
  pub execute_again :
      (E : Engine D) (id : ℕ) (a : ActorContext) (w : World D) (p : TradeProposal D) (e : Execution)
      → find_proposal id w.db ≡ some p
      → find_execution (proposal_attempt id) w.db ≡ some e
      → is_error e.status ≡ false
      → execute_approved_proposal E id a w ≡ (ok (stored_result p e w), w)
  unfolding execute_approved_proposal
  execute_again E id a w p e fp fe live = ap (in_transaction w) (
      execute_body_lem E id a w fp fe
      ∙ >>=-ok (find_settled (some e)) (execute_found E a p (some e)) w (find_settled_live e w live)
      ∙ existing_execution_result_lem p e w)

  pub find_proposal-id :
      (id : ℕ) (db : Db D) (p : TradeProposal D) → find_proposal id db ≡ some p → p.id ≡ id
  find_proposal-id id db p h = ground (arith, find-holds (has_id id) db.proposals p h)

  -- The world in which `reject_expired` has marked the proposal.
  abbrev marked_expired : TradeProposal D → World D → World D
  marked_expired p w = record w {
    db = put_proposals (has_id p.id) (set_status ProposalStatus.expired no_times w.now) w.db;
  }

  reject_expired_late :
      (p : TradeProposal D) (w : World D)
      → find_proposal p.id w.db ≡ some p
      → is_expired w.now p ≡ true
      → is_allowed p.status ProposalStatus.expired ≡ true
      → reject_expired p w ≡ (
        err (proposal_expired (set_status ProposalStatus.expired no_times w.now p)),
        marked_expired p w,
      )
  unfolding reject_expired assert_valid_proposal_transition update_proposal_status
  reject_expired_late p w fp late may = ground (
    arith,
    find-update_rows (has_id p.id) (set_status ProposalStatus.expired no_times w.now) w.db.proposals
        p (λ x h. h) fp,
  )

  -- An expirable proposal past its expiry, with no stored execution: the call throws
  -- ProposalExpiredError with the proposal as EXPIRED, and the tables are as they were, so the stored
  -- proposal keeps its status; the broker is sent nothing.
  pub execute_expired :
      (E : Engine D) (id : ℕ) (a : ActorContext) (w : World D) (p : TradeProposal D)
      → find_proposal id w.db ≡ some p
      → find_execution (proposal_attempt id) w.db ≡ none
      → is_expired w.now p ≡ true
      → is_allowed p.status ProposalStatus.expired ≡ true
      → execute_approved_proposal E id a w
        ≡ (err (proposal_expired (set_status ProposalStatus.expired no_times w.now p)), w)
  unfolding execute_approved_proposal find_settled prepare_submission check_submission
  execute_expired E id a w p fp fe late may =
      let own =
        subst (λ k. find_proposal k w.db ≡ some p) (sym (find_proposal-id id w.db p fp)) fp in
      ap (in_transaction w) (
        execute_body_lem E id a w fp fe
        ∙ >>=-err (prepare_submission p none) (submit_proposal E a p) w (
            >>=-err (check_submission p) (prepared p none) w (
              >>=-err (reject_expired p) (λ _. after_expiry p) w
                (reject_expired_late p w own late may))))
