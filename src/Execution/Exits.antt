-- ===== src/Execution/Exits.antt =====
-- What `recordApprovedBracketExit` does for a fill that is stored already, and for a bracket that
-- does not come from phase 22.
use mt5_ai_trading.Prelude.{ℕ, ◌≡◌, refl, ◌∙◌, ap, true, false, ◌&&◌, Option, none, some, find}
use mt5_ai_trading.Numeric.{Decimal}
use mt5_ai_trading.Domain.{
  TradeProposal, ProposalStatus, Execution, Order, FillEvent, Fill, Side, proposal_attempt,
}
use mt5_ai_trading.Store.{
  World, Action, Engine, Error, ok, err, in_transaction, or_throw, not_found, invalid_transition,
  ◌>>=◌, is_buy, find_proposal, find_execution, of_execution, has_fill_id,
  find_proposal_by_id_for_update, find_execution_by_idempotency_key, find_order_by_execution,
  find_fill_by_broker_fill_id, find_position_by_symbol_for_update,
}
use mt5_ai_trading.Execution.Records.{ActorContext, existing_execution_result}
use mt5_ai_trading.Execution.Outcome.{stored_result}
use mt5_ai_trading.Execution.Exit.{
  BracketExitReason, is_bracket_phase, has_phase22_bracket, exit_guarded, exit_of_execution,
  exit_of_proposal, exit_body, record_approved_bracket_exit,
}

module _ {D : Decimal} where
  -- The workflow once the rows that it needs have been found.
  exit_body_lem :
      (E : Engine D) (id : ℕ) (r : BracketExitReason) (f : FillEvent D) (a : ActorContext)
      (w : World D) {p : TradeProposal D} {e : Execution} {o : Order D}
      → find_proposal id w.db ≡ some p
      → find_execution (proposal_attempt p.id) w.db ≡ some e
      → find (of_execution e.id) w.db.orders ≡ some o
      → exit_body E id r f a w ≡ exit_guarded E a p r f e o w
  unfolding exit_body find_proposal_by_id_for_update find_execution_by_idempotency_key
      find_order_by_execution
  exit_body_lem E id r f a w {p} {e} fp fe fo =
      ap (λ q. (or_throw q (not_found "Trade proposal not found") >>= exit_of_proposal E a r f) w)
        fp
      ∙ ap
          (λ q.
            (or_throw q (not_found "Trade execution not found") >>= exit_of_execution E a p r f) w)
          fe
      ∙ ap
          (λ q.
            (or_throw q (not_found "Bracket parent order not found") >>= exit_guarded E a p r f e)
              w)
          fo

  exit_guarded_again :
      (E : Engine D) (r : BracketExitReason) (f : FillEvent D) (a : ActorContext) (w : World D)
      (p : TradeProposal D) (e : Execution) (o : Order D) (x : Fill D)
      → has_phase22_bracket p ≡ true
      → find (has_fill_id f.fill_id) w.db.fills ≡ some x
      → exit_guarded E a p r f e o w ≡ (ok (stored_result p e w), w)
  unfolding existing_execution_result find_order_by_execution find_position_by_symbol_for_update
      find_fill_by_broker_fill_id
  exit_guarded_again E r f a w p e o x bracket fx = rw (bracket, fx) refl

  -- For a phase 22 bracket whose execution and order are stored, a fill that is stored already makes
  -- `recordApprovedBracketExit` return what is stored for the execution, and change nothing.
  pub exit_again :
      (E : Engine D) (id : ℕ) (r : BracketExitReason) (f : FillEvent D) (a : ActorContext)
      (w : World D) (p : TradeProposal D) (e : Execution) (o : Order D) (x : Fill D)
      → find_proposal id w.db ≡ some p
      → find_execution (proposal_attempt p.id) w.db ≡ some e
      → find (of_execution e.id) w.db.orders ≡ some o
      → has_phase22_bracket p ≡ true
      → find (has_fill_id f.fill_id) w.db.fills ≡ some x
      → record_approved_bracket_exit E id r f a w ≡ (ok (stored_result p e w), w)
  unfolding record_approved_bracket_exit
  exit_again E id r f a w p e o x fp fe fo bracket fx =
      ap (in_transaction w)
        (exit_body_lem E id r f a w fp fe fo ∙ exit_guarded_again E r f a w p e o x bracket fx)

  -- An action that throws and leaves the world as it is.
  abbrev pub Refuses : {A : Type 0} → Action D A → World D → Type 0
  Refuses m w = (x : Error D) × (m w ≡ (err x, w))

  or_throw-Refuses :
      {A B : Type 0} (o : Option A) (x : Error D) (m : A → Action D B) (w : World D)
      → ((y : A) → Refuses (m y) w)
      → Refuses (or_throw o x >>= m) w
  or_throw-Refuses none x m w h = (x, refl)
  or_throw-Refuses (some y) x m w h = h y

  exit_guarded-Refuses :
      (E : Engine D) (r : BracketExitReason) (f : FillEvent D) (a : ActorContext) (w : World D)
      (p : TradeProposal D) (e : Execution) (o : Order D)
      → has_phase22_bracket p ≡ false
      → Refuses (exit_guarded E a p r f e o) w
  exit_guarded-Refuses E r f a w p e o h =
      (invalid_transition p.status ProposalStatus.filled, rw h refl)

  exit_of_proposal-Refuses :
      (E : Engine D) (r : BracketExitReason) (f : FillEvent D) (a : ActorContext) (w : World D)
      (p : TradeProposal D)
      → has_phase22_bracket p ≡ false
      → Refuses (exit_of_proposal E a r f p) w
  unfolding find_execution_by_idempotency_key find_order_by_execution
  exit_of_proposal-Refuses E r f a w p h =
      or_throw-Refuses (find_execution (proposal_attempt p.id) w.db)
        (not_found "Trade execution not found") (exit_of_execution E a p r f) w
        (λ e.
          or_throw-Refuses (find (of_execution e.id) w.db.orders)
            (not_found "Bracket parent order not found") (exit_guarded E a p r f e) w
            (λ o. exit_guarded-Refuses E r f a w p e o h))

  not_phase22 :
      (p : TradeProposal D) → p.risk_snapshot.phase22 ≡ none → has_phase22_bracket p ≡ false
  not_phase22 p h = go p.side
    where
      go : (s : Side) → (is_buy s && is_bracket_phase p.risk_snapshot.phase22) ≡ false
      go Side.buy = rw h refl
      go Side.sell = refl

  exit_body-Refuses :
      (E : Engine D) (id : ℕ) (r : BracketExitReason) (f : FillEvent D) (a : ActorContext)
      (w : World D) (p : TradeProposal D)
      → find_proposal id w.db ≡ some p
      → has_phase22_bracket p ≡ false
      → Refuses (exit_body E id r f a) w
  unfolding exit_body find_proposal_by_id_for_update
  exit_body-Refuses E id r f a w p fp h =
      let (x, same) = exit_of_proposal-Refuses E r f a w p h in
      (
        x,
        ap (λ q. (or_throw q (not_found "Trade proposal not found") >>= exit_of_proposal E a r f) w)
              fp
            ∙ same,
      )

  -- For a stored proposal whose risk snapshot has no phase 22, `recordApprovedBracketExit` throws and
  -- changes nothing, for every fill and whichever brackets the other phases hold.
  pub exit_refused :
      (E : Engine D) (id : ℕ) (r : BracketExitReason) (f : FillEvent D) (a : ActorContext)
      (w : World D) (p : TradeProposal D)
      → find_proposal id w.db ≡ some p
      → p.risk_snapshot.phase22 ≡ none
      → Refuses (record_approved_bracket_exit E id r f a) w
  unfolding record_approved_bracket_exit
  exit_refused E id r f a w p fp h =
      let (x, same) = exit_body-Refuses E id r f a w p fp (not_phase22 p h) in
      (x, ap (in_transaction w) same)
