-- ===== src/Execution/Reconcile/Brackets.antt =====
-- `reconcileBracketOrders` only asks: it sends the broker no order and cancels none.
use mt5_ai_trading.Prelude.{ℕ, ◌≡◌, refl, ◌∙◌, Bool, true, false, Option, none, some, List, [], ◌∷◌}
use mathlib.Core.Path.{subst}
use mt5_ai_trading.Numeric.{Decimal}
use mt5_ai_trading.Domain.{TradeProposal, Execution, Order, FillEvent}
use mt5_ai_trading.Store.{
  World, Action, Engine, Result, ok, err, find_proposal_by_id_for_update,
  find_execution_by_idempotency_key, find_order_by_execution, find_fill_by_broker_fill_id,
  find_open_bracket_orders,
}
use mt5_ai_trading.Store.Bind.{with_transaction-calls}
use mt5_ai_trading.Execution.Records.{ActorContext}
use mt5_ai_trading.Execution.Quiet.{IsQuiet, store_steps}
use mt5_ai_trading.Execution.Quiet.Rows.{
  persist_fills-IsQuiet, update_position_from_fills-IsQuiet, write_portfolio_snapshot-IsQuiet,
  existing_execution_result-IsQuiet,
}
use mt5_ai_trading.Execution.Exit.{
  BracketExitReason, record_exit, exit_unless, exit_body, record_approved_bracket_exit,
}
use mt5_ai_trading.Execution.Reconcile.{
  PollResult, nothing_polled, tally, attempt_of, poll, record_leg, reconcile_legs,
  reconcile_bracket, both_legs, polled_from, reconcile_bracket_orders,
}

module _ {D : Decimal} where
  record_exit-IsQuiet :
      (E : Engine D) (a : ActorContext) (p : TradeProposal D) (e : Execution) (o : Order D)
      (r : BracketExitReason) (f : FillEvent D)
      → IsQuiet (record_exit E a p e o r f)
  unfolding record_exit
  record_exit-IsQuiet E a p e o r f =
      search
        (
          store_steps, persist_fills-IsQuiet, update_position_from_fills-IsQuiet,
          write_portfolio_snapshot-IsQuiet,
        )
        depth 24

  exit_unless-IsQuiet :
      (E : Engine D) (a : ActorContext) (p : TradeProposal D) (e : Execution) (o : Order D)
      (r : BracketExitReason) (f : FillEvent D) (b : Bool)
      → IsQuiet (exit_unless E a p e o r f b)
  exit_unless-IsQuiet E a p e o r f true = existing_execution_result-IsQuiet p e
  exit_unless-IsQuiet E a p e o r f false = record_exit-IsQuiet E a p e o r f

  exit_body-IsQuiet :
      (E : Engine D) (id : ℕ) (r : BracketExitReason) (f : FillEvent D) (a : ActorContext)
      → IsQuiet (exit_body E id r f a)
  unfolding exit_body find_proposal_by_id_for_update find_execution_by_idempotency_key
      find_order_by_execution find_fill_by_broker_fill_id
  exit_body-IsQuiet E id r f a = search (store_steps, exit_unless-IsQuiet) depth 30

  record_approved_bracket_exit-IsQuiet :
      (E : Engine D) (id : ℕ) (r : BracketExitReason) (f : FillEvent D) (a : ActorContext)
      → IsQuiet (record_approved_bracket_exit E id r f a)
  unfolding record_approved_bracket_exit
  record_approved_bracket_exit-IsQuiet E id r f a = record {
    calls_same = λ w.
        with_transaction-calls (exit_body E id r f a) w
        ∙ (exit_body-IsQuiet E id r f a).calls_same w;
  }

  record_leg-IsQuiet :
      (E : Engine D) (a : ActorContext) (id : ℕ)
      (leg : Option (BracketExitReason × List (FillEvent D)))
      → IsQuiet (record_leg E a id leg)
  record_leg-IsQuiet E a id none = search store_steps
  record_leg-IsQuiet E a id (some (r, [])) = search store_steps
  record_leg-IsQuiet E a id (some (r, f ∷ fs)) =
      search (store_steps, record_approved_bracket_exit-IsQuiet) depth 8

  reconcile_legs-IsQuiet :
      (E : Engine D) (a : ActorContext) (id t s : ℕ) → IsQuiet (reconcile_legs E a id t s)
  unfolding reconcile_legs
  reconcile_legs-IsQuiet E a id t s = search (store_steps, record_leg-IsQuiet) depth 16

  -- Every step of a poll is quiet.
  abbrev AreQuiet : {A : Type 0} → (A → Option (Action D Bool)) → Type 0
  AreQuiet {A} step = (a : A) (m : Action D Bool) → step a ≡ some m → IsQuiet m

  poll-calls :
      {A : Type 0} (step : A → Option (Action D Bool)) (l : List A) (r : PollResult) (w : World D)
      → AreQuiet step
      → (poll step l r w).1.calls ≡ w.calls
  unfolding poll
  poll-calls step [] r w h = refl
  poll-calls step (a ∷ l) r w h = go (step a) refl (λ r w. poll-calls step l r w h)
    where
      go :
          (o : Option (Action D Bool))
          → step a ≡ o
          → ((r : PollResult) (w : World D) → (poll step l r w).1.calls ≡ w.calls)
          → (let q : PollResult × World D = elim o [
            | none ↦ poll step l r w
            | some m ↦ let (x, w') = m w in poll step l (tally (attempt_of x) r) w'
          ] in
              q.1.calls ≡ w.calls)
      go none e rest = rest r w
      go (some m) e rest = rest (tally (attempt_of (m w).0) r) (m w).1 ∙ (h a m e).calls_same w

  reconcile_bracket-AreQuiet : (E : Engine D) (a : ActorContext) → AreQuiet (reconcile_bracket E a)
  unfolding reconcile_bracket
  reconcile_bracket-AreQuiet E a b m =
      go b.bracket_order_ids.take_profit b.bracket_order_ids.stop_loss
    where
      go : (t s : Option ℕ) → both_legs E a b.proposal_id t s ≡ some m → IsQuiet m
      go (some t) (some s) e =
          let same : reconcile_legs E a b.proposal_id t s ≡ m = cc in
          subst IsQuiet same (reconcile_legs-IsQuiet E a b.proposal_id t s)
      go none s e = absurd cc
      go (some t) none e = absurd cc

  polled_from-calls :
      {A : Type 0} (step : A → Option (Action D Bool)) (q : Result D (List A) × World D)
      → AreQuiet step
      → (polled_from step q).1.calls ≡ q.1.calls
  polled_from-calls step (ok items, w) h = poll-calls step items nothing_polled w h
  polled_from-calls step (err e, w) h = refl

  -- `reconcileBracketOrders` sends the broker nothing.
  pub bracket_poll_asks :
      (E : Engine D) (a : ActorContext) (w : World D)
      → (reconcile_bracket_orders E a w).1.calls ≡ w.calls
  unfolding reconcile_bracket_orders find_open_bracket_orders
  bracket_poll_asks E a w =
      polled_from-calls (reconcile_bracket E a) (find_open_bracket_orders w)
        (reconcile_bracket-AreQuiet E a)
