-- ===== src/Execution/Reconcile/Sent.antt =====
-- What the polls send to the broker.
use mt5_ai_trading.Prelude.{
  ℕ, ◌≡◌, refl, ◌∙◌, Bool, true, false, Option, none, some, List, [], ◌∷◌, ◌++◌, inl, inr, ◌⊎◌,
}
use mt5_ai_trading.Numeric.{Decimal}
use mt5_ai_trading.Domain.{
  ExitReason, RequestKey, intraday_exit, hourly_exit, Side, OrderType, Execution, OrderResult,
  Order, Fill, FillEvent, TradeProposal, proposal_attempt,
}
use mt5_ai_trading.Store.{
  World, Engine, Reply, replied, failed, BrokerCall, submit, cancel, of_reply, ◌>>=◌,
  OpenIntradayPosition, find_proposal_by_id_for_update, find_orders_by_execution, find_execution,
  find_execution_by_idempotency_key,
}
use mt5_ai_trading.Store.Bind.{with_transaction-calls}
use mt5_ai_trading.Execution.Records.{ActorContext}
use mt5_ai_trading.Execution.Quiet.{IsQuiet, store_steps}
use mt5_ai_trading.Execution.Quiet.Rows.{
  persist_fills-IsQuiet, update_position_from_fills-IsQuiet, write_portfolio_snapshot-IsQuiet,
}
use mt5_ai_trading.Execution.Session.{Horizon}
use mt5_ai_trading.Execution.Close.{
  close_request, update_position_of, record_close_effects, record_filled, record_close,
  submit_close, send_close, cancel_leg, close_unless, close_found, close_body, close_position,
}

abbrev pub exit_key_of : Horizon → ℕ → ExitReason → RequestKey
exit_key_of Horizon.intraday id reason = intraday_exit id reason
exit_key_of Horizon.hourly id reason = hourly_exit id reason

module _ {D : Decimal} where
  abbrev pub leg_calls : Option ℕ → List (BrokerCall D)
  leg_calls none = []
  leg_calls (some id) = cancel id ∷ []

  -- What closing a position sends: its legs are cancelled, then its whole quantity is sold at the
  -- market. The latest call stands first.
  abbrev pub exit_calls : Horizon → OpenIntradayPosition D → ExitReason → List (BrokerCall D)
  exit_calls h p reason =
      submit (record {
        idempotency_key = exit_key_of h p.proposal_id reason;
        symbol = p.symbol;
        side = Side.sell;
        quantity = p.quantity;
        order_type = OrderType.market;
        limit_price = none;
        bracket = none;
        crypto = none;
      })
        ∷ leg_calls p.bracket_order_ids.stop_loss
      ++ leg_calls p.bracket_order_ids.take_profit

  update_position_of-IsQuiet :
      (p : Option (TradeProposal D)) (fs : List (FillEvent D)) → IsQuiet (update_position_of p fs)
  update_position_of-IsQuiet none fs = search store_steps
  update_position_of-IsQuiet (some p) fs =
      search (store_steps, update_position_from_fills-IsQuiet) depth 8

  record_close_effects-IsQuiet :
      (E : Engine D) (h : Horizon) (p : OpenIntradayPosition D) (reason : ExitReason)
      (a : ActorContext) (id : Option ℕ) (r : OrderResult D) (o : Order D) (fs : List (Fill D))
      → IsQuiet (record_close_effects E h p reason a id r o fs)
  unfolding record_close_effects find_proposal_by_id_for_update
  record_close_effects-IsQuiet E h p reason a id r o fs =
      search (store_steps, update_position_of-IsQuiet, write_portfolio_snapshot-IsQuiet) depth 20

  record_close-IsQuiet :
      (E : Engine D) (h : Horizon) (p : OpenIntradayPosition D) (reason : ExitReason)
      (a : ActorContext) (id : Option ℕ) (e : Execution) (r : OrderResult D)
      → IsQuiet (record_close E h p reason a id e r)
  unfolding record_close
  record_close-IsQuiet E h p reason a id e r = go r.fills
    where
      go : (fs : List (FillEvent D)) → IsQuiet (record_filled E h p reason a id e r fs)
      go [] = search store_steps
      go (f ∷ fs) =
          search (store_steps, persist_fills-IsQuiet, record_close_effects-IsQuiet) depth 20

  submit_close-calls :
      (E : Engine D) (h : Horizon) (p : OpenIntradayPosition D) (reason : ExitReason)
      (a : ActorContext) (id : Option ℕ) (e : Execution) (w : World D)
      → (submit_close E h p reason a id e w).1.calls ≡ submit (close_request h p reason) ∷ w.calls
  unfolding submit_close
  submit_close-calls E h p reason a id e w = go (E.submit_order w.calls (close_request h p reason))
    where
      sent : World D
      sent = record w { calls = submit (close_request h p reason) ∷ w.calls }

      go :
          (r : Reply (OrderResult D))
          → ((of_reply r >>= record_close E h p reason a id e) sent).1.calls
            ≡ submit (close_request h p reason) ∷ w.calls
      go (replied r) = (record_close-IsQuiet E h p reason a id e r).calls_same sent
      go (failed m) = refl

  send_close-calls :
      (E : Engine D) (h : Horizon) (p : OpenIntradayPosition D) (reason : ExitReason)
      (a : ActorContext) (id : Option ℕ) (e : Execution) (w : World D)
      → (send_close E h p reason a id e w).1.calls
        ≡ submit (close_request h p reason)
            ∷ (leg_calls p.bracket_order_ids.stop_loss ++ leg_calls p.bracket_order_ids.take_profit)
          ++ w.calls
  unfolding send_close
  send_close-calls E h p reason a id e w =
      go p.bracket_order_ids.take_profit p.bracket_order_ids.stop_loss
    where
      go :
          (t s : Option ℕ)
          → (let q =
                (cancel_leg t >>= λ _. (cancel_leg s >>= λ _. submit_close E h p reason a id e))
                  w in
              q.1.calls)
            ≡ submit (close_request h p reason) ∷ (leg_calls s ++ leg_calls t) ++ w.calls
      go none none = submit_close-calls E h p reason a id e _
      go none (some s) = submit_close-calls E h p reason a id e _
      go (some t) none = submit_close-calls E h p reason a id e _
      go (some t) (some s) = submit_close-calls E h p reason a id e _

  close_request-calls :
      (h : Horizon) (p : OpenIntradayPosition D) (reason : ExitReason) (cs : List (BrokerCall D))
      → submit (close_request h p reason)
            ∷ (leg_calls p.bracket_order_ids.stop_loss ++ leg_calls p.bracket_order_ids.take_profit)
          ++ cs
        ≡ exit_calls h p reason ++ cs
  unfolding close_request
  close_request-calls Horizon.intraday p reason cs = refl
  close_request-calls Horizon.hourly p reason cs = refl

  -- A close sends nothing, or the calls of one exit.
  abbrev SendsExit : Horizon → OpenIntradayPosition D → ExitReason → World D → World D → Type 0
  SendsExit h p reason w w' = (w'.calls ≡ w.calls) ⊎ (w'.calls ≡ exit_calls h p reason ++ w.calls)

  close_unless-SendsExit :
      (E : Engine D) (h : Horizon) (p : OpenIntradayPosition D) (reason : ExitReason)
      (a : ActorContext) (id : Option ℕ) (e : Execution) (w : World D) (b : Bool)
      → SendsExit h p reason w (close_unless E h p reason a id e b w).1
  close_unless-SendsExit E h p reason a id e w true = inl refl
  close_unless-SendsExit E h p reason a id e w false =
      inr (send_close-calls E h p reason a id e w ∙ close_request-calls h p reason w.calls)

  close_found-SendsExit :
      (E : Engine D) (h : Horizon) (p : OpenIntradayPosition D) (reason : ExitReason)
      (a : ActorContext) (id : Option ℕ) (w : World D) (o : Option Execution)
      → SendsExit h p reason w (close_found E h p reason a id o w).1
  unfolding find_orders_by_execution
  close_found-SendsExit E h p reason a id w none = inl refl
  close_found-SendsExit E h p reason a id w (some e) =
      close_unless-SendsExit E h p reason a id e w _

  pub close_position-SendsExit :
      (E : Engine D) (h : Horizon) (p : OpenIntradayPosition D) (reason : ExitReason)
      (a : ActorContext) (id : Option ℕ) (w : World D)
      → SendsExit h p reason w (close_position E h p reason a id w).1
  unfolding close_position close_body find_execution_by_idempotency_key
  close_position-SendsExit E h p reason a id w =
      let same = with_transaction-calls (close_body E h p reason a id) w in
      elim (close_found-SendsExit E h p reason a id w
        (find_execution (proposal_attempt p.proposal_id) w.db)) [
          | inl e ↦ inl (same ∙ e)
          | inr e ↦ inr (same ∙ e)
        ]
