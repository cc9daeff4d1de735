-- ===== src/Execution/Reconcile/Once.antt =====
-- A close is recorded once: the exit reason of its order stops the later ones.
use mt5_ai_trading.Prelude.{
  ℕ, ◌≡◌, refl, sym, ◌∙◌, ap, Bool, is_empty, true, false, Option, none, some, List, [], ◌∷◌, ◌++◌,
  is_some, where_rows, update_rows, find, arith, ◌==◌,
}
use mt5_ai_trading.Numeric.{Decimal}
use mt5_ai_trading.Domain.{
  ExitReason, Execution, Order, OrderStatus, OrderResult, FillEvent, proposal_attempt,
}
use mt5_ai_trading.Store.{
  World, Engine, replied, ok, submit, of_reply, in_transaction, ◌>>=◌, OpenIntradayPosition,
  NewOrder, OrderUpdate, find_execution, has_key, of_execution, set_order, create_order,
  update_order_status, find_orders_by_execution, find_execution_by_idempotency_key,
}
use mt5_ai_trading.Store.Keeps.{bind_inversion, transaction_inversion}
use mt5_ai_trading.Execution.Records.{ActorContext, persist_fills}
use mt5_ai_trading.Execution.Session.{Horizon}
use mt5_ai_trading.Execution.Close.{
  close_request, close_order, close_update, record_close_effects, settle_close, record_filled,
  record_close, submit_close, send_close, close_unless, close_found, close_body, close_position,
  has_exited, cancel_leg,
}
use mt5_ai_trading.Execution.Reconcile.Rows.{book, persist_fills-Keeps, record_close_effects-Keeps}
use mt5_ai_trading.Execution.Reconcile.Sent.{leg_calls}

module _ {D : Decimal} where
  -- The execution's orders have an exit.
  abbrev pub HasExit : Execution → World D → Type 0
  HasExit e w = has_exited (where_rows (of_execution e.id) w.db.orders) ≡ true

  has_exited-update :
      (n k : ℕ) (f : Order D → Order D) (l : List (Order D)) (o : Order D)
      → (o.id == k) ≡ true
      → of_execution n (f o) ≡ true
      → is_some (f o).exit_reason ≡ true
      → has_exited (where_rows (of_execution n) (update_rows (λ x. x.id == k) f (l ++ o ∷ [])))
        ≡ true
  has_exited-update n k f [] o named same exited = ground arith
  has_exited-update n k f (x ∷ l) o named same exited =
      ground (arith, has_exited-update n k f l o named same exited)

  create_order-appends :
      (x : NewOrder D) (w w' : World D) (o : Order D)
      → create_order x w ≡ (ok o, w')
      → (w'.db.orders ≡ w.db.orders ++ o ∷ [])
        × (o.execution_id ≡ x.execution_id)
        × (w'.db.executions ≡ w.db.executions)
  unfolding create_order
  create_order-appends x w w' o h = ground arith

  update_order_status-orders :
      (k : ℕ) (s : OrderStatus) (u : OrderUpdate D) (w w' : World D) (o : Order D)
      → update_order_status k s u w ≡ (ok o, w')
      → (w'.db.orders ≡ update_rows (λ x. x.id == k) (set_order s u w.now) w.db.orders)
        × (w'.db.executions ≡ w.db.executions)
  unfolding update_order_status
  update_order_status-orders k s u w w' o h = ground arith

  -- A close of an execution whose orders have an exit does nothing.
  pub close_again :
      (E : Engine D) (h : Horizon) (p : OpenIntradayPosition D) (reason : ExitReason)
      (a : ActorContext) (id : Option ℕ) (w : World D) (e : Execution)
      → find_execution (proposal_attempt p.proposal_id) w.db ≡ some e
      → HasExit e w
      → close_position E h p reason a id w ≡ (ok tt, w)
  unfolding close_position close_body find_execution_by_idempotency_key find_orders_by_execution
  close_again E h p reason a id w e there exited = ap (in_transaction w) (
      ap (λ o. close_found E h p reason a id o w) there
      ∙ ap (λ b. close_unless E h p reason a id e b w) exited)

  -- The executions are as they were, and the execution's orders have an exit.
  abbrev Recorded : Execution → World D → World D → Type 0
  Recorded e w w' = (w'.db.executions ≡ w.db.executions) × HasExit e w'

  settle_close-Recorded :
      (E : Engine D) (h : Horizon) (p : OpenIntradayPosition D) (reason : ExitReason)
      (a : ActorContext) (id : Option ℕ) (e : Execution) (r : OrderResult D) (o : Order D)
      (l : List (Order D)) (w w' : World D)
      → w.db.orders ≡ l ++ o ∷ []
      → o.execution_id ≡ e.id
      → settle_close E h p reason a id r o w ≡ (ok tt, w')
      → Recorded e w w'
  settle_close-Recorded E h p reason a id e r o l w w' last own ran =
      let (fs, stored, rest) =
        bind_inversion (persist_fills o.id r.fills)
          (λ fs. update_order_status o.id r.status (close_update r reason) >>= λ _.
            record_close_effects E h p reason a id r o fs)
          w w' tt ran in
      let v = (persist_fills o.id r.fills w).1 in
      let kept = (persist_fills-Keeps o.id r.fills).kept w in
      let (u, updated, effects) =
        bind_inversion (update_order_status o.id r.status (close_update r reason))
          (λ _. record_close_effects E h p reason a id r o fs) v w' tt rest in
      let v' = (update_order_status o.id r.status (close_update r reason) v).1 in
      let (set, same) =
        update_order_status-orders o.id r.status (close_update r reason) v v' u
          (ap (λ x. (x, v')) updated) in
      let after =
        ap (λ q. book q.1) (sym effects)
        ∙ (record_close_effects-Keeps E h p reason a id r o fs).kept v' in
      (
        ap (λ q. q.0) after ∙ same ∙ ap (λ q. q.0) kept,
        ap (λ q. has_exited (where_rows (of_execution e.id) q.1)) after
            ∙ ap (λ l. has_exited (where_rows (of_execution e.id) l)) set
            ∙ ap
                (λ l. has_exited (
                  where_rows (of_execution e.id) (
                    update_rows (λ x. x.id == o.id)
                      (set_order r.status (close_update r reason) v.now) l)))
                (ap (λ q. q.1) kept ∙ last)
            ∙ has_exited-update e.id o.id (set_order r.status (close_update r reason) v.now) l o
                (ground arith) (ground arith) refl,
      )

  record_close-Recorded :
      (E : Engine D) (h : Horizon) (p : OpenIntradayPosition D) (reason : ExitReason)
      (a : ActorContext) (id : Option ℕ) (e : Execution) (r : OrderResult D) (w w' : World D)
      → is_empty r.fills ≡ false
      → record_close E h p reason a id e r w ≡ (ok tt, w')
      → Recorded e w w'
  unfolding record_close
  record_close-Recorded E h p reason a id e r w w' filled ran = go r.fills filled ran
    where
      go :
          (fs : List (FillEvent D))
          → is_empty fs ≡ false
          → record_filled E h p reason a id e r fs w ≡ (ok tt, w')
          → Recorded e w w'
      go [] nothing _ = absurd (ground arith)
      go (f ∷ fs) _ h' =
          let (o, made, rest) =
            bind_inversion (create_order (close_order p e r)) (settle_close E h p reason a id r) w
              w' tt h' in
          let v = (create_order (close_order p e r) w).1 in
          let (last, own, same) =
            create_order-appends (close_order p e r) w v o (ap (λ x. (x, v)) made) in
          let (kept, exited) =
            settle_close-Recorded E h p reason a id e r o w.db.orders v w' last own rest in
          (kept ∙ same, exited)

  submit_close-Recorded :
      (E : Engine D) (h : Horizon) (p : OpenIntradayPosition D) (reason : ExitReason)
      (a : ActorContext) (id : Option ℕ) (e : Execution) (r : OrderResult D) (w w' : World D)
      → E.submit_order w.calls (close_request h p reason) ≡ replied r
      → is_empty r.fills ≡ false
      → submit_close E h p reason a id e w ≡ (ok tt, w')
      → Recorded e w w'
  unfolding submit_close
  submit_close-Recorded E h p reason a id e r w w' answer filled ran =
      record_close-Recorded E h p reason a id e r sent w' filled
        (ap (λ x. (of_reply x >>= record_close E h p reason a id e) sent) (sym answer) ∙ ran)
    where
      sent : World D
      sent = record w { calls = submit (close_request h p reason) ∷ w.calls }

  -- The world after the legs of the bracket have been cancelled.
  abbrev pub legs_cancelled : OpenIntradayPosition D → World D → World D
  legs_cancelled p w = record w {
    calls =
        leg_calls p.bracket_order_ids.stop_loss
        ++ leg_calls p.bracket_order_ids.take_profit
        ++ w.calls;
  }

  send_close_lem :
      (E : Engine D) (h : Horizon) (p : OpenIntradayPosition D) (reason : ExitReason)
      (a : ActorContext) (id : Option ℕ) (e : Execution) (w : World D)
      → send_close E h p reason a id e w ≡ submit_close E h p reason a id e (legs_cancelled p w)
  unfolding send_close
  send_close_lem E h p reason a id e w =
      go p.bracket_order_ids.take_profit p.bracket_order_ids.stop_loss
    where
      go :
          (t s : Option ℕ)
          → (cancel_leg t >>= λ _. (cancel_leg s >>= λ _. submit_close E h p reason a id e)) w
            ≡ submit_close E h p reason a id e
                (record w { calls = leg_calls s ++ leg_calls t ++ w.calls })
      go none none = refl
      go none (some s) = refl
      go (some t) none = refl
      go (some t) (some s) = refl

  close_unless-HasExit :
      (E : Engine D) (h : Horizon) (p : OpenIntradayPosition D) (reason : ExitReason)
      (a : ActorContext) (id : Option ℕ) (e : Execution) (r : OrderResult D) (w w' : World D)
      (b : Bool)
      → has_exited (where_rows (of_execution e.id) w.db.orders) ≡ b
      → E.submit_order (legs_cancelled p w).calls (close_request h p reason) ≡ replied r
      → is_empty r.fills ≡ false
      → close_unless E h p reason a id e b w ≡ (ok tt, w')
      → Recorded e w w'
  close_unless-HasExit E h p reason a id e r w w' true exited answer filled ran = (
    ap (λ q. q.1.db.executions) (sym ran),
    ap (λ q. has_exited (where_rows (of_execution e.id) q.1.db.orders)) (sym ran) ∙ exited,
  )
  close_unless-HasExit E h p reason a id e r w w' false _ answer filled ran =
      submit_close-Recorded E h p reason a id e r (legs_cancelled p w) w' answer filled
        (sym (send_close_lem E h p reason a id e w) ∙ ran)

  close_position-Recorded :
      (E : Engine D) (h : Horizon) (p : OpenIntradayPosition D) (reason : ExitReason)
      (a : ActorContext) (id : Option ℕ) (w w' : World D) (e : Execution) (r : OrderResult D)
      → find_execution (proposal_attempt p.proposal_id) w.db ≡ some e
      → E.submit_order (legs_cancelled p w).calls (close_request h p reason) ≡ replied r
      → is_empty r.fills ≡ false
      → close_position E h p reason a id w ≡ (ok tt, w')
      → Recorded e w w'
  unfolding close_position close_body find_execution_by_idempotency_key find_orders_by_execution
  close_position-Recorded E h p reason a id w w' e r there answer filled ran =
      close_unless-HasExit E h p reason a id e r w w' _ refl answer filled (
        ap (λ o. close_found E h p reason a id o w) (sym there)
        ∙ transaction_inversion (close_body E h p reason a id) w w' tt ran)

  -- If closing a position ends well on an answer with fills, then closing it again does nothing: not
  -- for another reason, not by the other horizon, and not with another broker or actor.
  pub close_once :
      (E F : Engine D) (h k : Horizon) (p q : OpenIntradayPosition D) (reason again : ExitReason)
      (a b : ActorContext) (i j : Option ℕ) (w w' : World D) (e : Execution) (r : OrderResult D)
      → find_execution (proposal_attempt p.proposal_id) w.db ≡ some e
      → E.submit_order (legs_cancelled p w).calls (close_request h p reason) ≡ replied r
      → is_empty r.fills ≡ false
      → close_position E h p reason a i w ≡ (ok tt, w')
      → q.proposal_id ≡ p.proposal_id
      → close_position F k q again b j w' ≡ (ok tt, w')
  close_once E F h k p q reason again a b i j w w' e r there answer filled ran same =
      let (kept, exited) =
        close_position-Recorded E h p reason a i w w' e r there answer filled ran in
      close_again F k q again b j w' e
        (ap (λ n. find (has_key (proposal_attempt n)) w'.db.executions) same
          ∙ ap (find (has_key (proposal_attempt p.proposal_id))) kept
          ∙ there)
        exited
