-- ===== src/Execution/Quiet.antt =====
-- Workflow steps that leave the calls to the broker as they are, and how they compose, for the
-- steps of trade-execution-service.ts and the repositories.
pub mod Rows
use mt5_ai_trading.Prelude.{
  true, false, if◌then◌else◌, ℕ, ◌≡◌, ◌∙◌, arith, Option, none, some, Bool, List, [], ◌∷◌, refl,
  String,
}
use mt5_ai_trading.Numeric.{Decimal}
use mt5_ai_trading.Domain.{
  TradeProposal, ProposalStatus, RequestKey, Execution, ExecutionStatus, OrderStatus, FillType,
  FillEvent, Side,
}
use mt5_ai_trading.Lifecycle.{assert_valid_proposal_transition}
use mt5_ai_trading.Store.{
  World, Db, Action, Result, Error, Reply, ok, err, replied, failed, pure, throw, gets, throw_if,
  or_else, modify_db, insert, row, or_throw, of_reply, ◌>>=◌, ◌>>◌, NewOrder, OrderUpdate,
  PositionData, ExecutionUpdate, ProposalTimes, AuditLog, Engine, create_order, create_fill,
  create_execution, update_order_status, upsert_position, update_execution_status,
  update_proposal_status, create_audit_log, find_fill_by_broker_fill_id,
}
use mt5_ai_trading.Execution.Records.{
  persist_fill, persist_fills, update_position_from_fills, write_portfolio_snapshot,
  assert_paper_execution_allowed, existing_execution_result,
}

module _ {D : Decimal} where
  pub record IsQuiet {A : Type 0} (m : Action D A) : Type 0 where
    pub calls_same : (w : World D) → (m w).1.calls ≡ w.calls

  bind_calls :
      {A B : Type 0} (r : Result D A) (w w' : World D) (f : A → Action D B)
      → w'.calls ≡ w.calls
      → ((a : A) → IsQuiet (f a))
      → (let q : Result D B × World D = elim r [ ok a ↦ f a w' | err e ↦ (err e, w') ] in
          q.1.calls ≡ w.calls)
  bind_calls (ok a) w w' f e hf = (hf a).calls_same w' ∙ e
  bind_calls (err x) w w' f e hf = e

  pub >>=-IsQuiet :
      {A B : Type 0} (m : Action D A) (f : A → Action D B)
      → IsQuiet m
      → ((a : A) → IsQuiet (f a))
      → IsQuiet (m >>= f)
  >>=-IsQuiet m f hm hf = record {
    calls_same = λ w. bind_calls (m w).0 w (m w).1 f (hm.calls_same w) hf;
  }

  pub pure-IsQuiet : {A : Type 0} (a : A) → IsQuiet (pure a)
  pure-IsQuiet a = record { calls_same = λ w. refl }

  pub throw-IsQuiet : {A : Type 0} (e : Error D) → IsQuiet {A = A} (throw e)
  throw-IsQuiet e = record { calls_same = λ w. refl }

  pub gets-IsQuiet : {A : Type 0} (f : World D → A) → IsQuiet (gets f)
  gets-IsQuiet f = record { calls_same = λ w. refl }

  pub throw_if-IsQuiet : (b : Bool) (e : Error D) → IsQuiet (throw_if b e)
  throw_if-IsQuiet b e = record { calls_same = λ w. refl }

  pub of_reply-IsQuiet : {A : Type 0} (r : Reply A) → IsQuiet {A = A} (of_reply r)
  of_reply-IsQuiet (replied a) = record { calls_same = λ w. refl }
  of_reply-IsQuiet (failed m) = record { calls_same = λ w. refl }

  pub or_throw-IsQuiet : {A : Type 0} (o : Option A) (e : Error D) → IsQuiet {A = A} (or_throw o e)
  or_throw-IsQuiet none e = record { calls_same = λ w. refl }
  or_throw-IsQuiet (some a) e = record { calls_same = λ w. refl }

  pub row-IsQuiet : {A : Type 0} (o : Option A) → IsQuiet {A = A} (row o)
  row-IsQuiet none = record { calls_same = λ w. refl }
  row-IsQuiet (some a) = record { calls_same = λ w. refl }

  pub modify_db-IsQuiet : (f : Db D → Db D) → IsQuiet (modify_db f)
  modify_db-IsQuiet f = record { calls_same = λ w. refl }

  pub insert-IsQuiet : {A : Type 0} (f : ℕ → ℕ → A) (g : A → Db D → Db D) → IsQuiet (insert f g)
  insert-IsQuiet f g = record { calls_same = λ w. refl }

  pub ruleset quiet_steps = (
    >>=-IsQuiet, pure-IsQuiet, throw-IsQuiet, gets-IsQuiet, throw_if-IsQuiet, of_reply-IsQuiet,
    or_throw-IsQuiet, row-IsQuiet, modify_db-IsQuiet, insert-IsQuiet,
  )

  pub update_proposal_status-IsQuiet :
      (id : ℕ) (s : ProposalStatus) (t : ProposalTimes) → IsQuiet (update_proposal_status id s t)
  unfolding update_proposal_status
  update_proposal_status-IsQuiet id s t = search quiet_steps

  pub create_order-IsQuiet : (o : NewOrder D) → IsQuiet (create_order o)
  unfolding create_order
  create_order-IsQuiet o = search quiet_steps

  pub create_fill-IsQuiet :
      (o : ℕ) (q p f : D.Text) (t : FillType) (k at : ℕ)
      → IsQuiet (create_fill {D = D} o q p f t k at)
  unfolding create_fill
  create_fill-IsQuiet o q p f t k at = search quiet_steps

  pub create_execution-IsQuiet : (p : ℕ) (k : RequestKey) (n : ℕ) → IsQuiet (create_execution p k n)
  unfolding create_execution
  create_execution-IsQuiet p k n = search quiet_steps

  pub update_order_status-IsQuiet :
      (id : ℕ) (s : OrderStatus) (u : OrderUpdate D) → IsQuiet (update_order_status id s u)
  unfolding update_order_status
  update_order_status-IsQuiet id s u = search quiet_steps

  pub update_execution_status-IsQuiet :
      (id : ℕ) (s : ExecutionStatus) (u : ExecutionUpdate)
      → IsQuiet (update_execution_status id s u)
  unfolding update_execution_status
  update_execution_status-IsQuiet id s u = search quiet_steps

  pub create_audit_log-IsQuiet : (a : AuditLog D) → IsQuiet (create_audit_log a)
  unfolding create_audit_log
  create_audit_log-IsQuiet a = search quiet_steps

  pub assert_valid_proposal_transition-IsQuiet :
      (s t : ProposalStatus) → IsQuiet (assert_valid_proposal_transition s t)
  unfolding assert_valid_proposal_transition
  assert_valid_proposal_transition-IsQuiet s t = search quiet_steps

  pub ite-IsQuiet :
      {A : Type 0} (b : Bool) (m n : Action D A)
      → IsQuiet m
      → IsQuiet n
      → IsQuiet (if b then m else n)
  ite-IsQuiet true m n hm hn = hm
  ite-IsQuiet false m n hm hn = hn

  pub or_else-IsQuiet :
      {A : Type 0} (o : Option A) (m : Action D A) → IsQuiet m → IsQuiet (or_else o m)
  or_else-IsQuiet none m h = h
  or_else-IsQuiet (some a) m h = pure-IsQuiet a

  pub upsert_position-IsQuiet : (x : PositionData D) → IsQuiet (upsert_position x)
  unfolding upsert_position
  upsert_position-IsQuiet x = search (quiet_steps, ite-IsQuiet) depth 12

  pub ruleset store_steps = (
    quiet_steps, ite-IsQuiet, or_else-IsQuiet, update_proposal_status-IsQuiet, create_order-IsQuiet,
    create_fill-IsQuiet, create_execution-IsQuiet, update_order_status-IsQuiet,
    update_execution_status-IsQuiet, create_audit_log-IsQuiet,
    assert_valid_proposal_transition-IsQuiet, upsert_position-IsQuiet,
  )
