-- ===== src/Execution/Reconcile/Rows.antt =====
-- The steps of a close that leave the executions and the orders as they are.
use mt5_ai_trading.Prelude.{ℕ, Option, none, some, List, [], ◌∷◌, String, find}
use mt5_ai_trading.Numeric.{Decimal}
use mt5_ai_trading.Domain.{
  TradeProposal, Execution, Order, Fill, FillEvent, FillType, Side, OrderResult, ExitReason,
}
use mt5_ai_trading.Store.{
  World, Action, Engine, AuditLog, OpenIntradayPosition, PositionData, or_else, has_fill_id,
  find_fill_by_broker_fill_id, create_fill, find_position_by_symbol_for_update, upsert_position,
  find_open_positions, get_initial_paper_cash_usd, find_latest_snapshot_before, create_snapshot,
  create_audit_log, find_proposal_by_id_for_update,
}
use mt5_ai_trading.Store.Keeps.{
  Keeps, >>=-Keeps, pure-Keeps, throw-Keeps, gets-Keeps, throw_if-Keeps, row-Keeps, or_throw-Keeps,
  ite-Keeps, of_reply-Keeps, modify_db-Keeps, insert-Keeps,
}
use mt5_ai_trading.Execution.Records.{
  ActorContext, persist_fill, persist_fills, update_position_from_fills, write_portfolio_snapshot,
  get_day_start_equity, fill_type, or_accounting_error,
}
use mt5_ai_trading.Execution.Session.{Horizon}
use mt5_ai_trading.Execution.Close.{update_position_of, record_close_effects}

module _ {D : Decimal} where
  abbrev pub book : World D → List Execution × List (Order D)
  book w = (w.db.executions, w.db.orders)

  KeepsBook : {A : Type 0} → Action D A → Type 0
  KeepsBook m = Keeps book m

  ruleset keep_steps = (
    >>=-Keeps, pure-Keeps, throw-Keeps, gets-Keeps, throw_if-Keeps, row-Keeps, or_throw-Keeps,
    ite-Keeps, of_reply-Keeps,
  )

  create_fill-Keeps :
      (o : ℕ) (q p f : D.Text) (t : FillType) (k at : ℕ)
      → Keeps book (create_fill {D = D} o q p f t k at)
  unfolding create_fill
  create_fill-Keeps o q p f t k at = search (keep_steps, insert-Keeps) depth 12

  create_snapshot-Keeps : (x : _) → Keeps book (create_snapshot {D = D} x)
  unfolding create_snapshot
  create_snapshot-Keeps x = search (keep_steps, insert-Keeps) depth 12

  create_audit_log-Keeps : (a : AuditLog D) → Keeps book (create_audit_log a)
  unfolding create_audit_log
  create_audit_log-Keeps a = search (keep_steps, modify_db-Keeps) depth 12

  upsert_position-Keeps : (x : PositionData D) → Keeps book (upsert_position x)
  unfolding upsert_position
  upsert_position-Keeps x = search (keep_steps, insert-Keeps, modify_db-Keeps) depth 16

  or_else-Keeps :
      {A : Type 0} (o : Option A) (m : Action D A) → Keeps book m → Keeps book (or_else o m)
  or_else-Keeps none m h = h
  or_else-Keeps (some a) m h = pure-Keeps book a

  persist_fill-Keeps : (o : ℕ) (f : FillEvent D) → Keeps book (persist_fill o f)
  unfolding persist_fill find_fill_by_broker_fill_id
  persist_fill-Keeps o f =
      let create = create_fill o f.quantity f.price f.fee (fill_type f) f.fill_id f.filled_at in
      >>=-Keeps book (find_fill_by_broker_fill_id f.fill_id) (λ x. or_else x create)
        (gets-Keeps book (λ w. find (has_fill_id f.fill_id) w.db.fills))
        (λ x.
          or_else-Keeps x create
            (create_fill-Keeps o f.quantity f.price f.fee (fill_type f) f.fill_id f.filled_at))

  pub persist_fills-Keeps : (o : ℕ) (fs : List (FillEvent D)) → Keeps book (persist_fills o fs)
  unfolding persist_fills
  persist_fills-Keeps o [] = pure-Keeps book []
  persist_fills-Keeps o (f ∷ fs) =
      search (keep_steps, persist_fill-Keeps o f, persist_fills-Keeps o fs) depth 12

  or_accounting_error-Keeps :
      {A : Type 0} (o : Option A) → Keeps book {A = A} (or_accounting_error {D = D} o)
  or_accounting_error-Keeps none = throw-Keeps book _
  or_accounting_error-Keeps (some a) = pure-Keeps book a

  update_position_from_fills-Keeps :
      (p : TradeProposal D) (s : Side) (fs : List (FillEvent D))
      → Keeps book (update_position_from_fills p s fs)
  unfolding update_position_from_fills find_position_by_symbol_for_update
  update_position_from_fills-Keeps p s [] = search keep_steps
  update_position_from_fills-Keeps p s (f ∷ fs) =
      search (keep_steps, or_accounting_error-Keeps, upsert_position-Keeps) depth 16

  write_portfolio_snapshot-Keeps :
      (E : Engine D) (reason : String) → Keeps book (write_portfolio_snapshot E reason)
  unfolding write_portfolio_snapshot find_open_positions get_initial_paper_cash_usd
      get_day_start_equity find_latest_snapshot_before
  write_portfolio_snapshot-Keeps E reason = search (keep_steps, insert-Keeps) depth 24

  update_position_of-Keeps :
      (p : Option (TradeProposal D)) (fs : List (FillEvent D))
      → Keeps book (update_position_of p fs)
  update_position_of-Keeps none fs = search keep_steps
  update_position_of-Keeps (some p) fs =
      search (keep_steps, update_position_from_fills-Keeps) depth 8

  pub record_close_effects-Keeps :
      (E : Engine D) (h : Horizon) (p : OpenIntradayPosition D) (reason : ExitReason)
      (a : ActorContext) (id : Option ℕ) (r : OrderResult D) (o : Order D) (fs : List (Fill D))
      → Keeps book (record_close_effects E h p reason a id r o fs)
  unfolding record_close_effects find_proposal_by_id_for_update
  record_close_effects-Keeps E h p reason a id r o fs =
      search
        (
          keep_steps, update_position_of-Keeps, write_portfolio_snapshot-Keeps,
          create_audit_log-Keeps,
        )
        depth 20
