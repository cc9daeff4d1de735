-- ===== src/Execution/Close.antt =====
-- `closeIntradayPosition` and `closeHourlyPosition` of
-- apps/api/src/services/trade-execution-service.ts, which differ in the request's key, the reason of
-- the snapshot and the audit event.
use mt5_ai_trading.Prelude.{
  ℕ, Bool, true, false, Option, none, some, List, [], ◌∷◌, String, any, is_some, map,
}
use mt5_ai_trading.Numeric.{Decimal}
use mt5_ai_trading.Domain.{
  AssetClass, Side, OrderType, ExitReason, RequestKey, proposal_attempt, intraday_exit, hourly_exit,
  TradeProposal, Execution, Order, Fill, FillEvent, OrderRequest, OrderResult,
}
use mt5_ai_trading.Store.{
  Action, Engine, AuditLog, cancel, submit, auto_closed, pure, gets, call, of_reply,
  with_transaction, ◌>>=◌, ◌>>◌, NewOrder, OrderUpdate, OpenIntradayPosition,
  find_execution_by_idempotency_key, find_orders_by_execution, create_order, update_order_status,
  find_proposal_by_id_for_update, create_audit_log,
}
use mt5_ai_trading.Execution.Accounting.{filled_quantity, average_fill_price}
use mt5_ai_trading.Execution.Messages.{with_exit_text}
use mt5_ai_trading.Execution.Records.{
  ActorContext, audit, persist_fills, update_position_from_fills, write_portfolio_snapshot,
}
use mt5_ai_trading.Execution.Session.{Horizon}

abbrev exit_key : Horizon → ℕ → ExitReason → RequestKey
exit_key Horizon.intraday = intraday_exit
exit_key Horizon.hourly = hourly_exit

abbrev snapshot_prefix : Horizon → String
snapshot_prefix Horizon.intraday = "INTRADAY_"
snapshot_prefix Horizon.hourly = "HOURLY_"

abbrev closed_event : Horizon → String
closed_event Horizon.intraday = "INTRADAY_POSITION_AUTO_CLOSED"
closed_event Horizon.hourly = "HOURLY_POSITION_AUTO_CLOSED"

module _ {D : Decimal} where
  -- The market order that closes the whole position.
  unfoldable pub close_request : Horizon → OpenIntradayPosition D → ExitReason → OrderRequest D
  close_request h p reason = record {
    idempotency_key = exit_key h p.proposal_id reason;
    symbol = p.symbol;
    side = Side.sell;
    quantity = p.quantity;
    order_type = OrderType.market;
    limit_price = none;
    bracket = none;
    crypto = none;
  }

  -- `if (id) await cancelBrokerOrder(id).catch(() => null)`: whatever the broker answers.
  abbrev pub cancel_leg : Option ℕ → Action D (Unit {0})
  cancel_leg none = pure tt
  cancel_leg (some id) = call (cancel id)

  abbrev pub close_order : OpenIntradayPosition D → Execution → OrderResult D → NewOrder D
  close_order p execution r = record {
    execution_id = execution.id;
    symbol = p.symbol;
    asset_class = AssetClass.stock;
    side = Side.sell;
    quantity = p.quantity;
    order_type = OrderType.market;
    limit_price = none;
    broker_order_id = some r.broker_order_id;
    bracket_order_ids = record (p.bracket_order_ids) {
      cancelled_take_profit = p.bracket_order_ids.take_profit;
      cancelled_stop_loss = p.bracket_order_ids.stop_loss;
    };
  }

  abbrev pub close_update : OrderResult D → ExitReason → OrderUpdate D
  close_update r reason = record {
    filled_quantity = some (filled_quantity r.fills);
    average_fill_price = average_fill_price r.fills;
    broker_order_id = some r.broker_order_id;
    bracket_order_ids = none;
    exit_reason = some reason;
  }

  -- `if (proposal) await updatePositionFromFills(…)`
  abbrev pub update_position_of :
      Option (TradeProposal D) → List (FillEvent D) → Action D (Unit {0})
  update_position_of none fills = pure tt
  update_position_of (some proposal) fills =
      update_position_from_fills proposal Side.sell fills >> pure tt

  abbrev fill_view : Fill D → ℕ × D.Text × D.Text
  fill_view f = (f.id, f.price, f.quantity)

  abbrev pub close_log :
      Horizon
      → OpenIntradayPosition D
      → ExitReason
      → ActorContext
      → Option ℕ
      → Order D
      → List (Fill D)
      → AuditLog D
  close_log h p reason actor request_id exit fills =
      audit (record actor { request_id = request_id }) (closed_event h) p.proposal_id
        (with_exit_text "AUTO_CLOSE_" reason) none
        (some (auto_closed exit.id p.symbol p.quantity reason (map fill_view fills)))

  -- The rows after the order's own: the position, the snapshot and the audit log.
  unfoldable pub record_close_effects :
      Engine D
      → Horizon
      → OpenIntradayPosition D
      → ExitReason
      → ActorContext
      → Option ℕ
      → OrderResult D
      → Order D
      → List (Fill D)
      → Action D (Unit {0})
  unfolding find_proposal_by_id_for_update
  record_close_effects E h p reason actor request_id r exit fills = do
    proposal ← find_proposal_by_id_for_update p.proposal_id
    update_position_of proposal r.fills
    write_portfolio_snapshot E (with_exit_text (snapshot_prefix h) reason)
    create_audit_log (close_log h p reason actor request_id exit fills)
    pure tt

  -- The update of a close's order once it is there, and what follows.
  abbrev pub settle_close :
      Engine D
      → Horizon
      → OpenIntradayPosition D
      → ExitReason
      → ActorContext
      → Option ℕ
      → OrderResult D
      → Order D
      → Action D (Unit {0})
  settle_close E h p reason actor request_id r exit = do
    fills ← persist_fills exit.id r.fills
    update_order_status exit.id r.status (close_update r reason)
    record_close_effects E h p reason actor request_id r exit fills

  -- `if (brokerResult.fills.length === 0) return`, and the rows of a close that has fills.
  abbrev pub record_filled :
      Engine D
      → Horizon
      → OpenIntradayPosition D
      → ExitReason
      → ActorContext
      → Option ℕ
      → Execution
      → OrderResult D
      → List (FillEvent D)
      → Action D (Unit {0})
  record_filled E h p reason actor request_id execution r [] = pure tt
  record_filled E h p reason actor request_id execution r (f ∷ fs) =
      create_order (close_order p execution r) >>= settle_close E h p reason actor request_id r

  unfoldable pub record_close :
      Engine D
      → Horizon
      → OpenIntradayPosition D
      → ExitReason
      → ActorContext
      → Option ℕ
      → Execution
      → OrderResult D
      → Action D (Unit {0})
  record_close E h p reason actor request_id execution r =
      record_filled E h p reason actor request_id execution r r.fills

  unfoldable pub submit_close :
      Engine D
      → Horizon
      → OpenIntradayPosition D
      → ExitReason
      → ActorContext
      → Option ℕ
      → Execution
      → Action D (Unit {0})
  unfolding close_request record_close
  submit_close E h p reason actor request_id execution = do
    calls ← gets (λ w. w.calls)
    call (submit (close_request h p reason))
    r ← of_reply (E.submit_order calls (close_request h p reason))
    record_close E h p reason actor request_id execution r

  unfoldable pub send_close :
      Engine D
      → Horizon
      → OpenIntradayPosition D
      → ExitReason
      → ActorContext
      → Option ℕ
      → Execution
      → Action D (Unit {0})
  unfolding submit_close
  send_close E h p reason actor request_id execution =
      cancel_leg p.bracket_order_ids.take_profit >>= λ _.
      (cancel_leg p.bracket_order_ids.stop_loss >>= λ _.
      submit_close E h p reason actor request_id execution)

  -- `existingOrders.some((order) => order.exitReason !== null)`
  abbrev pub has_exited : List (Order D) → Bool
  has_exited orders = any (λ o. is_some o.exit_reason) orders

  abbrev pub close_unless :
      Engine D
      → Horizon
      → OpenIntradayPosition D
      → ExitReason
      → ActorContext
      → Option ℕ
      → Execution
      → Bool
      → Action D (Unit {0})
  close_unless E h p reason actor request_id execution true = pure tt
  close_unless E h p reason actor request_id execution false =
      send_close E h p reason actor request_id execution

  abbrev pub close_found :
      Engine D
      → Horizon
      → OpenIntradayPosition D
      → ExitReason
      → ActorContext
      → Option ℕ
      → Option Execution
      → Action D (Unit {0})
  close_found E h p reason actor request_id none = pure tt
  close_found E h p reason actor request_id (some e) = do
    orders ← find_orders_by_execution e.id
    close_unless E h p reason actor request_id e (has_exited orders)

  unfoldable pub close_body :
      Engine D
      → Horizon
      → OpenIntradayPosition D
      → ExitReason
      → ActorContext
      → Option ℕ
      → Action D (Unit {0})
  close_body E h p reason actor request_id = do
    execution ← find_execution_by_idempotency_key (proposal_attempt p.proposal_id)
    close_found E h p reason actor request_id execution

  unfoldable pub close_position :
      Engine D
      → Horizon
      → OpenIntradayPosition D
      → ExitReason
      → ActorContext
      → Option ℕ
      → Action D (Unit {0})
  unfolding close_body with_transaction
  close_position E h p reason actor request_id =
      with_transaction (close_body E h p reason actor request_id)
