-- ===== src/Execution/Reconcile.antt =====
-- The three polls of apps/api/src/services/trade-execution-service.ts: `reconcileBracketOrders`,
-- `reconcileIntradayTimeExits` and `reconcileHourlyTimeExits`. An item whose step throws is counted,
-- and the poll goes on: a poll is a function of the world with no error among its results.
mod Bounds
mod Sent
mod Brackets
mod Due
mod Tests
mod Once
mod Rows
mod Trace
use mt5_ai_trading.Prelude.{
  ℕ, suc, Bool, true, false, Option, none, some, List, [], ◌∷◌, is_empty, if◌then◌else◌,
}
use mt5_ai_trading.Numeric.{Decimal}
use mt5_ai_trading.Domain.{ExitReason, OrderResult, FillEvent}
use mt5_ai_trading.Store.{
  World, Action, Engine, Result, ok, err, pure, gets, of_reply, ◌>>=◌, ◌>>◌, is_filled,
  OpenBracketOrder, OpenIntradayPosition, find_open_bracket_orders, find_open_intraday_positions,
  find_open_hourly_positions,
}
use mt5_ai_trading.Execution.Records.{ActorContext}
use mt5_ai_trading.Execution.Exit.{BracketExitReason, record_approved_bracket_exit}
use mt5_ai_trading.Execution.Session.{Horizon, SessionSettings, load_settings, exit_due}
use mt5_ai_trading.Execution.Close.{close_position}

-- `BracketReconciliationResult`, `IntradayTimeExitResult` and `HourlyTimeExitResult`; `settled` is
-- `reconciled` of the first and `closed` of the others.
pub record PollResult : Type 0 where
  pub checked : ℕ
  pub settled : ℕ
  pub errors : ℕ

abbrev pub nothing_polled : PollResult
nothing_polled = record { checked = 0; settled = 0; errors = 0 }

-- How the step on an item has ended: `continue`, done, or thrown.
pub data Attempt : Type 0 where
  passed_over settled thrown : Attempt

abbrev pub tally : Attempt → PollResult → PollResult
tally Attempt.passed_over r = record r { checked = suc r.checked }
tally Attempt.settled r = record r { checked = suc r.checked; settled = suc r.settled }
tally Attempt.thrown r = record r { checked = suc r.checked; errors = suc r.errors }

module _ {D : Decimal} where
  abbrev pub attempt_of : Result D Bool → Attempt
  attempt_of (ok true) = Attempt.settled
  attempt_of (ok false) = Attempt.passed_over
  attempt_of (err e) = Attempt.thrown

  -- One round after the other; the step of an item that is not to be checked is `none`.
  unfoldable pub poll :
      {A : Type 0}
      → (A → Option (Action D Bool))
      → List A
      → PollResult
      → World D
      → PollResult × World D
  poll step [] r w = (r, w)
  poll step (a ∷ rest) r w = elim (step a) [
    | none ↦ poll step rest r w
    | some m ↦ let (x, w') = m w in poll step rest (tally (attempt_of x) r) w'
  ]

  abbrev is_filled_order : Option (OrderResult D) → Bool
  is_filled_order none = false
  is_filled_order (some r) = is_filled r.status

  abbrev fills_of_order : Option (OrderResult D) → List (FillEvent D)
  fills_of_order none = []
  fills_of_order (some r) = r.fills

  abbrev filled_leg_of :
      Option (OrderResult D)
      → Option (OrderResult D)
      → Option (BracketExitReason × List (FillEvent D))
  filled_leg_of take_profit stop_loss =
      if is_filled_order take_profit
      then some (BracketExitReason.take_profit, fills_of_order take_profit)
      else if is_filled_order stop_loss
      then some (BracketExitReason.stop_loss, fills_of_order stop_loss)
      else none

  abbrev pub record_leg :
      Engine D → ActorContext → ℕ → Option (BracketExitReason × List (FillEvent D)) → Action D Bool
  record_leg E actor id (some (reason, f ∷ fs)) =
      record_approved_bracket_exit E id reason f actor >> pure true
  record_leg E actor id _ = pure false

  -- Both legs are asked for at once: neither answer depends on the other.
  unfoldable pub reconcile_legs : Engine D → ActorContext → ℕ → ℕ → ℕ → Action D Bool
  reconcile_legs E actor id take_profit_id stop_loss_id = do
    calls ← gets (λ w. w.calls)
    take_profit ← of_reply (E.get_order calls take_profit_id)
    stop_loss ← of_reply (E.get_order calls stop_loss_id)
    record_leg E actor id (filled_leg_of take_profit stop_loss)

  abbrev pub both_legs : Engine D → ActorContext → ℕ → Option ℕ → Option ℕ → Option (Action D Bool)
  both_legs E actor id (some t) (some s) = some (reconcile_legs E actor id t s)
  both_legs E actor id _ _ = none

  unfoldable pub reconcile_bracket :
      Engine D → ActorContext → OpenBracketOrder D → Option (Action D Bool)
  reconcile_bracket E actor b =
      both_legs E actor b.proposal_id b.bracket_order_ids.take_profit b.bracket_order_ids.stop_loss

  abbrev pub polled_from :
      {A : Type 0}
      → (A → Option (Action D Bool))
      → Result D (List A) × World D
      → PollResult × World D
  polled_from step (ok items, w) = poll step items nothing_polled w
  polled_from step (err e, w) = (nothing_polled, w)

  unfoldable pub reconcile_bracket_orders : Engine D → ActorContext → World D → PollResult × World D
  unfolding find_open_bracket_orders poll reconcile_bracket
  reconcile_bracket_orders E actor w =
      polled_from (reconcile_bracket E actor) (find_open_bracket_orders w)

  abbrev pub close_if_due :
      Engine D
      → Horizon
      → ActorContext
      → Option ℕ
      → OpenIntradayPosition D
      → Option ExitReason
      → Action D Bool
  close_if_due E h actor request_id p none = pure false
  close_if_due E h actor request_id p (some reason) =
      close_position E h p reason actor request_id >> pure true

  -- The step on one position; `now` is read once, before the loop.
  unfoldable pub check_position :
      Engine D
      → Horizon
      → ActorContext
      → Option ℕ
      → SessionSettings
      → ℕ
      → OpenIntradayPosition D
      → Option (Action D Bool)
  unfolding exit_due
  check_position E h actor request_id settings now p =
      some (close_if_due E h actor request_id p (exit_due h settings now p))

  abbrev pub open_positions : Horizon → Action D (List (OpenIntradayPosition D))
  open_positions Horizon.intraday = find_open_intraday_positions
  open_positions Horizon.hourly = find_open_hourly_positions

  -- The poll once the positions have been read: `if (positions.length === 0) return result`.
  abbrev pub check_positions :
      Engine D
      → Horizon
      → ActorContext
      → Option ℕ
      → List (OpenIntradayPosition D)
      → Result D SessionSettings × World D
      → PollResult × World D
  check_positions E h actor request_id ps (ok settings, w) =
      if is_empty ps
      then (nothing_polled, w)
      else poll (check_position E h actor request_id settings w.now) ps nothing_polled w
  check_positions E h actor request_id ps (err e, w) = (nothing_polled, w)

  abbrev pub time_exits_from :
      Engine D
      → Horizon
      → ActorContext
      → Option ℕ
      → Result D (List (OpenIntradayPosition D)) × World D
      → PollResult × World D
  time_exits_from E h actor request_id (ok ps, w) =
      check_positions E h actor request_id ps (load_settings h w)
  time_exits_from E h actor request_id (err e, w) = (nothing_polled, w)

  unfoldable pub reconcile_time_exits :
      Engine D → Horizon → ActorContext → Option ℕ → World D → PollResult × World D
  unfolding find_open_intraday_positions find_open_hourly_positions load_settings check_position
      poll
  reconcile_time_exits E h actor request_id w =
      time_exits_from E h actor request_id (open_positions h w)
