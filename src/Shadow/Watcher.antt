-- ===== src/Shadow/Watcher.antt =====
-- `processAwaitingTrigger`, `processEnteredTrade` and `runShadowTradeWatcherTick`.
use mt5_ai_trading.Prelude.{
  ℕ, suc, ◌+◌, ◌-◌, ◌/◌, Bool, Option, none, some, List, [], ◌∷◌, leb, where_rows, if◌then◌else◌,
}
use mt5_ai_trading.Numeric.{Decimal}
use mt5_ai_trading.Domain.{Side}
use mt5_ai_trading.Store.{Reply, replied, failed}
use mt5_ai_trading.Shadow.Bars.{
  Timeframe, RawBar, SimpleBar, Market, to_bars, opens_at, bars_since, bars_needed_since,
}
use mt5_ai_trading.Shadow.Trades.{
  ShadowStatus, ShadowExit, ShadowTrade, has_status, trigger_level, column_number, update_where,
}
use mt5_ai_trading.Shadow.Outcomes.{
  Outcome, nothing, running, closes, is_triggered_by_candle, evaluate_entered_trade,
}

-- `ShadowWatcherTickSummary`
pub record ShadowWatcherTickSummary : Type 0 where
  pub expired : ℕ
  pub triggered : ℕ
  pub closed : ℕ

abbrev count_if : Bool → ℕ → ℕ
count_if hit n = if hit then suc n else n

-- `max_planned_loss` of each plan; `none` is a plan that is not there.
abbrev pub Plans : Decimal → Type 0
Plans D = ℕ → Option (Option D.Value)

module _ (D : Decimal) where
  abbrev pub set_expired : ShadowTrade D → ShadowTrade D
  set_expired t = record t { status = ShadowStatus.expired_not_triggered }

  abbrev pub set_entered : D.Value → ℕ → ShadowTrade D → ShadowTrade D
  set_entered level at t = record t {
    status = ShadowStatus.entered;
    actual_shadow_entry = some level;
    entered_at = some at;
  }

  -- The first bar that triggers the trade
  unfoldable pub first_trigger : ShadowTrade D → D.Value → List (SimpleBar D) → Option (SimpleBar D)
  unfolding is_triggered_by_candle
  first_trigger t level [] = none
  first_trigger t level (b ∷ bs) =
      let rest = first_trigger t level bs in
      if is_triggered_by_candle D t.order_type level b then some b else rest

  abbrev bars_of : ℕ → Reply (List (RawBar D)) → List (SimpleBar D)
  bars_of since (failed m) = []
  bars_of since (replied raw) = bars_since D (some since) (to_bars D raw)

  abbrev pub enter_at :
      ShadowTrade D
      → D.Value
      → Option (SimpleBar D)
      → ShadowWatcherTickSummary × List (ShadowTrade D)
      → ShadowWatcherTickSummary × List (ShadowTrade D)
  enter_at t level none q = q
  enter_at t level (some b) (n, l) =
      let (hit, l') =
        update_where D t.id ShadowStatus.awaiting_trigger (set_entered level (opens_at D b)) l in
      (record n { triggered = count_if hit n.triggered }, l')

  abbrev pub trigger_at :
      Market D
      → ℕ
      → ShadowTrade D
      → Option D.Value
      → ShadowWatcherTickSummary × List (ShadowTrade D)
      → ShadowWatcherTickSummary × List (ShadowTrade D)
  trigger_at M now t none q = q
  trigger_at M now t (some level) q =
      enter_at t level
        (first_trigger t level (
          bars_of t.created_at
            (M.get_mt5_bars t.symbol Timeframe.m5 (bars_needed_since t.created_at now))))
        q

  unfoldable pub process_awaiting_trigger :
      Market D
      → ℕ
      → ShadowTrade D
      → ShadowWatcherTickSummary × List (ShadowTrade D)
      → ShadowWatcherTickSummary × List (ShadowTrade D)
  unfolding trigger_level first_trigger to_bars bars_needed_since
  process_awaiting_trigger M now t (n, l) =
      if leb t.plan_expiry now
      then (let (hit, l') = update_where D t.id ShadowStatus.awaiting_trigger set_expired l in
          (record n { expired = count_if hit n.expired }, l'))
      else trigger_at M now t (trigger_level D t) (n, l)

  abbrev gain : Side → D.Value → D.Value → D.Value
  gain Side.buy entry exit = D.minus exit entry
  gain Side.sell entry exit = D.minus entry exit

  abbrev r_multiple_of : ShadowTrade D → Option D.Value → Option D.Value
  r_multiple_of t none = none
  r_multiple_of t (some exit) =
      let entry = column_number D t.actual_shadow_entry in
      some (D.div (gain t.direction entry exit) (D.abs (D.minus entry t.stop_loss)))

  abbrev net_result_of : Option (Option D.Value) → Option D.Value → Option D.Value
  net_result_of none r = none
  net_result_of (some loss) none = none
  net_result_of (some loss) (some r) = some (D.times r (column_number D loss))

  -- `Math.round` of the minutes between
  abbrev minutes_between : Option ℕ → ℕ → Option ℕ
  minutes_between none at = none
  minutes_between (some entered) at = some ((at - entered + 30_000) / 60_000)

  abbrev pub set_excursions : D.Value → D.Value → ShadowTrade D → ShadowTrade D
  set_excursions mfe mae t = record t { mfe_r = some mfe; mae_r = some mae }

  abbrev pub set_closed :
      ShadowExit
      → Option D.Value
      → ℕ
      → Option D.Value
      → Option D.Value
      → Option ℕ
      → ShadowTrade D
      → ShadowTrade D
  set_closed reason exit at r net minutes t = record t {
    status = ShadowStatus.closed;
    exit_reason = some reason;
    actual_shadow_exit = exit;
    closed_at = some at;
    r_multiple = r;
    net_result_estimate = net;
    holding_minutes = minutes;
  }

  abbrev pub record_outcome :
      Plans D
      → ShadowTrade D
      → Outcome D
      → ShadowWatcherTickSummary × List (ShadowTrade D)
      → ShadowWatcherTickSummary × List (ShadowTrade D)
  record_outcome plans t nothing q = q
  record_outcome plans t (running mfe mae) (n, l) =
      let (hit, l') = update_where D t.id ShadowStatus.entered (set_excursions mfe mae) l in (n, l')
  record_outcome plans t (closes reason exit at) (n, l) =
      let r = r_multiple_of t exit in
      let (hit, l') =
        update_where D t.id ShadowStatus.entered
          (set_closed reason exit at r (net_result_of (plans t.ai_trade_plan_id) r)
            (minutes_between t.entered_at at))
          l in
      (record n { closed = count_if hit n.closed }, l')

  unfoldable pub process_entered_trade :
      Market D
      → Plans D
      → ℕ
      → ℕ
      → ShadowTrade D
      → ShadowWatcherTickSummary × List (ShadowTrade D)
      → ShadowWatcherTickSummary × List (ShadowTrade D)
  unfolding evaluate_entered_trade
  process_entered_trade M plans max_minutes now t q =
      record_outcome plans t (evaluate_entered_trade D M max_minutes now t) q

  -- One row after the other
  abbrev pub each_row :
      (ShadowTrade D
        → ShadowWatcherTickSummary × List (ShadowTrade D)
        → ShadowWatcherTickSummary × List (ShadowTrade D))
      → List (ShadowTrade D)
      → ShadowWatcherTickSummary × List (ShadowTrade D)
      → ShadowWatcherTickSummary × List (ShadowTrade D)
  each_row step [] q = q
  each_row step (t ∷ ts) q = each_row step ts (step t q)

  -- `SELECT * FROM shadow_trades WHERE status = …`
  abbrev pub rows_with : ShadowStatus → List (ShadowTrade D) → List (ShadowTrade D)
  rows_with s l = where_rows (λ t. has_status t.status s) l

  -- `runShadowTradeWatcherTick`
  unfoldable pub run_shadow_trade_watcher_tick :
      Market D
      → Plans D
      → ℕ
      → ℕ
      → List (ShadowTrade D)
      → ShadowWatcherTickSummary × List (ShadowTrade D)
  unfolding process_awaiting_trigger process_entered_trade
  run_shadow_trade_watcher_tick M plans max_minutes now l =
      let q =
        each_row (process_awaiting_trigger M now) (rows_with ShadowStatus.awaiting_trigger l)
          (record { expired = 0; triggered = 0; closed = 0 }, l) in
      each_row (process_entered_trade M plans max_minutes now) (rows_with ShadowStatus.entered q.1)
        q
