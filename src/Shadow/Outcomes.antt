-- ===== src/Shadow/Outcomes.antt =====
-- `isTriggeredByCandle`, `disambiguateWithM1` and `evaluateEnteredTrade`.
use mt5_ai_trading.Prelude.{
  ℕ, ◌+◌, ◌*◌, Bool, false, not, ◌&&◌, ◌||◌, Option, none, some, List, [], ◌∷◌, String, ltb, leb,
  where_rows, or_default, if◌then◌else◌,
}
use mt5_ai_trading.Numeric.{Decimal}
use mt5_ai_trading.Domain.{Side}
use mt5_ai_trading.Store.{Reply, replied, failed}
use mt5_ai_trading.Shadow.Bars.{
  Timeframe, RawBar, SimpleBar, Market, to_bars, opens_at, bars_since, bars_needed_since,
}
use mt5_ai_trading.Shadow.Trades.{ShadowOrderType, ShadowExit, ShadowTrade, column_number}

module _ (D : Decimal) where
  unfoldable pub is_triggered_by_candle : ShadowOrderType → D.Value → SimpleBar D → Bool
  is_triggered_by_candle ShadowOrderType.buy_limit level b = D.lte b.low level
  is_triggered_by_candle ShadowOrderType.sell_stop level b = D.lte b.low level
  is_triggered_by_candle ShadowOrderType.sell_limit level b = D.lte level b.high
  is_triggered_by_candle ShadowOrderType.buy_stop level b = D.lte level b.high
  is_triggered_by_candle ShadowOrderType.market level b = false

  abbrev pub hits_stop : Side → D.Value → SimpleBar D → Bool
  hits_stop Side.buy stop b = D.lte b.low stop
  hits_stop Side.sell stop b = D.lte stop b.high

  abbrev pub hits_target : Side → D.Value → SimpleBar D → Bool
  hits_target Side.buy target b = D.lte target b.high
  hits_target Side.sell target b = D.lte b.low target

  -- The first of the finer bars that touches a level decides, unless it touches both.
  unfoldable pub resolve_touch : Side → D.Value → D.Value → List (SimpleBar D) → Option ShadowExit
  resolve_touch side stop target [] = none
  resolve_touch side stop target (b ∷ bs) =
      let rest = resolve_touch side stop target bs in
      if hits_stop side stop b && hits_target side target b
      then none
      else if hits_stop side stop b
      then some ShadowExit.stop_loss
      else if hits_target side target b
      then some ShadowExit.take_profit
      else rest

  abbrev in_candle : SimpleBar D → SimpleBar D → Bool
  in_candle candle b = leb candle.time b.time && ltb b.time (candle.time + 300)

  abbrev resolve_reply :
      Side → D.Value → D.Value → SimpleBar D → Reply (List (RawBar D)) → Option ShadowExit
  resolve_reply side stop target candle (failed m) = none
  resolve_reply side stop target candle (replied raw) =
      resolve_touch side stop target (where_rows (in_candle candle) (to_bars D raw))

  unfoldable pub disambiguate_with_m1 :
      Market D → String → Side → D.Value → D.Value → SimpleBar D → Option ShadowExit
  unfolding resolve_touch to_bars
  disambiguate_with_m1 M symbol side stop target candle =
      resolve_reply side stop target candle (M.get_mt5_bars symbol Timeframe.m1 400)

  -- `CloseOutcome | { mfeR, maeR } | null`
  pub data Outcome : Type 0 where
    nothing : Outcome
    running : D.Value → D.Value → Outcome
    closes : ShadowExit → Option D.Value → ℕ → Outcome

  -- The levels of a trade, its deadline, and what the finer bars of a candle say.
  pub record Watch : Type 0 where
    pub side : Side
    pub entry : D.Value
    pub stop : D.Value
    pub target : D.Value
    pub deadline : ℕ
    pub resolve : SimpleBar D → Option ShadowExit

  abbrev pub better : Side → D.Value → SimpleBar D → D.Value
  better Side.buy v b = D.max v b.high
  better Side.sell v b = D.min v b.low

  abbrev pub worse : Side → D.Value → SimpleBar D → D.Value
  worse Side.buy v b = D.min v b.low
  worse Side.sell v b = D.max v b.high

  abbrev pub both_touched : Watch → SimpleBar D → Option ShadowExit → Outcome
  both_touched x b (some ShadowExit.stop_loss) =
      closes ShadowExit.stop_loss (some x.stop) (opens_at D b)
  both_touched x b (some ShadowExit.take_profit) =
      closes ShadowExit.take_profit (some x.target) (opens_at D b)
  both_touched x b _ = closes ShadowExit.ambiguous_outcome none (opens_at D b)

  abbrev excursion : Side → D.Value → D.Value → D.Value
  excursion Side.buy entry v = D.minus v entry
  excursion Side.sell entry v = D.minus entry v

  -- What one candle decides, if anything.
  unfoldable pub decide_bar : Watch → SimpleBar D → Option Outcome
  decide_bar x b =
      if hits_stop x.side x.stop b && hits_target x.side x.target b
      then some (both_touched x b (x.resolve b))
      else if hits_stop x.side x.stop b
      then some (closes ShadowExit.stop_loss (some x.stop) (opens_at D b))
      else if hits_target x.side x.target b
      then some (closes ShadowExit.take_profit (some x.target) (opens_at D b))
      else if leb x.deadline (opens_at D b)
      then some (closes ShadowExit.time_exit (some b.close) (opens_at D b))
      else none

  -- The loop over the candles, with the best and the worst price so far.
  unfoldable pub evaluate_bars : Watch → List (SimpleBar D) → D.Value → D.Value → Outcome
  unfolding decide_bar
  evaluate_bars x [] best worst =
      let risk = D.abs (D.minus x.entry x.stop) in
      running (D.div (excursion x.side x.entry best) risk)
        (D.div (excursion x.side x.entry worst) risk)
  evaluate_bars x (b ∷ bs) best worst =
      let rest = evaluate_bars x bs (better x.side best b) (worse x.side worst b) in
      or_default (decide_bar x b) rest

  abbrev minutes_ms : ℕ → ℕ
  minutes_ms m = m * 60_000

  -- A date that is not there makes every comparison with the deadline false.
  abbrev deadline_of : Option ℕ → ℕ → ℕ
  deadline_of none minutes = minutes_ms minutes
  deadline_of (some entered) minutes = entered + minutes_ms minutes

  abbrev pub watch_of : Market D → ℕ → ShadowTrade D → Watch
  watch_of M max_minutes t = record {
    side = t.direction;
    entry = column_number D t.actual_shadow_entry;
    stop = t.stop_loss;
    target = t.take_profit;
    deadline = deadline_of t.entered_at max_minutes;
    resolve = disambiguate_with_m1 M t.symbol t.direction t.stop_loss t.take_profit;
  }

  abbrev evaluate_reply : Watch → Option ℕ → Reply (List (RawBar D)) → Outcome
  evaluate_reply x entered (failed m) = nothing
  evaluate_reply x entered (replied raw) =
      evaluate_bars x (bars_since D entered (to_bars D raw)) x.entry x.entry

  unfoldable pub evaluate_entered_trade : Market D → ℕ → ℕ → ShadowTrade D → Outcome
  unfolding evaluate_bars disambiguate_with_m1 to_bars bars_needed_since
  evaluate_entered_trade M max_minutes now t =
      let x = watch_of M max_minutes t in
      let risk = D.abs (D.minus x.entry x.stop) in
      if not (D.lte risk risk) || D.is_zero risk
      then nothing
      else evaluate_reply x t.entered_at (
          M.get_mt5_bars t.symbol Timeframe.m5
            (bars_needed_since (or_default t.entered_at now) now))
