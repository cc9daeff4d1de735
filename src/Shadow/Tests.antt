-- ===== src/Shadow/Tests.antt =====
-- One pending and one entered shadow trade, with whole numbers for prices.
use mt5_ai_trading.Prelude.{ℕ, ◌≡◌, refl, ◌==◌, none, some, List, [], ◌∷◌, All, find}
use mt5_ai_trading.Numeric.Whole.{pos, whole_numbers}
use mt5_ai_trading.Domain.{Side}
use mt5_ai_trading.Store.{replied}
use mt5_ai_trading.Shadow.{
  RawBar, SimpleBar, Market, Plans, ShadowStatus, ShadowOrderType, ShadowExit, ShadowTrade, Watch,
  ShadowWatcherTickSummary, closes, evaluate_bars, to_bars, process_awaiting_trigger,
  run_shadow_trade_watcher_tick,
}
use mt5_ai_trading.Shadow.First.{IsVerdict, evaluate_bars-IsVerdict}
use mt5_ai_trading.Shadow.Graph.{IsComplete}
use mt5_ai_trading.Shadow.Level.{trigger_level_null}
use mt5_ai_trading.Shadow.Ticks.{tick-IsComplete}

abbrev bar : ℕ → ℕ → ℕ → SimpleBar whole_numbers
bar time high low = record { time = time; high = pos high; low = pos low; close = pos low }

abbrev raw_bar : ℕ → ℕ → ℕ → RawBar whole_numbers
raw_bar time high low = record {
  time = some time;
  high = some (pos high);
  low = some (pos low);
  close = pos low;
}

-- A pull-back to 20 that is sold, with the stop at 25 and the target at 10.
abbrev pullback : ShadowTrade whole_numbers
pullback = record {
  id = 1;
  ai_trade_plan_id = 4;
  symbol = "EURUSD";
  direction = Side.sell;
  order_type = ShadowOrderType.sell_limit;
  planned_entry = some (pos 20);
  entry_zone_low = none;
  entry_zone_high = none;
  trigger_price = none;
  stop_loss = pos 25;
  take_profit = pos 10;
  plan_expiry = 9_000_000;
  created_at = 0;
  status = ShadowStatus.awaiting_trigger;
  exit_reason = none;
  actual_shadow_entry = none;
  actual_shadow_exit = none;
  entered_at = none;
  closed_at = none;
  r_multiple = none;
  mfe_r = none;
  mae_r = none;
  net_result_estimate = none;
  holding_minutes = none;
}

abbrev sold : ShadowTrade whole_numbers
sold = record pullback {
  id = 2;
  status = ShadowStatus.entered;
  actual_shadow_entry = some (pos 20);
  entered_at = some 0;
}

abbrev short : Watch whole_numbers
short = record {
  side = Side.sell;
  entry = pos 20;
  stop = pos 25;
  target = pos 10;
  deadline = 900_000;
  resolve = λ b. none;
}

abbrev bars : List (SimpleBar whole_numbers)
bars = bar 0 22 15 ∷ bar 300 24 9 ∷ bar 600 30 9 ∷ []

evaluate_bars-IsVerdict_example :
    IsVerdict short bars (evaluate_bars whole_numbers short bars (pos 20) (pos 20))
evaluate_bars-IsVerdict_example = evaluate_bars-IsVerdict short bars (pos 20) (pos 20)

-- The second bar reaches the target.
target_reached :
    evaluate_bars whole_numbers short bars (pos 20) (pos 20)
    ≡ closes ShadowExit.take_profit (some (pos 10)) 300_000
unfolding evaluate_bars
target_reached = refl

abbrev market_of_bars : Market whole_numbers
market_of_bars = record {
  get_mt5_bars = λ symbol timeframe count. replied (raw_bar 300 24 9 ∷ raw_bar 0 22 15 ∷ []);
}

abbrev no_plans : Plans whole_numbers
no_plans id = none

abbrev ticked : ShadowWatcherTickSummary × List (ShadowTrade whole_numbers)
ticked =
    run_shadow_trade_watcher_tick whole_numbers market_of_bars no_plans 30 600_000
      (pullback ∷ sold ∷ [])

tick-IsComplete_example : All IsComplete ticked.1
tick-IsComplete_example =
    tick-IsComplete market_of_bars no_plans 30 600_000 (pullback ∷ sold ∷ [])
      (refl, ((refl, refl, refl), tt))

-- The entry is not 20 but zero, at the first bar.
trigger_level_null_example :
    find
      (λ u. u.id == 1)
      (process_awaiting_trigger whole_numbers market_of_bars 600_000 pullback
        (record { expired = 0; triggered = 0; closed = 0 }, pullback ∷ sold ∷ [])).1
    ≡ some (record pullback {
      status = ShadowStatus.entered;
      actual_shadow_entry = some (pos 0);
      entered_at = some 0;
    })
unfolding to_bars
trigger_level_null_example =
    trigger_level_null market_of_bars 600_000 pullback
      (record { expired = 0; triggered = 0; closed = 0 }) (pullback ∷ sold ∷ [])
      (raw_bar 300 24 9 ∷ raw_bar 0 22 15 ∷ []) [] (bar 0 22 15) (bar 300 24 9 ∷ []) refl refl refl
      refl refl refl tt refl refl
