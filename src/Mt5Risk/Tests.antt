-- ===== src/Mt5Risk/Tests.antt =====
-- A plan that the engine passes, one with the broker's smallest volume, and one with the kill switch
-- on.
use mt5_ai_trading.Prelude.{◌≡◌, refl, ◌↔◌, true, false, none, some, [], ◌∷◌}
use mt5_ai_trading.Numeric.Whole.{pos, whole_numbers, whole_numbers-IsDecimal}
use mt5_ai_trading.Domain.{RiskResult}
use mt5_ai_trading.Decision.{MarketStatus, DataStatus}
use mt5_ai_trading.Mt5Risk.{
  JsonNumber, Mt5SymbolFields, Mt5RiskSymbolInfo, Mt5Decision, Mt5RiskInput, Mt5RiskSettings,
  to_risk_symbol_info, chosen_volume, margin_required, margin_allowance, sizing_input, risk_budget,
  risk_distance, evaluate_mt5_risk,
}
use mt5_ai_trading.Mt5Risk.Pass.{IsPassed, pass_iff}
use mt5_ai_trading.Mt5Risk.Tradable.{IsTradable, symbol-IsTradable}
use mt5_ai_trading.Mt5Risk.Volume.{IsWithinRisk, recommended, passed_volume}

abbrev one : JsonNumber whole_numbers
one = JsonNumber.number (pos 1)

abbrev fields : Mt5SymbolFields whole_numbers
fields = record {
  trade_contract_size = one;
  trade_tick_size = one;
  trade_tick_value = one;
  trade_tick_value_loss = JsonNumber.undefined;
  trade_tick_value_profit = JsonNumber.null;
  volume_min = JsonNumber.number (pos 2);
  volume_max = JsonNumber.number (pos 50);
  volume_step = one;
  point = JsonNumber.undefined;
}

abbrev info : Mt5RiskSymbolInfo whole_numbers
info = record {
  contract_size = pos 1;
  tick_size = pos 1;
  tick_value_loss = pos 1;
  tick_value_profit = pos 1;
  volume_min = pos 2;
  volume_max = pos 50;
  volume_step = pos 1;
  point = pos 1;
}

info_read : to_risk_symbol_info (some fields) ≡ some info
unfolding to_risk_symbol_info
info_read = refl

symbol-IsTradable_example : IsTradable info
symbol-IsTradable_example = symbol-IsTradable whole_numbers-IsDecimal (some fields) info info_read

abbrev limits : Mt5RiskSettings whole_numbers
limits = record {
  kill_switch_enabled = some false;
  max_risk_per_trade_pct = some (pos 1);
  max_loss_per_trade = none;
  min_risk_reward = some (pos 2);
  margin_safety_buffer_pct = none;
  max_simultaneous_positions = none;
  max_trades_per_day = none;
  quote_staleness_seconds = none;
  max_spread_points = none;
}

-- An entry at 100 with the stop at 90 and the target at 130, and an equity of 10,000.
abbrev plan : Mt5RiskInput whole_numbers
plan = record {
  decision = Mt5Decision.buy;
  reference_entry = pos 100;
  stop_loss = some (pos 90);
  take_profit = some (pos 130);
  risk_reward = none;
  account = record {
    equity = some (pos 10000);
    balance = none;
    margin_free = some (pos 10000);
    free_margin = none;
    leverage = some (pos 10);
  };
  settings = limits;
  open_positions = 2;
  trades_today = 5;
  quote_age_seconds = none;
  spread_points = some (pos 50);
  market_status = some MarketStatus.open_now;
  data_status = some DataStatus.live;
  symbol = some info;
  leverage = none;
}

passes : (evaluate_mt5_risk plan).result ≡ RiskResult.pass
unfolding evaluate_mt5_risk
passes = refl

pass_iff_example : ((evaluate_mt5_risk plan).result ≡ RiskResult.pass) ↔ IsPassed plan
pass_iff_example = pass_iff plan

ten_lots : recommended plan info ≡ pos 10
unfolding chosen_volume risk_distance risk_budget
ten_lots = refl

passed_volume_example :
    (whole_numbers.gt (recommended plan info) (pos 0) ≡ true)
    × IsWithinRisk plan info
    × (whole_numbers.gt (sizing_input plan).leverage (pos 0) ≡ true)
    × (whole_numbers.gt
          (margin_required (sizing_input plan) info (recommended plan info))
          (margin_allowance (sizing_input plan))
        ≡ false)
unfolding chosen_volume risk_distance risk_budget
passed_volume_example =
    passed_volume whole_numbers-IsDecimal plan (some fields) info info_read refl passes refl

-- With a budget below the loss of two lots, the smallest volume is taken while its loss is within the
-- limit of a trade.
abbrev small_plan : Mt5RiskInput whole_numbers
small_plan = record plan { account = record (plan.account) { equity = some (pos 1000) } }

smallest_taken : recommended small_plan info ≡ pos 2
unfolding chosen_volume risk_distance risk_budget
smallest_taken = refl

abbrev halted_plan : Mt5RiskInput whole_numbers
halted_plan = record plan {
  settings = record limits { kill_switch_enabled = none };
  market_status = some MarketStatus.closed;
}

kill_switch_first :
    (evaluate_mt5_risk halted_plan).failed_rules ≡ "SAFETY_SWITCH_ON" ∷ "MARKET_CLOSED" ∷ []
unfolding evaluate_mt5_risk
kill_switch_first = refl
