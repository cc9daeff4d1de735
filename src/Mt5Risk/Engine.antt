-- ===== src/Mt5Risk/Engine.antt =====
-- `evaluateMt5Risk`: the gates in the order of the code, then those of the sizing.
use Prim.Native.String.{◌++◌ as str_append}
use mt5_ai_trading.Prelude.{
  ℕ, Bool, true, false, not, Option, none, some, List, [], ◌∷◌, ◌++◌, String, is_empty, is_some,
  coalesce, or_default, if◌then◌else◌,
}
use mt5_ai_trading.Numeric.{Decimal}
use mt5_ai_trading.Domain.{RiskResult}
use mt5_ai_trading.Decision.{MarketStatus, DataStatus}
use mt5_ai_trading.Mt5Risk.Input.{Mt5Decision, Mt5RiskInput, Mt5RiskSnapshot, Mt5RiskResult}
use mt5_ai_trading.Mt5Risk.Sizing.{SizingInput, Sizing, size_position}

abbrev pub is_executable : Mt5Decision → Bool
is_executable Mt5Decision.buy = true
is_executable Mt5Decision.sell = true
is_executable _ = false

-- The rule under its condition
abbrev pub flag : Bool → String → List String
flag c rule = if c then rule ∷ [] else []

abbrev pub market_rules : Option MarketStatus → List String
market_rules none = []
market_rules (some MarketStatus.open_now) = []
market_rules (some MarketStatus.closed) = "MARKET_CLOSED" ∷ []
market_rules (some MarketStatus.quote_only) = "BLOCKED_MARKET_QUOTE_ONLY" ∷ []
market_rules (some MarketStatus.trade_disabled) = "BLOCKED_MARKET_TRADE_DISABLED" ∷ []
market_rules (some MarketStatus.unknown) = "BLOCKED_MARKET_UNKNOWN" ∷ []

abbrev pub data_rules : Option DataStatus → List String
data_rules none = []
data_rules (some DataStatus.live) = []
data_rules (some DataStatus.stale) = "STALE_DATA" ∷ []
data_rules (some DataStatus.disconnected) = "DATA_DISCONNECTED" ∷ []

-- `failed.join(', ')`
abbrev join_rules : List String → String
join_rules [] = ""
join_rules (r ∷ rs) =
    let rest = join_rules rs in if is_empty rs then r else str_append r (str_append ", " rest)

abbrev reason_of : List String → Option String
reason_of [] = none
reason_of (r ∷ rs) = some (str_append "MT5 risk rejected: " (join_rules (r ∷ rs)))

abbrev pub result_of : List String → RiskResult
result_of [] = RiskResult.pass
result_of (r ∷ rs) = RiskResult.reject

abbrev setting : (D : Decimal) → Option D.Text → ℕ → D.Value
setting D value fallback = D.parse (or_default value (D.literal fallback))

-- A setting whose default is a fraction: `n` hundredths.
abbrev setting_hundredths : (D : Decimal) → Option D.Text → ℕ → D.Value
setting_hundredths D none n = D.div (D.of_nat n) (D.of_nat 100)
setting_hundredths D (some t) n = D.parse t

abbrev distance_to : (D : Decimal) → D.Value → Option D.Text → D.Value
distance_to D entry none = D.of_nat 0
distance_to D entry (some sl) = D.abs (D.minus entry (D.parse sl))

abbrev reward_from : (D : Decimal) → D.Value → D.Value → Option D.Text → Option D.Text → D.Value
reward_from D entry distance (some tp) (some sl) =
    D.div (D.abs (D.minus (D.parse tp) entry)) distance
reward_from D entry distance _ _ = D.of_nat 0

abbrev reward_or : (D : Decimal) → Option D.Text → D.Value → D.Value
reward_or D none computed = computed
reward_or D (some r) computed = D.parse r

abbrev pub limit_or : (D : Decimal) → Option D.Value → ℕ → D.Value
limit_or D limit fallback = or_default limit (D.of_nat fallback)

module _ {D : Decimal} where
  abbrev pub entry_of : Mt5RiskInput D → D.Value
  entry_of x = D.parse x.reference_entry

  abbrev pub free_margin_of : Mt5RiskInput D → D.Value
  free_margin_of x = setting D (coalesce x.account.margin_free x.account.free_margin) 0

  abbrev pub max_loss_of : Mt5RiskInput D → D.Value
  max_loss_of x = setting D x.settings.max_loss_per_trade 100

  abbrev pub min_reward_of : Mt5RiskInput D → D.Value
  min_reward_of x = setting_hundredths D x.settings.min_risk_reward 150

  unfoldable pub risk_budget : Mt5RiskInput D → D.Value
  risk_budget x = D.min (max_loss_of x) (
      D.div
        (D.times (setting D (coalesce x.account.equity x.account.balance) 0)
          (setting_hundredths D x.settings.max_risk_per_trade_pct 50))
        (D.of_nat 100))

  unfoldable pub risk_distance : Mt5RiskInput D → D.Value
  risk_distance x = distance_to D (entry_of x) x.stop_loss

  unfoldable pub risk_reward : Mt5RiskInput D → D.Value
  unfolding risk_distance
  risk_reward x =
      reward_or D x.risk_reward
        (reward_from D (entry_of x) (risk_distance x) x.take_profit x.stop_loss)

  abbrev pub sizing_input : Mt5RiskInput D → SizingInput D
  sizing_input x = record {
    entry = entry_of x;
    risk_distance = risk_distance x;
    risk_budget = risk_budget x;
    max_loss = max_loss_of x;
    leverage = setting D (coalesce x.leverage x.account.leverage) 0;
    free_margin = free_margin_of x;
    margin_buffer_pct = setting D x.settings.margin_safety_buffer_pct 50;
  }

  abbrev pub limit_rules : Mt5RiskInput D → List String
  limit_rules x =
      flag (D.lte (limit_or D x.settings.max_simultaneous_positions 3) (D.of_nat x.open_positions))
        "MAX_SIMULTANEOUS_POSITIONS"
      ++ (flag (D.lte (limit_or D x.settings.max_trades_per_day 6) (D.of_nat x.trades_today))
            "MAX_TRADES_PER_DAY"
          ++ (flag
                (D.gt (limit_or D x.quote_age_seconds 0)
                  (limit_or D x.settings.quote_staleness_seconds 10))
                "STALE_QUOTE"
              ++ (flag
                    (D.gt (limit_or D x.spread_points 0)
                      (limit_or D x.settings.max_spread_points 50))
                    "SPREAD_TOO_HIGH"
                  ++ flag (D.lte (free_margin_of x) (D.of_nat 0)) "MARGIN_INSUFFICIENT")))

  -- `failed` before `sizingFailed` is appended
  unfoldable pub gate_rules : Mt5RiskInput D → List String
  unfolding risk_distance risk_reward
  gate_rules x =
      flag (or_default x.settings.kill_switch_enabled true) "SAFETY_SWITCH_ON"
      ++ (market_rules x.market_status
          ++ (data_rules x.data_status
              ++ (flag (not (is_executable x.decision)) "NO_EXECUTABLE_DECISION"
                  ++ (flag (not (is_some x.stop_loss)) "STOP_LOSS_REQUIRED"
                      ++ (flag (not (is_some x.take_profit)) "TAKE_PROFIT_REQUIRED"
                          ++ (flag (D.lte (risk_distance x) (D.of_nat 0)) "INVALID_STOP_DISTANCE"
                              ++ (flag (D.lt (risk_reward x) (min_reward_of x))
                                    "RISK_REWARD_TOO_LOW"
                                  ++ limit_rules x)))))))

  abbrev equity_of : Mt5RiskInput D → D.Value
  equity_of x = setting D (coalesce x.account.equity x.account.balance) 0

  abbrev snapshot_of : Mt5RiskInput D → Sizing D → List String → Mt5RiskSnapshot D
  snapshot_of x z failed =
      let free = free_margin_of x in
      let required = z.margin_required in
      let max_positions = limit_or D x.settings.max_simultaneous_positions 3 in
      let max_trades = limit_or D x.settings.max_trades_per_day 6 in
      record {
        risk_budget = D.to_fixed 8 (risk_budget x);
        risk_distance = D.to_fixed 8 (risk_distance x);
        risk_reward = D.to_fixed 8 (risk_reward x);
        recommended_volume = D.to_fixed 8 z.volume;
        raw_volume_before_normalize = D.to_fixed 8 z.raw_volume;
        loss_per_lot = D.to_fixed 8 z.loss_per_lot;
        expected_loss_at_sl = D.to_fixed 8 z.expected_loss;
        margin_required = D.to_fixed 8 required;
        free_margin = D.to_fixed 8 free;
        free_margin_after_entry = D.to_fixed 8 (D.minus free required);
        margin_shortfall =
            D.to_fixed 8 (if D.gt required free then D.minus required free else D.of_nat 0);
        risk_pct_of_equity = D.to_fixed 8 (
            if D.gt (equity_of x) (D.of_nat 0)
            then D.times (D.div z.expected_loss (equity_of x)) (D.of_nat 100)
            else D.of_nat 0);
        max_risk_pct = D.to_fixed 8 (setting_hundredths D x.settings.max_risk_per_trade_pct 50);
        max_loss_per_trade = D.to_fixed 8 (max_loss_of x);
        open_positions = x.open_positions;
        max_simultaneous_positions = max_positions;
        available_position_slots =
            D.max (D.of_nat 0) (D.minus max_positions (D.of_nat x.open_positions));
        daily_confirmed_trades = x.trades_today;
        daily_trade_limit = max_trades;
        daily_trades_remaining = D.max (D.of_nat 0) (D.minus max_trades (D.of_nat x.trades_today));
        market_status = or_default x.market_status MarketStatus.unknown;
        data_status = x.data_status;
        failed_rules = failed;
      }

  abbrev pub result_from : Mt5RiskInput D → Sizing D → Mt5RiskResult D
  result_from x z =
      let failed = gate_rules x ++ z.failed in
      record {
        result = result_of failed;
        failed_rules = failed;
        reason = reason_of failed;
        recommended_volume = D.to_fixed 8 z.volume;
        risk_amount = D.to_fixed 8 (risk_budget x);
        snapshot = snapshot_of x z failed;
      }

  unfoldable pub evaluate_mt5_risk : Mt5RiskInput D → Mt5RiskResult D
  unfolding gate_rules risk_budget risk_distance risk_reward size_position
  evaluate_mt5_risk x = result_from x (size_position (sizing_input x) x.symbol)
