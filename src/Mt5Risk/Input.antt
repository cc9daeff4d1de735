-- ===== src/Mt5Risk/Input.antt =====
-- `Mt5RiskInput` and `Mt5RiskResult` of apps/api/src/services/mt5-risk-engine.ts.
use mt5_ai_trading.Prelude.{ℕ, Bool, Option, List, String}
use mt5_ai_trading.Numeric.{Decimal}
use mt5_ai_trading.Domain.{RiskResult}
use mt5_ai_trading.Decision.{MarketStatus, DataStatus}
use mt5_ai_trading.Mt5Risk.Symbol.{Mt5RiskSymbolInfo}

pub data Mt5Decision : Type 0 where
  buy sell hold no_trade : Mt5Decision

module _ (D : Decimal) where
  -- `account`, of which no field need be there
  pub record Mt5Account : Type 0 where
    pub equity : Option D.Text
    pub balance : Option D.Text
    pub margin_free : Option D.Text
    pub free_margin : Option D.Text
    pub leverage : Option D.Text

  -- The settings that the engine reads; `kill_switch_enabled` is there when it is a Boolean, and a
  -- limit is the number to which its value converts.
  pub record Mt5RiskSettings : Type 0 where
    pub kill_switch_enabled : Option Bool
    pub max_risk_per_trade_pct : Option D.Text
    pub max_loss_per_trade : Option D.Text
    pub min_risk_reward : Option D.Text
    pub margin_safety_buffer_pct : Option D.Text
    pub max_simultaneous_positions : Option D.Value
    pub max_trades_per_day : Option D.Value
    pub quote_staleness_seconds : Option D.Value
    pub max_spread_points : Option D.Value

  pub record Mt5RiskInput : Type 0 where
    pub decision : Mt5Decision
    pub reference_entry : D.Text
    pub stop_loss : Option D.Text
    pub take_profit : Option D.Text
    pub risk_reward : Option D.Text
    pub account : Mt5Account
    pub settings : Mt5RiskSettings
    pub open_positions : ℕ
    pub trades_today : ℕ
    pub quote_age_seconds : Option D.Value
    pub spread_points : Option D.Value
    pub market_status : Option MarketStatus
    pub data_status : Option DataStatus
    pub symbol : Option (Mt5RiskSymbolInfo D)
    pub leverage : Option D.Text

  -- `snapshot`; a `data_status` that is not there is `UNKNOWN`.
  pub record Mt5RiskSnapshot : Type 0 where
    pub risk_budget : D.Text
    pub risk_distance : D.Text
    pub risk_reward : D.Text
    pub recommended_volume : D.Text
    pub raw_volume_before_normalize : D.Text
    pub loss_per_lot : D.Text
    pub expected_loss_at_sl : D.Text
    pub margin_required : D.Text
    pub free_margin : D.Text
    pub free_margin_after_entry : D.Text
    pub margin_shortfall : D.Text
    pub risk_pct_of_equity : D.Text
    pub max_risk_pct : D.Text
    pub max_loss_per_trade : D.Text
    pub open_positions : ℕ
    pub max_simultaneous_positions : D.Value
    pub available_position_slots : D.Value
    pub daily_confirmed_trades : ℕ
    pub daily_trade_limit : D.Value
    pub daily_trades_remaining : D.Value
    pub market_status : MarketStatus
    pub data_status : Option DataStatus
    pub failed_rules : List String

  pub record Mt5RiskResult : Type 0 where
    pub result : RiskResult
    pub failed_rules : List String
    pub reason : Option String
    pub recommended_volume : D.Text
    pub risk_amount : D.Text
    pub snapshot : Mt5RiskSnapshot
