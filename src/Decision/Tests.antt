-- ===== src/Decision/Tests.antt =====
-- A run of the decision policy.
use mt5_ai_trading.Prelude.{◌≡◌, false, some}
use mt5_ai_trading.Decision.{
  AiActionPolicyInput, Decision, TradeAiEntryType, MarketStatus, DataStatus,
  compute_ai_trade_action,
}
use mt5_ai_trading.Decision.Actions.{
  expected_action, intent_of, is_contradictory, compute_ai_trade_action_lem,
}

abbrev market_order : AiActionPolicyInput
market_order = record {
  decision = Decision.buy;
  entry_type = TradeAiEntryType.market_now;
  market_status = some MarketStatus.open_now;
  data_status = some DataStatus.live;
}

compute_ai_trade_action_example :
    ((compute_ai_trade_action market_order).action ≡ expected_action market_order)
    × ((compute_ai_trade_action market_order).order_intent
        ≡ intent_of (compute_ai_trade_action market_order).action)
    × (is_contradictory (compute_ai_trade_action market_order).reason ≡ false)
compute_ai_trade_action_example = compute_ai_trade_action_lem market_order
