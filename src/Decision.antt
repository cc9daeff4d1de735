-- ===== src/Decision.antt =====
-- The decision policy, apps/api/src/services/trading-ai/decision-policy.ts.
pub mod Actions
mod Tests
use mt5_ai_trading.Prelude.{Bool, true, false, not, ◌&&◌, ◌||◌, Option, none, some, if◌then◌else◌}

pub data AiTradeAction : Type 0 where
  enter_now wait_for_entry no_execution : AiTradeAction

pub data AiTradeActionReason : Type 0 where
  no_valid_entry market_entry_ready pending_entry_plan_ready : AiTradeActionReason
  market_closed stale_quote contradictory_plan : AiTradeActionReason

pub data OrderIntent : Type 0 where
  market pending : OrderIntent

pub record AiActionResult : Type 0 where
  pub action : AiTradeAction
  pub reason : AiTradeActionReason
  pub order_intent : Option OrderIntent

pub data Decision : Type 0 where
  buy sell wait : Decision

pub data TradeAiEntryType : Type 0 where
  market_now pullback breakout no_entry : TradeAiEntryType

pub data MarketStatus : Type 0 where
  open_now closed quote_only trade_disabled unknown : MarketStatus

pub data DataStatus : Type 0 where
  live stale disconnected : DataStatus

pub record AiActionPolicyInput : Type 0 where
  pub decision : Decision
  pub entry_type : TradeAiEntryType
  pub market_status : Option MarketStatus
  pub data_status : Option DataStatus

abbrev pub is_wait : Decision → Bool
is_wait Decision.wait = true
is_wait _ = false

abbrev pub is_no_entry : TradeAiEntryType → Bool
is_no_entry TradeAiEntryType.no_entry = true
is_no_entry _ = false

abbrev pub is_pending_entry : TradeAiEntryType → Bool
is_pending_entry TradeAiEntryType.pullback = true
is_pending_entry TradeAiEntryType.breakout = true
is_pending_entry _ = false

abbrev pub is_market_now : TradeAiEntryType → Bool
is_market_now TradeAiEntryType.market_now = true
is_market_now _ = false

abbrev pub is_open : Option MarketStatus → Bool
is_open (some MarketStatus.open_now) = true
is_open _ = false

abbrev pub is_live : Option DataStatus → Bool
is_live (some DataStatus.live) = true
is_live _ = false

abbrev no_execution_for : AiTradeActionReason → AiActionResult
no_execution_for r = record { action = AiTradeAction.no_execution; reason = r; order_intent = none }

abbrev wait_for_entry_result : AiActionResult
wait_for_entry_result = record {
  action = AiTradeAction.wait_for_entry;
  reason = AiTradeActionReason.pending_entry_plan_ready;
  order_intent = some OrderIntent.pending;
}

abbrev enter_now_result : AiActionResult
enter_now_result = record {
  action = AiTradeAction.enter_now;
  reason = AiTradeActionReason.market_entry_ready;
  order_intent = some OrderIntent.market;
}

-- `computeAiTradeAction`
unfoldable pub compute_ai_trade_action : AiActionPolicyInput → AiActionResult
compute_ai_trade_action i =
    if is_wait i.decision || is_no_entry i.entry_type
    then no_execution_for AiTradeActionReason.no_valid_entry
    else if is_pending_entry i.entry_type
    then wait_for_entry_result
    else if is_market_now i.entry_type
    then (if not (is_open i.market_status)
        then no_execution_for AiTradeActionReason.market_closed
        else if not (is_live i.data_status)
        then no_execution_for AiTradeActionReason.stale_quote
        else enter_now_result)
    else no_execution_for AiTradeActionReason.contradictory_plan
