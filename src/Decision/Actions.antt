-- ===== src/Decision/Actions.antt =====
-- When the decision policy grants which action.
use mt5_ai_trading.Prelude.{
  ◌≡◌, Bool, true, false, not, ◌&&◌, Option, none, some, arith, if◌then◌else◌,
}
use mt5_ai_trading.Decision.{
  AiTradeAction, AiTradeActionReason, OrderIntent, AiActionPolicyInput, is_wait, is_pending_entry,
  is_market_now, is_open, is_live, compute_ai_trade_action,
}

-- A market order now needs a decision to trade, an open market and a live quote; a pending order
-- needs only the decision.
abbrev pub expected_action : AiActionPolicyInput → AiTradeAction
expected_action i =
    if not (is_wait i.decision)
      && is_market_now i.entry_type
      && is_open i.market_status
      && is_live i.data_status
    then AiTradeAction.enter_now
    else if not (is_wait i.decision) && is_pending_entry i.entry_type
    then AiTradeAction.wait_for_entry
    else AiTradeAction.no_execution

abbrev pub intent_of : AiTradeAction → Option OrderIntent
intent_of AiTradeAction.enter_now = some OrderIntent.market
intent_of AiTradeAction.wait_for_entry = some OrderIntent.pending
intent_of AiTradeAction.no_execution = none

abbrev pub is_contradictory : AiTradeActionReason → Bool
is_contradictory AiTradeActionReason.contradictory_plan = true
is_contradictory _ = false

-- `computeAiTradeAction` answers ENTER_NOW exactly for a BUY or SELL with entry type MARKET_NOW while
-- the market is OPEN and the quote LIVE, WAIT_FOR_ENTRY exactly for a BUY or SELL with PULLBACK or
-- BREAKOUT, and otherwise NO_EXECUTION; the order intent is that of the action, and the reason is
-- never CONTRADICTORY_PLAN.
pub compute_ai_trade_action_lem :
    (i : AiActionPolicyInput)
    → ((compute_ai_trade_action i).action ≡ expected_action i)
      × ((compute_ai_trade_action i).order_intent ≡ intent_of (compute_ai_trade_action i).action)
      × (is_contradictory (compute_ai_trade_action i).reason ≡ false)
unfolding compute_ai_trade_action
compute_ai_trade_action_lem i = ground arith
