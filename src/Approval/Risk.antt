-- ===== src/Approval/Risk.antt =====
-- What `approveProposal` asks about the risk, and what it makes of the answers, in
-- apps/api/src/services/trade-proposal-service.ts. The phase controls, which read tables and ask the
-- trading engine, are a parameter, and so is the engine's verdict.
use Prim.Native.String.{◌++◌ as str_append}
use text.Mathlib.Text.{◌==◌ as str_eq}
use mt5_ai_trading.Prelude.{
  Bool, true, false, ◌&&◌, ◌||◌, Option, none, some, List, ◌++◌, String, any, is_some, or_default,
  if◌then◌else◌,
}
use mt5_ai_trading.Numeric.{Decimal}
use mt5_ai_trading.Domain.{TradeProposal, RiskResult, MarketSnapshot, PaperPortfolio}
use mt5_ai_trading.Store.{
  World, Action, Engine, Reply, Result, BrokerCall, AuditLog, not_found, kill_switch_disabled, pure,
  gets, of_reply, or_throw, ◌>>=◌, ◌>>◌, get_trading_kill_switch_enabled,
  set_trading_kill_switch_enabled, create_audit_log,
}
use mt5_ai_trading.Execution.Records.{ActorContext}

pub data Phase : Type 0 where
  phase22 phase25 phase26 phase27 : Phase

-- What the phase controls return, and what the risk engine replies; the latter is also the combined
-- result.
pub record Controls : Type 0 where
  pub passed : Bool
  pub failed_rules : List String
  pub reason : Option String

pub record RiskReply : Type 0 where
  pub result : RiskResult
  pub rules_checked : List String
  pub failed_rules : List String
  pub reason : Option String

-- `getMarketSnapshot`, the phase risk controls and `evaluateRisk`; they change no table.
pub record RiskDesk (D : Decimal) : Type 0 where
  pub market_snapshot : List (BrokerCall D) → String → Reply (Option (MarketSnapshot D))
  pub controls :
      Phase → TradeProposal D → MarketSnapshot D → PaperPortfolio D → World D → Result D Controls
  pub evaluate : TradeProposal D → MarketSnapshot D → PaperPortfolio D → World D → Reply RiskReply

abbrev pub is_pass : RiskResult → Bool
is_pass RiskResult.pass = true
is_pass RiskResult.reject = false

abbrev nonblank : Option String → Option String
nonblank none = none
nonblank (some s) = if str_eq s "" then none else some s

abbrev joined : Option String → Option String → Option String
joined none r = r
joined (some s) none = some s
joined (some s) (some r) = some (str_append s (str_append "; " r))

-- `[a, b].filter(Boolean).join('; ') || null`
unfoldable pub join_reasons : Option String → Option String → Option String
join_reasons a b = joined (nonblank a) (nonblank b)

-- `combinedRiskResult`
unfoldable pub combine : RiskReply → Controls → RiskReply
combine r c = record {
  result = if is_pass r.result && c.passed then RiskResult.pass else RiskResult.reject;
  rules_checked = r.rules_checked;
  failed_rules = r.failed_rules ++ c.failed_rules;
  reason = join_reasons r.reason c.reason;
}

abbrev pub controls_rule : Phase → String
controls_rule Phase.phase22 = "PHASE22_ADVANCED_RISK_CONTROLS"
controls_rule Phase.phase25 = "PHASE25_ADVANCED_RISK_CONTROLS"
controls_rule Phase.phase26 = "PHASE26_ADVANCED_RISK_CONTROLS"
controls_rule Phase.phase27 = "PHASE27_ADVANCED_RISK_CONTROLS"

-- `DAILY_LOSS_RULES.has(rule)`
abbrev pub is_daily_loss_rule : String → Bool
is_daily_loss_rule r = str_eq r "MAX_DAILY_LOSS" || str_eq r "PHASE22_MAX_DAILY_LOSS"

module _ {D : Decimal} where
  abbrev pub phase_of : TradeProposal D → Phase
  phase_of p =
      if is_some p.risk_snapshot.phase27
      then Phase.phase27
      else if is_some p.risk_snapshot.phase25
      then Phase.phase25
      else if is_some p.risk_snapshot.phase26
      then Phase.phase26
      else Phase.phase22

  abbrev pub of_result : {A : Type 0} → Result D A → Action D A
  of_result r w = (r, w)

  abbrev pub judge :
      RiskDesk D → TradeProposal D → MarketSnapshot D → PaperPortfolio D → Action D RiskReply
  judge R p market portfolio = do
    controls ← of_result (← gets (R.controls (phase_of p) p market portfolio))
    reply ← of_reply (← gets (R.evaluate p market portfolio))
    pure (combine reply controls)

  abbrev pub judge_market :
      RiskDesk D
      → Engine D
      → TradeProposal D
      → List (BrokerCall D)
      → MarketSnapshot D
      → Action D RiskReply
  judge_market R E p calls market = of_reply (E.paper_portfolio calls) >>= judge R p market

  abbrev pub judge_answer :
      RiskDesk D
      → Engine D
      → TradeProposal D
      → List (BrokerCall D)
      → Option (MarketSnapshot D)
      → Action D RiskReply
  judge_answer R E p calls answer =
      or_throw answer (not_found (str_append "Symbol not found: " p.symbol))
      >>= judge_market R E p calls

  -- The questions, in the order of the code.
  unfoldable pub assess : RiskDesk D → Engine D → TradeProposal D → Action D RiskReply
  assess R E p = do
    calls ← gets (λ w. w.calls)
    answer ← of_reply (R.market_snapshot calls p.symbol)
    judge_answer R E p calls answer

  abbrev kill_switch_log : ActorContext → List String → AuditLog D
  kill_switch_log actor failed = record {
    event_type = "KILL_SWITCH_AUTO_DISABLED_DAILY_LOSS";
    actor_id = actor.actor_id;
    actor_email = actor.actor_email;
    entity_type = "system_setting";
    entity_id = none;
    action = "AUTO_DISABLE_KILL_SWITCH";
    before_data = none;
    after_data = some (kill_switch_disabled failed);
    request_id = actor.request_id;
  }

  abbrev pub disable_kill_switch : ActorContext → List String → Action D (Unit {0})
  disable_kill_switch actor failed = do
    set_trading_kill_switch_enabled false
    create_audit_log (kill_switch_log actor failed)

  abbrev pub disable_if_enabled : ActorContext → List String → Option Bool → Action D (Unit {0})
  disable_if_enabled actor failed enabled =
      if or_default enabled true then disable_kill_switch actor failed else pure tt

  -- `maybeAutoDisableKillSwitchOnDailyLoss`
  unfoldable pub maybe_auto_disable_kill_switch : ActorContext → List String → Action D (Unit {0})
  maybe_auto_disable_kill_switch actor failed =
      if any is_daily_loss_rule failed
      then get_trading_kill_switch_enabled >>= disable_if_enabled actor failed
      else pure tt
