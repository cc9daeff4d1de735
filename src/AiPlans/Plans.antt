-- ===== src/AiPlans/Plans.antt =====
-- The rows of `ai_trade_plans` and `trade_outcomes` that the watcher reads and writes.
use text.Mathlib.Text.{◌==◌ as str_eq}
use mt5_ai_trading.Prelude.{ℕ, Bool, ◌&&◌, ◌==◌, Option, String}
use mt5_ai_trading.Numeric.{Decimal}

pub data PlanStatus : Type 0 where
  ai_plan_created waiting_for_approval pending_order_submitting : PlanStatus
  pending_order_placed pending_order_triggered position_open position_closed : PlanStatus
  plan_expired order_cancelled execution_failed risk_blocked : PlanStatus

abbrev plan_rank : PlanStatus → ℕ
plan_rank PlanStatus.ai_plan_created = 0
plan_rank PlanStatus.waiting_for_approval = 1
plan_rank PlanStatus.pending_order_submitting = 2
plan_rank PlanStatus.pending_order_placed = 3
plan_rank PlanStatus.pending_order_triggered = 4
plan_rank PlanStatus.position_open = 5
plan_rank PlanStatus.position_closed = 6
plan_rank PlanStatus.plan_expired = 7
plan_rank PlanStatus.order_cancelled = 8
plan_rank PlanStatus.execution_failed = 9
plan_rank PlanStatus.risk_blocked = 10

abbrev pub same_plan_status : PlanStatus → PlanStatus → Bool
same_plan_status s t = plan_rank s == plan_rank t

pub data OutcomeExit : Type 0 where
  reconciliation_failed other : OutcomeExit

module _ (D : Decimal) where
  pub record AiTradePlan : Type 0 where
    pub id : String
    pub symbol : String
    pub decision : String
    pub status : PlanStatus
    pub plan_expiry : ℕ
    pub entry_price : Option D.Value
    pub stop_loss : Option D.Value
    pub take_profit : Option D.Value
    pub risk_reward : Option D.Value
    pub final_volume : Option D.Value
    pub max_planned_loss : Option D.Value
    pub mt5_order_ticket : Option String
    pub mt5_position_ticket : Option String
    pub actual_entry : Option D.Value
    pub execution_key : Option String
    pub blocked_reason : Option String
    pub submitting_at : Option ℕ
    pub placed_at : Option ℕ
    pub triggered_at : Option ℕ
    pub cancelled_at : Option ℕ
    pub expired_at : Option ℕ

  pub record TradeOutcome : Type 0 where
    pub symbol : String
    pub ai_trade_plan_id : String
    pub order_ticket : String
    pub side : String
    pub volume : Option D.Value
    pub expected_entry : Option D.Value
    pub actual_entry : Option D.Value
    pub stop_loss : Option D.Value
    pub take_profit : Option D.Value
    pub risk_amount : Option D.Value
    pub risk_reward : Option D.Value
    pub opened_at : ℕ
    pub closed_at : Option ℕ
    pub exit_reason : Option OutcomeExit

  abbrev pub has_plan_id : String → AiTradePlan → Bool
  has_plan_id id p = str_eq p.id id

  -- `WHERE id = … AND status = …`
  abbrev pub is_plan_in : String → PlanStatus → AiTradePlan → Bool
  is_plan_in id s p = has_plan_id id p && same_plan_status p.status s

  abbrev pub is_outcome_of : String → TradeOutcome → Bool
  is_outcome_of id o = str_eq o.ai_trade_plan_id id
