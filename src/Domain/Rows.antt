-- ===== src/Domain/Rows.antt =====
-- The row types of apps/api/src/db/types.ts. Of the JSON column `risk_snapshot` the model keeps the
-- fields that the services read; of `bracket_order_ids` the keys that they write.
use mt5_ai_trading.Prelude.{ℕ, Bool, Option, List, String}
use mt5_ai_trading.Numeric.{Decimal}
use mt5_ai_trading.Domain.Status.{
  AssetClass, Side, OrderType, RiskResult, RiskCheckStage, ProposalStatus, ExecutionStatus,
  OrderStatus, ExitReason, Leg, FillType, RequestKey,
}

-- One phase of `riskSnapshot`: `stop_loss` and `take_profit` are there when the JSON value is a
-- string, `fee_bps`, `max_holding` and `force_close_enabled` when it is a number or a Boolean.
pub record PhaseSnapshot (D : Decimal) : Type 0 where
  pub is_bracket : Bool
  pub stop_loss : Option D.Text
  pub take_profit : Option D.Text
  pub fee_bps : Option ℕ
  pub max_holding : Option ℕ
  pub force_close_enabled : Option Bool

pub record RiskSnapshot (D : Decimal) : Type 0 where
  pub phase22 : Option (PhaseSnapshot D)
  pub phase25 : Option (PhaseSnapshot D)
  pub phase26 : Option (PhaseSnapshot D)
  pub phase27 : Option (PhaseSnapshot D)

pub record TradeProposal (D : Decimal) : Type 0 where
  pub id : ℕ
  pub signal_id : ℕ
  pub strategy_id : ℕ
  pub symbol : String
  pub asset_class : AssetClass
  pub side : Side
  pub quantity : D.Text
  pub order_type : OrderType
  pub reference_price : D.Text
  pub limit_price : Option D.Text
  pub estimated_notional : D.Text
  pub risk_check_id : Option ℕ
  pub risk_snapshot : RiskSnapshot D
  pub status : ProposalStatus
  pub created_at : ℕ
  pub pending_approval_at : Option ℕ
  pub expires_at : ℕ
  pub approved_at : Option ℕ
  pub rejected_at : Option ℕ
  pub filled_at : Option ℕ
  pub updated_at : ℕ

pub data ApprovalAction : Type 0 where
  approve reject : ApprovalAction

pub record TradeApproval : Type 0 where
  pub id : ℕ
  pub proposal_id : ℕ
  pub approved_by : ℕ
  pub action : ApprovalAction
  pub reason : Option String
  pub request_id : ℕ
  pub created_at : ℕ

pub record RiskCheck : Type 0 where
  pub id : ℕ
  pub signal_id : Option ℕ
  pub proposal_id : Option ℕ
  pub stage : RiskCheckStage
  pub result : RiskResult
  pub rules_checked : List String
  pub failed_rules : List String
  pub reason : Option String
  pub created_at : ℕ

pub record Execution : Type 0 where
  pub id : ℕ
  pub proposal_id : ℕ
  pub idempotency_key : RequestKey
  pub broker_order_id : Option ℕ
  pub status : ExecutionStatus
  pub attempt_number : ℕ
  pub error_message : Option String
  pub created_at : ℕ
  pub submitted_at : Option ℕ
  pub completed_at : Option ℕ
  pub updated_at : ℕ

-- The keys of `bracketOrderIds`; a key that is missing and a null are both `none`.
pub record BracketIds : Type 0 where
  pub parent : Option ℕ
  pub take_profit : Option ℕ
  pub stop_loss : Option ℕ
  pub cancelled_leg : Option Leg
  pub filled_leg : Option Leg
  pub cancelled_take_profit : Option ℕ
  pub cancelled_stop_loss : Option ℕ

pub record Order (D : Decimal) : Type 0 where
  pub id : ℕ
  pub execution_id : ℕ
  pub broker_order_id : Option ℕ
  pub symbol : String
  pub asset_class : AssetClass
  pub side : Side
  pub quantity : D.Text
  pub order_type : OrderType
  pub limit_price : Option D.Text
  pub status : OrderStatus
  pub filled_quantity : D.Text
  pub average_fill_price : Option D.Text
  pub bracket_order_ids : BracketIds
  pub exit_reason : Option ExitReason
  pub created_at : ℕ
  pub updated_at : ℕ

pub record Fill (D : Decimal) : Type 0 where
  pub id : ℕ
  pub order_id : ℕ
  pub quantity : D.Text
  pub price : D.Text
  pub fee : D.Text
  pub fill_type : FillType
  pub broker_fill_id : Option ℕ
  pub filled_at : ℕ

pub record Position (D : Decimal) : Type 0 where
  pub id : ℕ
  pub symbol : String
  pub asset_class : AssetClass
  pub quantity : D.Text
  pub average_entry_price : Option D.Text
  pub realized_pnl : D.Text
  pub unrealized_pnl : D.Text
  pub last_price : Option D.Text
  pub last_price_at : Option ℕ
  pub created_at : ℕ
  pub updated_at : ℕ

pub record PortfolioSnapshot (D : Decimal) : Type 0 where
  pub id : ℕ
  pub cash_balance : D.Text
  pub portfolio_equity : D.Text
  pub open_positions : List (Position D)
  pub realized_pnl : D.Text
  pub unrealized_pnl : D.Text
  pub daily_pnl : D.Text
  pub snapshot_reason : String
  pub created_at : ℕ
