-- ===== src/Execution/Messages.antt =====
-- What apps/api/src/services/trade-execution-service.ts sends to the broker and reads from its
-- answer: keys, brackets, crypto fields, and the statuses that follow from a result.
use Prim.Native.String.{◌++◌ as str_append}
use mt5_ai_trading.Prelude.{Bool, true, false, Option, none, some, String, coalesce}
use mt5_ai_trading.Numeric.{Decimal}
use mt5_ai_trading.Domain.{
  AssetClass, Side, ProposalStatus, ExecutionStatus, OrderStatus, ExitReason, TradeProposal,
  PhaseSnapshot, Bracket, CryptoFields, OrderRequest, proposal_attempt,
}
use mt5_ai_trading.Store.{ProposalView}

abbrev pub execution_status_from_broker : OrderStatus → ExecutionStatus
execution_status_from_broker OrderStatus.filled = ExecutionStatus.filled
execution_status_from_broker OrderStatus.partially_filled = ExecutionStatus.partially_filled
execution_status_from_broker OrderStatus.rejected = ExecutionStatus.rejected
execution_status_from_broker OrderStatus.error = ExecutionStatus.error
execution_status_from_broker OrderStatus.cancelled = ExecutionStatus.cancelled
execution_status_from_broker _ = ExecutionStatus.submitted

abbrev pub proposal_status_from_broker : OrderStatus → ProposalStatus
proposal_status_from_broker OrderStatus.filled = ProposalStatus.filled
proposal_status_from_broker OrderStatus.partially_filled = ProposalStatus.partially_filled
proposal_status_from_broker OrderStatus.rejected = ProposalStatus.execution_rejected
proposal_status_from_broker OrderStatus.error = ProposalStatus.execution_error
proposal_status_from_broker OrderStatus.cancelled = ProposalStatus.cancelled
proposal_status_from_broker _ = ProposalStatus.submitted

-- `['FILLED', 'REJECTED', 'ERROR', 'CANCELLED'].includes(executionStatus)`
abbrev pub is_complete : ExecutionStatus → Bool
is_complete ExecutionStatus.filled = true
is_complete ExecutionStatus.rejected = true
is_complete ExecutionStatus.error = true
is_complete ExecutionStatus.cancelled = true
is_complete _ = false

abbrev pub is_error : ExecutionStatus → Bool
is_error ExecutionStatus.error = true
is_error _ = false

abbrev status_text : ProposalStatus → String
status_text ProposalStatus.risk_checking = "RISK_CHECKING"
status_text ProposalStatus.risk_rejected = "RISK_REJECTED"
status_text ProposalStatus.pending_approval = "PENDING_APPROVAL"
status_text ProposalStatus.owner_rejected = "OWNER_REJECTED"
status_text ProposalStatus.expired = "EXPIRED"
status_text ProposalStatus.approved = "APPROVED"
status_text ProposalStatus.revalidating = "REVALIDATING"
status_text ProposalStatus.risk_rejected_after_approval = "RISK_REJECTED_AFTER_APPROVAL"
status_text ProposalStatus.submitting = "SUBMITTING"
status_text ProposalStatus.submitted = "SUBMITTED"
status_text ProposalStatus.partially_filled = "PARTIALLY_FILLED"
status_text ProposalStatus.filled = "FILLED"
status_text ProposalStatus.cancel_pending = "CANCEL_PENDING"
status_text ProposalStatus.cancelled = "CANCELLED"
status_text ProposalStatus.execution_rejected = "EXECUTION_REJECTED"
status_text ProposalStatus.execution_error = "EXECUTION_ERROR"

unfoldable pub execution_reason : ProposalStatus → String
execution_reason s = str_append "TRADE_EXECUTION_" (status_text s)

abbrev exit_text : ExitReason → String
exit_text ExitReason.take_profit = "TAKE_PROFIT"
exit_text ExitReason.stop_loss = "STOP_LOSS"
exit_text ExitReason.manual = "MANUAL"
exit_text ExitReason.other = "OTHER"
exit_text ExitReason.max_holding_time = "MAX_HOLDING_TIME"
exit_text ExitReason.end_of_day = "END_OF_DAY"

unfoldable pub with_exit_text : String → ExitReason → String
with_exit_text s r = str_append s (exit_text r)

module _ {D : Decimal} where
  abbrev pub proposal_snapshot : TradeProposal D → ProposalView D
  proposal_snapshot p = record {
    id = p.id;
    status = p.status;
    symbol = p.symbol;
    side = p.side;
    quantity = p.quantity;
    order_type = p.order_type;
    limit_price = p.limit_price;
  }

  abbrev bracket_of : Bool → Option D.Text → Option D.Text → Option (Bracket D)
  bracket_of true (some s) (some t) = some (record { stop_loss_price = s; take_profit_price = t })
  bracket_of _ _ _ = none

  abbrev advanced_bracket : Side → Option (PhaseSnapshot D) → Option (Bracket D)
  advanced_bracket Side.buy (some a) = bracket_of a.is_bracket a.stop_loss a.take_profit
  advanced_bracket _ _ = none

  abbrev advanced : TradeProposal D → Option (PhaseSnapshot D)
  advanced p =
      coalesce p.risk_snapshot.phase27 (
        coalesce p.risk_snapshot.phase25 (coalesce p.risk_snapshot.phase26 p.risk_snapshot.phase22))

  unfoldable pub bracket_from_proposal : TradeProposal D → Option (Bracket D)
  bracket_from_proposal p = advanced_bracket p.side (advanced p)

  abbrev fee_of : Option (PhaseSnapshot D) → CryptoFields
  fee_of none = record { fractionable = true; fee_bps = none }
  fee_of (some a) = record { fractionable = true; fee_bps = a.fee_bps }

  abbrev crypto_fields : AssetClass → Option (PhaseSnapshot D) → Option CryptoFields
  crypto_fields AssetClass.stock a = none
  crypto_fields AssetClass.crypto a = some (fee_of a)

  unfoldable pub crypto_order_fields : TradeProposal D → Option CryptoFields
  crypto_order_fields p = crypto_fields p.asset_class p.risk_snapshot.phase26

  -- The request of `executeApprovedProposal`
  unfoldable pub entry_request : TradeProposal D → OrderRequest D
  entry_request p = record {
    idempotency_key = proposal_attempt p.id;
    symbol = p.symbol;
    side = p.side;
    quantity = p.quantity;
    order_type = p.order_type;
    limit_price = p.limit_price;
    bracket = bracket_from_proposal p;
    crypto = crypto_order_fields p;
  }
