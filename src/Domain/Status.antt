-- ===== src/Domain/Status.antt =====
-- The enumerations of apps/api/src/db/types.ts.
use mt5_ai_trading.Prelude.{ℕ, Bool, false, ◌&&◌, ◌==◌}

pub data AssetClass : Type 0 where
  stock crypto : AssetClass

pub data Side : Type 0 where
  buy sell : Side

pub data OrderType : Type 0 where
  market limit : OrderType

pub data RiskResult : Type 0 where
  pass reject : RiskResult

pub data RiskCheckStage : Type 0 where
  pre_proposal pre_execution : RiskCheckStage

pub data ProposalStatus : Type 0 where
  risk_checking risk_rejected pending_approval owner_rejected : ProposalStatus
  expired approved revalidating risk_rejected_after_approval : ProposalStatus
  submitting submitted partially_filled filled : ProposalStatus
  cancel_pending cancelled execution_rejected execution_error : ProposalStatus

pub data ExecutionStatus : Type 0 where
  created submitted partially_filled filled cancelled rejected error : ExecutionStatus

pub data OrderStatus : Type 0 where
  pending submitted partially_filled filled cancelled rejected error : OrderStatus

-- `Order['exitReason']` without its null
pub data ExitReason : Type 0 where
  take_profit stop_loss manual other max_holding_time end_of_day : ExitReason

pub data Leg : Type 0 where
  take_profit stop_loss : Leg

pub data FillType : Type 0 where
  full partial : FillType

-- `===` on statuses compares their place in the enumeration.
abbrev pub status_index : ProposalStatus → ℕ
status_index ProposalStatus.risk_checking = 0
status_index ProposalStatus.risk_rejected = 1
status_index ProposalStatus.pending_approval = 2
status_index ProposalStatus.owner_rejected = 3
status_index ProposalStatus.expired = 4
status_index ProposalStatus.approved = 5
status_index ProposalStatus.revalidating = 6
status_index ProposalStatus.risk_rejected_after_approval = 7
status_index ProposalStatus.submitting = 8
status_index ProposalStatus.submitted = 9
status_index ProposalStatus.partially_filled = 10
status_index ProposalStatus.filled = 11
status_index ProposalStatus.cancel_pending = 12
status_index ProposalStatus.cancelled = 13
status_index ProposalStatus.execution_rejected = 14
status_index ProposalStatus.execution_error = 15

abbrev pub same_status : ProposalStatus → ProposalStatus → Bool
same_status a b = status_index a == status_index b

-- The template literals `proposal:…:attempt:1`, `intraday-exit:…` and `hourly-exit:…`.
pub data RequestKey : Type 0 where
  proposal_attempt : ℕ → RequestKey
  intraday_exit hourly_exit : ℕ → ExitReason → RequestKey

abbrev exit_index : ExitReason → ℕ
exit_index ExitReason.take_profit = 0
exit_index ExitReason.stop_loss = 1
exit_index ExitReason.manual = 2
exit_index ExitReason.other = 3
exit_index ExitReason.max_holding_time = 4
exit_index ExitReason.end_of_day = 5

abbrev pub same_key : RequestKey → RequestKey → Bool
same_key (proposal_attempt p) (proposal_attempt q) = p == q
same_key (intraday_exit p r) (intraday_exit q s) = p == q && exit_index r == exit_index s
same_key (hourly_exit p r) (hourly_exit q s) = p == q && exit_index r == exit_index s
same_key _ _ = false
