-- ===== src/Approval/Cancel.antt =====
-- `cancelProposal` of apps/api/src/services/trade-proposal-service.ts.
use mt5_ai_trading.Prelude.{ℕ, Bool, ◌&&◌, some, if◌then◌else◌}
use mt5_ai_trading.Numeric.{Decimal}
use mt5_ai_trading.Domain.{TradeProposal, ProposalStatus, same_status}
use mt5_ai_trading.Lifecycle.{assert_valid_proposal_transition}
use mt5_ai_trading.Store.{
  Action, not_found, whole, pure, gets, or_throw, with_transaction, ◌>>=◌, ◌>>◌,
  find_proposal_by_id_for_update, update_proposal_status, no_times, create_audit_log,
}
use mt5_ai_trading.Execution.Records.{ActorContext, audit}
use mt5_ai_trading.Execution.Submit.{expire_proposal}
use mt5_ai_trading.Approval.Decide.{is_late}

module _ {D : Decimal} where
  abbrev pub is_late_pending : ℕ → TradeProposal D → Bool
  is_late_pending now p = is_late now p && same_status p.status ProposalStatus.pending_approval

  unfoldable pub reject_late_pending : TradeProposal D → Action D (Unit {0})
  reject_late_pending p = do
    now ← gets (λ w. w.now)
    if is_late_pending now p then expire_proposal p else pure tt

  unfoldable pub cancel_in_time : ActorContext → TradeProposal D → Action D (TradeProposal D)
  cancel_in_time actor p = do
    assert_valid_proposal_transition p.status ProposalStatus.cancelled
    cancelled ← update_proposal_status p.id ProposalStatus.cancelled no_times
    create_audit_log (
        audit actor "TRADE_PROPOSAL_CANCELLED" cancelled.id "CANCEL_TRADE_PROPOSAL" (some (whole p))
          (some (whole cancelled)))
    pure cancelled

  abbrev pub cancel_found : ActorContext → TradeProposal D → Action D (TradeProposal D)
  cancel_found actor p = reject_late_pending p >> cancel_in_time actor p

  unfoldable pub cancel_body : ℕ → ActorContext → Action D (TradeProposal D)
  cancel_body id actor = do
    found ← find_proposal_by_id_for_update id
    proposal ← or_throw found (not_found "Trade proposal not found")
    cancel_found actor proposal

  -- `cancelProposal`
  unfoldable pub cancel_proposal : ℕ → ActorContext → Action D (TradeProposal D)
  unfolding cancel_body with_transaction
  cancel_proposal id actor = with_transaction (cancel_body id actor)
