-- ===== src/Execution/Submit/Guards.antt =====
-- The guards of `executeApprovedProposal`: executions that end the call, the expiry, the status, the
-- mode and the kill switch.
use mt5_ai_trading.Prelude.{
  ℕ, Bool, not, ◌&&◌, ◌||◌, Option, none, some, is_some, leb, if◌then◌else◌,
}
use mt5_ai_trading.Numeric.{Decimal}
use mt5_ai_trading.Domain.{TradeProposal, ProposalStatus, Execution, same_status}
use mt5_ai_trading.Lifecycle.{assert_valid_proposal_transition}
use mt5_ai_trading.Store.{
  Action, invalid_transition, proposal_expired, pure, throw, gets, throw_if, ◌>>=◌, ◌>>◌,
  find_order_by_execution, update_proposal_status, no_times,
}
use mt5_ai_trading.Execution.Messages.{is_error}
use mt5_ai_trading.Execution.Records.{assert_paper_execution_allowed}

abbrev pub may_submit : ProposalStatus → Bool
may_submit s = same_status s ProposalStatus.approved || same_status s ProposalStatus.execution_error

module _ {D : Decimal} where
  -- An execution that ends the call: not in ERROR, or with an order of its own.
  unfoldable pub find_settled : Option Execution → Action D (Option Execution)
  find_settled none = pure none
  find_settled (some e) = do
    order ← find_order_by_execution e.id
    pure (if not (is_error e.status) || is_some order then some e else none)

  abbrev pub expire_proposal : TradeProposal D → Action D (Unit {0})
  expire_proposal proposal = do
    assert_valid_proposal_transition proposal.status ProposalStatus.expired
    expired ← update_proposal_status proposal.id ProposalStatus.expired no_times
    throw (proposal_expired expired)

  abbrev pub is_expired : ℕ → TradeProposal D → Bool
  is_expired now p =
      leb p.expires_at now && not (same_status p.status ProposalStatus.execution_error)

  unfoldable pub reject_expired : TradeProposal D → Action D (Unit {0})
  reject_expired proposal = do
    now ← gets (λ w. w.now)
    if is_expired now proposal then expire_proposal proposal else pure tt

  -- The guards that follow the one on the expiry.
  abbrev pub after_expiry : TradeProposal D → Action D (Unit {0})
  after_expiry proposal = do
    throw_if (not (may_submit proposal.status))
        (invalid_transition proposal.status ProposalStatus.submitting)
    assert_paper_execution_allowed

  -- The guards of a submission.
  unfoldable pub check_submission : TradeProposal D → Action D (Unit {0})
  check_submission proposal = do reject_expired proposal; after_expiry proposal
