-- ===== src/Lifecycle.antt =====
-- The proposal state machine, apps/api/src/services/proposal-state-machine.ts.
pub mod Graph
pub mod Expiry
mod Tests
use mt5_ai_trading.Prelude.{Bool, false, not, Option, none, some, List, [], ◌∷◌, any}
use mt5_ai_trading.Numeric.{Decimal}
use mt5_ai_trading.Domain.{ProposalStatus, same_status}
use mt5_ai_trading.Store.{Action, invalid_transition, throw_if}

-- `ALLOWED_TRANSITIONS`; a status with no entry is `none`.
abbrev pub allowed_transitions : ProposalStatus → Option (List ProposalStatus)
allowed_transitions ProposalStatus.risk_checking = some (
    ProposalStatus.risk_rejected ∷ ProposalStatus.pending_approval ∷ ProposalStatus.expired
    ∷ ProposalStatus.cancelled ∷ [])
allowed_transitions ProposalStatus.pending_approval = some (
    ProposalStatus.approved ∷ ProposalStatus.owner_rejected ∷ ProposalStatus.expired
    ∷ ProposalStatus.cancelled ∷ [])
allowed_transitions ProposalStatus.approved =
    some (ProposalStatus.revalidating ∷ ProposalStatus.submitting ∷ ProposalStatus.expired ∷ [])
allowed_transitions ProposalStatus.revalidating = some (
    ProposalStatus.risk_rejected_after_approval ∷ ProposalStatus.submitting ∷ ProposalStatus.expired
    ∷ [])
allowed_transitions ProposalStatus.submitting =
    some (ProposalStatus.submitted ∷ ProposalStatus.execution_error ∷ [])
allowed_transitions ProposalStatus.submitted = some (
    ProposalStatus.partially_filled ∷ ProposalStatus.filled ∷ ProposalStatus.execution_rejected
    ∷ ProposalStatus.execution_error ∷ ProposalStatus.cancel_pending ∷ [])
allowed_transitions ProposalStatus.partially_filled =
    some
      (ProposalStatus.filled ∷ ProposalStatus.cancel_pending ∷ ProposalStatus.execution_error ∷ [])
allowed_transitions ProposalStatus.cancel_pending =
    some (ProposalStatus.cancelled ∷ ProposalStatus.filled ∷ [])
allowed_transitions ProposalStatus.execution_error =
    some (ProposalStatus.submitting ∷ ProposalStatus.cancelled ∷ [])
allowed_transitions _ = none

abbrev includes : Option (List ProposalStatus) → ProposalStatus → Bool
includes none to = false
includes (some l) to = any (same_status to) l

-- `ALLOWED_TRANSITIONS.get(from)?.includes(to)`
unfoldable pub is_allowed : ProposalStatus → ProposalStatus → Bool
is_allowed from to = includes (allowed_transitions from) to

module _ {D : Decimal} where
  -- `assertValidProposalTransition`
  unfoldable pub assert_valid_proposal_transition :
      ProposalStatus → ProposalStatus → Action D (Unit {0})
  unfolding is_allowed
  assert_valid_proposal_transition from to =
      throw_if (not (is_allowed from to)) (invalid_transition from to)
