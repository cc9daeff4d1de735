-- ===== src/Lifecycle/Graph.antt =====
-- The graph of the proposal statuses: the step relation of `is_allowed`, its trails, and a rank.
use mt5_ai_trading.Prelude.{
  ℕ, suc, ◌+◌, ◌*◌, ◌≤◌, ◌≡◌, refl, ◌⊎◌, inl, inr, Bool, true, false, ◌&&◌, List, [], ◌∷◌, arith,
  length,
}
use mt5_ai_trading.Domain.{ProposalStatus, same_status}
use mt5_ai_trading.Lifecycle.{is_allowed}

-- A trail from a status through the listed ones; the last of them is where it ends.
abbrev pub IsTrail : ProposalStatus → List ProposalStatus → Type 0
IsTrail s [] = Unit
IsTrail s (t ∷ ts) = (is_allowed s t ≡ true) × IsTrail t ts

abbrev pub last_of : ProposalStatus → List ProposalStatus → ProposalStatus
last_of s [] = s
last_of s (t ∷ ts) = last_of t ts

-- The steps of a trail that take a failed submission up again.
abbrev retry : ProposalStatus → ProposalStatus → ℕ
retry ProposalStatus.execution_error ProposalStatus.submitting = 1
retry _ _ = 0

abbrev pub retries : ProposalStatus → List ProposalStatus → ℕ
retries s [] = 0
retries s (t ∷ ts) = retry s t + retries t ts

abbrev pub rank : ProposalStatus → ℕ
rank ProposalStatus.risk_checking = 9
rank ProposalStatus.pending_approval = 8
rank ProposalStatus.approved = 7
rank ProposalStatus.revalidating = 6
rank ProposalStatus.submitting = 5
rank ProposalStatus.submitted = 4
rank ProposalStatus.partially_filled = 3
rank ProposalStatus.cancel_pending = 2
rank ProposalStatus.execution_error = 1
rank _ = 0

rank_step : (s t : ProposalStatus) → is_allowed s t ≡ true → rank t + 1 ≤ rank s + 5 * retry s t
unfolding is_allowed
rank_step s t h = ground arith

-- A trail of allowed transitions is no longer than the rank of its first status, and five steps more
-- for each time that it goes from EXECUTION_ERROR back to SUBMITTING.
pub trail_bounded :
    (s : ProposalStatus) (ts : List ProposalStatus)
    → IsTrail s ts
    → length ts ≤ rank s + 5 * retries s ts
trail_bounded s [] h = omega arith
trail_bounded s (t ∷ ts) h = omega (arith, rank_step s t h.0, trail_bounded t ts h.1)

-- The statuses that a proposal has before the owner's decision takes effect.
abbrev pub is_undecided : ProposalStatus → Bool
is_undecided ProposalStatus.risk_checking = true
is_undecided ProposalStatus.risk_rejected = true
is_undecided ProposalStatus.pending_approval = true
is_undecided ProposalStatus.owner_rejected = true
is_undecided ProposalStatus.expired = true
is_undecided ProposalStatus.cancelled = true
is_undecided _ = false

abbrev pub is_sent : ProposalStatus → Bool
is_sent ProposalStatus.submitting = true
is_sent ProposalStatus.submitted = true
is_sent ProposalStatus.partially_filled = true
is_sent ProposalStatus.filled = true
is_sent ProposalStatus.cancel_pending = true
is_sent ProposalStatus.execution_rejected = true
is_sent ProposalStatus.execution_error = true
is_sent _ = false

abbrev pub visits : ProposalStatus → List ProposalStatus → Bool
visits s ts = mt5_ai_trading.Prelude.any (same_status s) ts

undecided_step :
    (s t : ProposalStatus)
    → is_undecided s ≡ true
    → is_allowed s t ≡ true
    → (t ≡ ProposalStatus.approved) ⊎ (is_undecided t ≡ true)
unfolding is_allowed
undecided_step s t u h = ground arith

-- From a status before the owner's decision, every trail that ends in a status of the submission
-- (SUBMITTING, SUBMITTED, PARTIALLY_FILLED, FILLED, CANCEL_PENDING, EXECUTION_REJECTED,
-- EXECUTION_ERROR) visits APPROVED.
pub sent_needs_approval :
    (s : ProposalStatus) (ts : List ProposalStatus)
    → is_undecided s ≡ true
    → IsTrail s ts
    → is_sent (last_of s ts) ≡ true
    → visits ProposalStatus.approved ts ≡ true
sent_needs_approval s [] u h e = ground arith
sent_needs_approval s (t ∷ ts) u h e = elim (undecided_step s t u h.0) [
  | inl now_approved ↦ ground arith
  | inr still ↦ ground (arith, sent_needs_approval t ts still h.1 e)
]

-- The statuses that end a proposal's life.
abbrev pub is_terminal : ProposalStatus → Bool
is_terminal ProposalStatus.risk_rejected = true
is_terminal ProposalStatus.owner_rejected = true
is_terminal ProposalStatus.expired = true
is_terminal ProposalStatus.risk_rejected_after_approval = true
is_terminal ProposalStatus.filled = true
is_terminal ProposalStatus.cancelled = true
is_terminal ProposalStatus.execution_rejected = true
is_terminal _ = false

-- A way out of each status that is not terminal.
abbrev pub way_out : ProposalStatus → List ProposalStatus
way_out ProposalStatus.risk_checking = ProposalStatus.risk_rejected ∷ []
way_out ProposalStatus.pending_approval = ProposalStatus.owner_rejected ∷ []
way_out ProposalStatus.approved = ProposalStatus.expired ∷ []
way_out ProposalStatus.revalidating = ProposalStatus.expired ∷ []
way_out ProposalStatus.submitting =
    ProposalStatus.submitted ∷ ProposalStatus.execution_rejected ∷ []
way_out ProposalStatus.submitted = ProposalStatus.execution_rejected ∷ []
way_out ProposalStatus.partially_filled = ProposalStatus.filled ∷ []
way_out ProposalStatus.cancel_pending = ProposalStatus.cancelled ∷ []
way_out ProposalStatus.execution_error = ProposalStatus.cancelled ∷ []
way_out _ = []

-- No transition leaves RISK_REJECTED, OWNER_REJECTED, EXPIRED, RISK_REJECTED_AFTER_APPROVAL, FILLED,
-- CANCELLED or EXECUTION_REJECTED, and from every other status one of these can be reached.
pub terminal_reachable :
    (s t : ProposalStatus)
    → ((is_terminal s && is_allowed s t) ≡ false)
      × IsTrail s (way_out s)
      × (is_terminal (last_of s (way_out s)) ≡ true)
unfolding is_allowed
terminal_reachable s t = (ground arith, ground arith, ground arith)
