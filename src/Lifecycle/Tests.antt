-- ===== src/Lifecycle/Tests.antt =====
-- Trails of the state machine.
use mt5_ai_trading.Prelude.{◌≡◌, ◌≤◌, ◌+◌, ◌*◌, refl, true, false, ◌&&◌, List, [], ◌∷◌, length}
use mt5_ai_trading.Domain.{ProposalStatus}
use mt5_ai_trading.Lifecycle.{is_allowed}
use mt5_ai_trading.Numeric.Whole.{whole_numbers}
use mt5_ai_trading.Store.{World, expire_open_proposals}
use mt5_ai_trading.Lifecycle.Expiry.{Follows, IsCurrent, expire_open_proposals_lem}
use mt5_ai_trading.Examples.{world_at}
use mt5_ai_trading.Prelude.{All}
use mt5_ai_trading.Lifecycle.Graph.{
  IsTrail, last_of, rank, retries, visits, is_terminal, way_out, trail_bounded, sent_needs_approval,
  terminal_reachable,
}

abbrev approval_trail : List ProposalStatus
approval_trail =
    ProposalStatus.approved ∷ ProposalStatus.submitting ∷ ProposalStatus.submitted
    ∷ ProposalStatus.filled ∷ []

approval_trail-IsTrail : IsTrail ProposalStatus.pending_approval approval_trail
unfolding is_allowed
approval_trail-IsTrail = (refl, (refl, (refl, (refl, tt))))

trail_bounded_example :
    length approval_trail
    ≤ rank ProposalStatus.pending_approval
      + 5 * retries ProposalStatus.pending_approval approval_trail
trail_bounded_example =
    trail_bounded ProposalStatus.pending_approval approval_trail approval_trail-IsTrail

sent_needs_approval_example : visits ProposalStatus.approved approval_trail ≡ true
sent_needs_approval_example =
    sent_needs_approval ProposalStatus.pending_approval approval_trail refl approval_trail-IsTrail
      refl

terminal_reachable_example :
    ((is_terminal ProposalStatus.submitted
        && is_allowed ProposalStatus.submitted ProposalStatus.filled)
      ≡ false)
    × IsTrail ProposalStatus.submitted (way_out ProposalStatus.submitted)
    × (is_terminal (last_of ProposalStatus.submitted (way_out ProposalStatus.submitted)) ≡ true)
terminal_reachable_example = terminal_reachable ProposalStatus.submitted ProposalStatus.filled

abbrev overdue_world : World whole_numbers
overdue_world = world_at 100 ProposalStatus.approved []

expire_open_proposals_example :
    All (IsCurrent 100) (expire_open_proposals overdue_world).1.db.proposals
    × Follows overdue_world.db.proposals (expire_open_proposals overdue_world).1.db.proposals
expire_open_proposals_example = expire_open_proposals_lem overdue_world
