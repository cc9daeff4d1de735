-- ===== src/Lifecycle/Expiry.antt =====
-- `expireOpenProposals` of apps/api/src/db/repositories/trade-proposals.ts against the state machine.
use mt5_ai_trading.Prelude.{
  ℕ, ◌≡◌, refl, ◌⊎◌, inl, inr, Bool, true, false, List, [], ◌∷◌, arith, All, update_rows,
  if◌then◌else◌, ◌<◌, Bool-cases,
}
use mt5_ai_trading.Numeric.{Decimal}
use mt5_ai_trading.Domain.{TradeProposal, ProposalStatus}
use mt5_ai_trading.Lifecycle.{is_allowed}
use mt5_ai_trading.Store.{
  World, expire_open_proposals, is_overdue, may_expire, set_status, no_times,
}

may_expire-is_allowed :
    (s : ProposalStatus) → may_expire s ≡ true → is_allowed s ProposalStatus.expired ≡ true
unfolding is_allowed
may_expire-is_allowed ProposalStatus.risk_checking h = refl
may_expire-is_allowed ProposalStatus.pending_approval h = refl
may_expire-is_allowed ProposalStatus.approved h = refl
may_expire-is_allowed ProposalStatus.revalidating h = refl
may_expire-is_allowed ProposalStatus.risk_rejected h = ground arith
may_expire-is_allowed ProposalStatus.owner_rejected h = ground arith
may_expire-is_allowed ProposalStatus.expired h = ground arith
may_expire-is_allowed ProposalStatus.risk_rejected_after_approval h = ground arith
may_expire-is_allowed ProposalStatus.submitting h = ground arith
may_expire-is_allowed ProposalStatus.submitted h = ground arith
may_expire-is_allowed ProposalStatus.partially_filled h = ground arith
may_expire-is_allowed ProposalStatus.filled h = ground arith
may_expire-is_allowed ProposalStatus.cancel_pending h = ground arith
may_expire-is_allowed ProposalStatus.cancelled h = ground arith
may_expire-is_allowed ProposalStatus.execution_rejected h = ground arith
may_expire-is_allowed ProposalStatus.execution_error h = ground arith

not-may_expire :
    (s : ProposalStatus) → may_expire s ≡ false → is_allowed s ProposalStatus.expired ≡ false
unfolding is_allowed
not-may_expire s h = ground arith

module _ {D : Decimal} where
  -- Row by row, the second table has the row of the first, or that row after an allowed transition.
  abbrev pub Follows : List (TradeProposal D) → List (TradeProposal D) → Type 0
  Follows [] [] = Unit
  Follows (p ∷ ps) (q ∷ qs) =
      ((q ≡ p) ⊎ ((q.id ≡ p.id) × (is_allowed p.status q.status ≡ true))) × Follows ps qs
  Follows _ _ = ⊥

  abbrev expired : ℕ → TradeProposal D → TradeProposal D
  expired now p = set_status ProposalStatus.expired no_times now p

  overdue_step :
      (now : ℕ) (p : TradeProposal D)
      → is_overdue now p ≡ true
      → is_allowed p.status ProposalStatus.expired ≡ true
  overdue_step now p h = may_expire-is_allowed p.status (ground arith)

  sweep_step :
      (now : ℕ) (p : TradeProposal D) (b : Bool)
      → is_overdue now p ≡ b
      → (let q = if b then expired now p else p in
          (is_overdue now q ≡ false)
          × ((q ≡ p) ⊎ ((q.id ≡ p.id) × (is_allowed p.status q.status ≡ true))))
  sweep_step now p true late = (refl, inr (refl, overdue_step now p late))
  sweep_step now p false fresh = (fresh, inl refl)

  expire_rows :
      (now : ℕ) (l : List (TradeProposal D))
      → All (λ p. is_overdue now p ≡ false) (update_rows (is_overdue now) (expired now) l)
        × Follows l (update_rows (is_overdue now) (expired now) l)
  expire_rows now [] = (tt, tt)
  expire_rows now (p ∷ ps) =
      let (fresh, step) = sweep_step now p (is_overdue now p) refl in
      let (rest, steps) = expire_rows now ps in ((fresh, rest), (step, steps))

  -- The proposal is not past its expiry, or the state machine lets it not expire.
  abbrev pub IsCurrent : ℕ → TradeProposal D → Type 0
  IsCurrent now p = (now < p.expires_at) ⊎ (is_allowed p.status ProposalStatus.expired ≡ false)

  fresh-IsCurrent : (now : ℕ) (p : TradeProposal D) → is_overdue now p ≡ false → IsCurrent now p
  fresh-IsCurrent now p h = elim (Bool-cases (may_expire p.status)) [
    | inl may ↦ inl (ground (arith, h, may))
    | inr may_not ↦ inr (not-may_expire p.status may_not)
  ]

  All-IsCurrent :
      (now : ℕ) (l : List (TradeProposal D))
      → All (λ p. is_overdue now p ≡ false) l
      → All (IsCurrent now) l
  All-IsCurrent now [] h = tt
  All-IsCurrent now (p ∷ ps) h = (fresh-IsCurrent now p h.0, All-IsCurrent now ps h.1)

  -- After `expireOpenProposals` no proposal is past its expiry in a status from which the state
  -- machine allows EXPIRED, and each row is as it was or has gone to another status by an allowed
  -- transition.
  pub expire_open_proposals_lem :
      (w : World D)
      → All (IsCurrent w.now) (expire_open_proposals w).1.db.proposals
        × Follows w.db.proposals (expire_open_proposals w).1.db.proposals
  unfolding expire_open_proposals
  expire_open_proposals_lem w =
      let (fresh, steps) = expire_rows w.now w.db.proposals in
      (
        All-IsCurrent w.now (update_rows (is_overdue w.now) (expired w.now) w.db.proposals) fresh,
        steps,
      )
