-- ===== src/Store/Proposals.antt =====
-- apps/api/src/db/repositories/trade-proposals.ts.
use mt5_ai_trading.Prelude.{
  ℕ, Bool, true, false, ◌&&◌, Option, none, List, find, where_rows, update_rows, coalesce, leb,
  ◌==◌,
}
use mt5_ai_trading.Numeric.{Decimal}
use mt5_ai_trading.Domain.{TradeProposal, ProposalStatus}
use mt5_ai_trading.Store.State.{Db, Action, row, gets, modify_db, ◌>>=◌, ◌>>◌}

pub record ProposalTimes : Type 0 where
  pub pending_approval_at : Option ℕ
  pub approved_at : Option ℕ
  pub rejected_at : Option ℕ
  pub filled_at : Option ℕ

abbrev pub no_times : ProposalTimes
no_times = record {
  pending_approval_at = none;
  approved_at = none;
  rejected_at = none;
  filled_at = none;
}

-- `status IN ('RISK_CHECKING', 'PENDING_APPROVAL', 'APPROVED', 'REVALIDATING')`
abbrev pub may_expire : ProposalStatus → Bool
may_expire ProposalStatus.risk_checking = true
may_expire ProposalStatus.pending_approval = true
may_expire ProposalStatus.approved = true
may_expire ProposalStatus.revalidating = true
may_expire _ = false

module _ {D : Decimal} where
  abbrev pub has_id : ℕ → TradeProposal D → Bool
  has_id id p = p.id == id

  abbrev pub find_proposal : ℕ → Db D → Option (TradeProposal D)
  find_proposal id db = find (has_id id) db.proposals

  unfoldable pub find_proposal_by_id_for_update : ℕ → Action D (Option (TradeProposal D))
  find_proposal_by_id_for_update id = gets (λ w. find_proposal id w.db)

  abbrev pub set_status : ProposalStatus → ProposalTimes → ℕ → TradeProposal D → TradeProposal D
  set_status status t now p = record p {
    status = status;
    updated_at = now;
    pending_approval_at = coalesce t.pending_approval_at p.pending_approval_at;
    approved_at = coalesce t.approved_at p.approved_at;
    rejected_at = coalesce t.rejected_at p.rejected_at;
    filled_at = coalesce t.filled_at p.filled_at;
  }

  abbrev pub put_proposals :
      (TradeProposal D → Bool) → (TradeProposal D → TradeProposal D) → Db D → Db D
  put_proposals t f db = record db { proposals = update_rows t f db.proposals }

  unfoldable pub update_proposal_status :
      ℕ → ProposalStatus → ProposalTimes → Action D (TradeProposal D)
  update_proposal_status id status t = do
    now ← gets (λ w. w.now)
    modify_db (put_proposals (has_id id) (set_status status t now))
    row (← gets (λ w. find_proposal id w.db))

  abbrev pub is_overdue : ℕ → TradeProposal D → Bool
  is_overdue now p = may_expire p.status && leb p.expires_at now

  -- Returns the rows that it changed, as they are now.
  unfoldable pub expire_open_proposals : Action D (List (TradeProposal D))
  expire_open_proposals = do
    now ← gets (λ w. w.now)
    rows ← gets (λ w. where_rows (is_overdue now) w.db.proposals)
    modify_db (put_proposals (is_overdue now) (set_status ProposalStatus.expired no_times now))
    gets (λ w. update_rows (λ p. true) (set_status ProposalStatus.expired no_times now) rows)
