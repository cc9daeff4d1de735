-- ===== src/AiPlans/Stuck.antt =====
-- What a tick makes of a plan that is stuck in its submission.
use mt5_ai_trading.Prelude.{
  ℕ, ◌≡◌, refl, sym, ◌∙◌, ◌+◌, ◌≤◌, true, inl, inr, some, List, [], ◌∷◌, find, where_rows, arith,
}
use mt5_ai_trading.Numeric.{Decimal}
use mt5_ai_trading.Store.{Reply, replied, failed}
use mt5_ai_trading.AiPlans.{
  PlanStatus, AiTradePlan, Mt5, Mt5Order, Mt5Position, PlanWorld, has_plan_id, is_stuck, or_nothing,
  is_order_of, is_position_of, find_mt5_evidence_for_plan, reconcile_stuck_submissions,
}
use mt5_ai_trading.AiPlans.Evidence.{Lists, IsReconciled, first_order, first_position}
use mt5_ai_trading.AiPlans.Settle.{settled, settle_row}

or_nothing-Lists : {A : Type 0} (r : Reply (List A)) (l : List A) → Lists r l → or_nothing r ≡ l
or_nothing-Lists (replied m) l h = sym h
or_nothing-Lists (failed e) l h = sym h

module _ {D : Decimal} where
  -- The plan is in its submission since `at`, more than two minutes ago.
  pub record IsStuckSince (now at : ℕ) (p : AiTradePlan D) : Type 0 where
    pub submitting : p.status ≡ PlanStatus.pending_order_submitting
    pub since : p.submitting_at ≡ some at
    pub waited : at + 120_000 ≤ now

  pub is_stuck-since :
      (now at : ℕ) (p : AiTradePlan D) → IsStuckSince now at p → is_stuck now p ≡ true
  is_stuck-since now at p h = rw (h.submitting, h.since) (ground (arith, h.waited))

  settled-IsReconciled :
      (now : ℕ) (p : AiTradePlan D) (orders : List Mt5Order) (positions : List (Mt5Position D))
      → IsReconciled now p orders positions
          (settled now p (find (is_order_of p) orders, find (is_position_of p) positions) p)
  settled-IsReconciled now p orders positions = elim (first_order p orders) [
    | inr (o, found, order) ↦ rw found (inl (o, order, refl))
    | inl (missing, no_order) ↦ elim (first_position p positions) [
      | inr (m, found, position) ↦ rw (missing, found) (inr (inl (no_order, (m, position, refl))))
      | inl (nowhere, no_position) ↦ rw (missing, nowhere) (inr (inr (no_order, no_position, refl)))
    ]
  ]

  -- A plan that is stuck in its submission for two minutes, the only row with its id, becomes what
  -- MT5 lists makes of it: placed with the first pending order that has its symbol and its comment,
  -- else open with the first such position, else waiting for approval; its execution key is gone. A
  -- listing that fails counts as an empty one.
  pub stuck_settled :
      (M : Mt5 D) (now at : ℕ) (w : PlanWorld D) (p : AiTradePlan D) (orders : List Mt5Order)
      (positions : List (Mt5Position D))
      → where_rows (has_plan_id D p.id) w.plans ≡ p ∷ []
      → IsStuckSince now at p
      → Lists (M.list_pending_orders w.cancels) orders
      → Lists (M.list_positions w.cancels) positions
      → (u : AiTradePlan D) × IsReconciled now p orders positions u
        × (find (has_plan_id D p.id) (reconcile_stuck_submissions M now w).plans ≡ some u)
  unfolding find_mt5_evidence_for_plan
  stuck_settled M now at w p orders positions only stuck listed held = (
    _,
    settled-IsReconciled now p orders positions,
    settle_row M now w p only (is_stuck-since now at p stuck)
        ∙ rw
            (
              or_nothing-Lists (M.list_pending_orders w.cancels) orders listed,
              or_nothing-Lists (M.list_positions w.cancels) positions held,
            )
            refl,
  )
