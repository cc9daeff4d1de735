-- ===== src/AiPlans/Unreachable.antt =====
-- What a tick makes of a stuck plan while MT5 does not answer.
use mt5_ai_trading.Prelude.{
  ℕ, ◌≡◌, refl, ap, ◌∙◌, Bool, false, Option, none, some, List, [], ◌∷◌, String, find, where_rows,
  update_rows, arith,
}
use mt5_ai_trading.Numeric.{Decimal}
use mt5_ai_trading.Store.{failed}
use mt5_ai_trading.Store.Tables.{find-update_rows_past}
use mt5_ai_trading.AiPlans.{
  PlanStatus, AiTradePlan, Mt5, Mt5Order, Mt5Position, PlanWorld, has_plan_id, is_stuck,
  settle_stuck, each_plan, is_unapproved, set_expired, set_position_closed, set_failed,
  set_released, find_mt5_evidence_for_plan, expire_unapproved_plans, reconcile_stuck_submissions,
  reconcile_pending_orders, sync_closed_plans, run_ai_trade_plan_watcher_tick,
}
use mt5_ai_trading.AiPlans.Settle.{settle_row}
use mt5_ai_trading.AiPlans.Stuck.{IsStuckSince, is_stuck-since}

module _ {A : Type 0} where
  where_rows-update_none :
      (p q : A → Bool) (f : A → A) (l : List A)
      → ((x : A) → p (f x) ≡ p x)
      → where_rows p l ≡ []
      → where_rows p (update_rows q f l) ≡ []
  where_rows-update_none p q f [] keep h = refl
  where_rows-update_none p q f (x ∷ l) keep h =
      ground (arith, keep x, where_rows-update_none p q f l keep)

  -- An update that leaves out the only row of `p`.
  where_rows-update_past :
      (p q : A → Bool) (f : A → A) (l : List A) (a : A)
      → ((x : A) → p (f x) ≡ p x)
      → where_rows p l ≡ a ∷ []
      → q a ≡ false
      → where_rows p (update_rows q f l) ≡ a ∷ []
  where_rows-update_past p q f [] a keep h t = ground arith
  where_rows-update_past p q f (x ∷ l) a keep h t =
      ground
        (arith, keep x, where_rows-update_past p q f l a keep, where_rows-update_none p q f l keep)

module _ {D : Decimal} where
  settle_stuck-cancels :
      (now : ℕ) (p : AiTradePlan D) (e : Option Mt5Order × Option (Mt5Position D)) (w : PlanWorld D)
      → (settle_stuck now p e w).cancels ≡ w.cancels
  settle_stuck-cancels now p (some o, m) w = refl
  settle_stuck-cancels now p (none, some m) w = refl
  settle_stuck-cancels now p (none, none) w = refl

  each_plan-cancels :
      (step : AiTradePlan D → PlanWorld D → PlanWorld D) (ps : List (AiTradePlan D))
      (w : PlanWorld D)
      → ((p : AiTradePlan D) (v : PlanWorld D) → (step p v).cancels ≡ v.cancels)
      → (each_plan step ps w).cancels ≡ w.cancels
  each_plan-cancels step [] w keep = refl
  each_plan-cancels step (p ∷ ps) w keep = each_plan-cancels step ps (step p w) keep ∙ keep p w

  stuck-cancels :
      (M : Mt5 D) (now : ℕ) (w : PlanWorld D)
      → (reconcile_stuck_submissions M now w).cancels ≡ w.cancels
  unfolding reconcile_stuck_submissions
  stuck-cancels M now w =
      each_plan-cancels _ (where_rows (is_stuck now) w.plans) w
        (λ p v. settle_stuck-cancels now p _ v)

  pending-unreachable :
      (M : Mt5 D) (now : ℕ) (w : PlanWorld D) (m : String)
      → M.list_pending_orders w.cancels ≡ failed m
      → reconcile_pending_orders M now w ≡ w
  unfolding reconcile_pending_orders
  pending-unreachable M now w m orders = rw orders (ground arith)

  sync-waiting :
      (w : PlanWorld D) (i : String) (u : AiTradePlan D)
      → find (has_plan_id D i) w.plans ≡ some u
      → u.status ≡ PlanStatus.waiting_for_approval
      → find (has_plan_id D i) (sync_closed_plans w).plans ≡ some u
  unfolding sync_closed_plans
  sync-waiting w i u found waiting =
      find-update_rows_past (has_plan_id D i) _ set_failed _ u (λ x. refl)
        (find-update_rows_past (has_plan_id D i) _ set_position_closed w.plans u (λ x. refl) found
          (rw waiting refl))
        (rw waiting refl)

  -- While both listings of MT5 fail, a whole tick releases a plan that is stuck in its submission for
  -- two minutes, the only row with its id: it waits for approval again, with no time of submission
  -- and no execution key, whatever MT5 has of it, and the tick asks MT5 to cancel nothing.
  pub stuck_unreachable :
      (M : Mt5 D) (now at : ℕ) (w : PlanWorld D) (p : AiTradePlan D) (m n : String)
      → M.list_pending_orders w.cancels ≡ failed m
      → M.list_positions w.cancels ≡ failed n
      → where_rows (has_plan_id D p.id) w.plans ≡ p ∷ []
      → IsStuckSince now at p
      → (find (has_plan_id D p.id) (run_ai_trade_plan_watcher_tick M now w).plans
          ≡ some (record p {
            status = PlanStatus.waiting_for_approval;
            submitting_at = none;
            execution_key = none;
          }))
        × ((run_ai_trade_plan_watcher_tick M now w).cancels ≡ w.cancels)
  unfolding run_ai_trade_plan_watcher_tick expire_unapproved_plans find_mt5_evidence_for_plan
      sync_closed_plans
  stuck_unreachable M now at w p m n orders positions only stuck =
      let v = expire_unapproved_plans now w in
      let s = reconcile_stuck_submissions M now v in
      let left =
        where_rows-update_past (has_plan_id D p.id) (is_unapproved now) (set_expired now) w.plans p
          (λ x. refl) only (rw stuck.submitting refl) in
      let kept : s.cancels ≡ w.cancels = stuck-cancels M now v in
      let quiet = pending-unreachable M now s m (ap M.list_pending_orders kept ∙ orders) in
      let released : find (has_plan_id D p.id) s.plans ≡ some (set_released p) =
        settle_row M now v p left (is_stuck-since now at p stuck) ∙ rw (orders, positions) refl in
      let last = reconcile_pending_orders M now s in
      (
        sync-waiting last p.id (set_released p)
            (ap (λ x. find (has_plan_id D p.id) x.plans) quiet ∙ released) refl,
        ap (λ x. x.cancels) quiet ∙ kept,
      )
