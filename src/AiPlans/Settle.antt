-- ===== src/AiPlans/Settle.antt =====
-- What the updates of `reconcileStuckSubmissions` make of the row of one plan.
use text.Mathlib.Text.{◌==◌ as str_eq}
use text.Mathlib.TextEquality.{eq_iff}
use mt5_ai_trading.Prelude.{
  ℕ, ◌≡◌, refl, sym, ap, ◌∙◌, Bool, true, false, Bool-cases, inl, inr, Option, none, some, List, [],
  ◌∷◌, String, find, where_rows, update_rows, arith,
}
use mathlib.Core.Path.{subst}
use mt5_ai_trading.Numeric.{Decimal}
use mt5_ai_trading.Store.Tables.{find-update_rows, find-update_rows_other}
use mt5_ai_trading.AiPlans.{
  AiTradePlan, Mt5, Mt5Order, Mt5Position, PlanWorld, has_plan_id, is_stuck, settle_stuck,
  each_plan, or_nothing, set_placed, set_found_open, set_released, find_mt5_evidence_for_plan,
  reconcile_stuck_submissions,
}

module _ {A : Type 0} where
  where_rows_none :
      (p q : A → Bool) (l : List A) → where_rows p l ≡ [] → where_rows p (where_rows q l) ≡ []
  where_rows_none p q [] h = refl
  where_rows_none p q (x ∷ l) h = ground (arith, where_rows_none p q l)

  where_rows_one :
      (p q : A → Bool) (l : List A) (a : A)
      → where_rows p l ≡ a ∷ []
      → q a ≡ true
      → where_rows p (where_rows q l) ≡ a ∷ []
  where_rows_one p q [] a h t = ground arith
  where_rows_one p q (x ∷ l) a h t = ground (arith, where_rows_one p q l a, where_rows_none p q l)

  find-where_rows :
      (p : A → Bool) (l : List A) (a : A) → where_rows p l ≡ a ∷ [] → find p l ≡ some a
  find-where_rows p [] a h = ground arith
  find-where_rows p (x ∷ l) a h = ground (arith, find-where_rows p l a)

module _ {D : Decimal} where
  -- A plan with what MT5 has of it: a pending order, else a position, else nothing.
  abbrev pub settled :
      ℕ → AiTradePlan D → Option Mt5Order × Option (Mt5Position D) → AiTradePlan D → AiTradePlan D
  settled now row (some o, m) p = set_placed o now p
  settled now row (none, some m) p = set_found_open m row p
  settled now row (none, none) p = set_released p

  settle_stuck-settled :
      (now : ℕ) (p : AiTradePlan D) (e : Option Mt5Order × Option (Mt5Position D)) (w : PlanWorld D)
      → (settle_stuck now p e w).plans ≡ update_rows (has_plan_id D p.id) (settled now p e) w.plans
  settle_stuck-settled now p (some o, m) w = refl
  settle_stuck-settled now p (none, some m) w = refl
  settle_stuck-settled now p (none, none) w = refl

  settled-id :
      (now : ℕ) (row : AiTradePlan D) (e : Option Mt5Order × Option (Mt5Position D))
      (p : AiTradePlan D)
      → (settled now row e p).id ≡ p.id
  settled-id now row (some o, m) p = refl
  settled-id now row (none, some m) p = refl
  settled-id now row (none, none) p = refl

  -- Two rows with the same id have no different ones.
  other_id :
      (i j : String) (p : AiTradePlan D)
      → has_plan_id D i p ≡ true
      → str_eq i j ≡ false
      → has_plan_id D j p ≡ false
  other_id i j p h differ = elim (Bool-cases (str_eq p.id j)) [
    | inl same ↦
        let ids : i ≡ j = sym ((eq_iff p.id i).0 h) ∙ (eq_iff p.id j).0 same in
        let agree : str_eq i j ≡ true = (eq_iff i j).1 ids in absurd cc
    | inr ne ↦ ne
  ]

  settled-has_plan_id :
      (now : ℕ) (row : AiTradePlan D) (e : Option Mt5Order × Option (Mt5Position D)) (i : String)
      (p : AiTradePlan D)
      → has_plan_id D i (settled now row e p) ≡ has_plan_id D i p
  settled-has_plan_id now row e i p = ap (λ s. str_eq s i) (settled-id now row e p)

  module _ (now : ℕ) (evidence : AiTradePlan D → Option Mt5Order × Option (Mt5Position D)) where
    abbrev settle : AiTradePlan D → PlanWorld D → PlanWorld D
    settle p w = settle_stuck now p (evidence p) w

    settle-own :
        (p : AiTradePlan D) (w : PlanWorld D)
        → find (has_plan_id D p.id) w.plans ≡ some p
        → find (has_plan_id D p.id) (settle p w).plans ≡ some (settled now p (evidence p) p)
    settle-own p w h =
        ap (find (has_plan_id D p.id)) (settle_stuck-settled now p (evidence p) w)
        ∙ find-update_rows (has_plan_id D p.id) (settled now p (evidence p)) w.plans p
            (λ x t. settled-has_plan_id now p (evidence p) p.id x ∙ t) h

    settle-other :
        (i : String) (p : AiTradePlan D) (w : PlanWorld D)
        → has_plan_id D i p ≡ false
        → find (has_plan_id D i) (settle p w).plans ≡ find (has_plan_id D i) w.plans
    settle-other i p w h =
        ap (find (has_plan_id D i)) (settle_stuck-settled now p (evidence p) w)
        ∙ find-update_rows_other (has_plan_id D i) (has_plan_id D p.id) (settled now p (evidence p))
            w.plans (λ x t. other_id p.id i x t h)
            (λ x t. settled-has_plan_id now p (evidence p) i x ∙ other_id p.id i x t h)

    settle_none :
        (i : String) (rows : List (AiTradePlan D)) (w : PlanWorld D)
        → where_rows (has_plan_id D i) rows ≡ []
        → find (has_plan_id D i) (each_plan settle rows w).plans ≡ find (has_plan_id D i) w.plans
    settle_none i [] w h = refl
    settle_none i (p ∷ ps) w h = elim (Bool-cases (has_plan_id D i p)) [
      | inl t ↦ absurd (ground arith)
      | inr t ↦ settle_none i ps (settle p w) (ground arith) ∙ settle-other i p w t
    ]

    settle_one :
        (p : AiTradePlan D) (rows : List (AiTradePlan D)) (w : PlanWorld D)
        → where_rows (has_plan_id D p.id) rows ≡ p ∷ []
        → find (has_plan_id D p.id) w.plans ≡ some p
        → find (has_plan_id D p.id) (each_plan settle rows w).plans
          ≡ some (settled now p (evidence p) p)
    settle_one p [] w h found = absurd (ground arith)
    settle_one p (x ∷ xs) w h found = elim (Bool-cases (has_plan_id D p.id x)) [
      | inl t ↦
          let this : x ≡ p = ground (arith, h, t) in
          let rest : where_rows (has_plan_id D p.id) xs ≡ [] = ground (arith, h, t) in
          settle_none p.id xs (settle x w) rest
          ∙ subst
              (λ y.
                find (has_plan_id D p.id) (settle y w).plans ≡ some (settled now p (evidence p) p))
              (sym this) (settle-own p w found)
      | inr t ↦
          settle_one p xs (settle x w) (ground (arith, h, t)) (settle-other p.id x w t ∙ found)
    ]

  pub settle_row :
      (M : Mt5 D) (now : ℕ) (w : PlanWorld D) (p : AiTradePlan D)
      → where_rows (has_plan_id D p.id) w.plans ≡ p ∷ []
      → is_stuck now p ≡ true
      → find (has_plan_id D p.id) (reconcile_stuck_submissions M now w).plans
        ≡ some (
            settled now p
              (find_mt5_evidence_for_plan p
                (or_nothing (M.list_pending_orders w.cancels))
                (or_nothing (M.list_positions w.cancels)))
              p)
  unfolding reconcile_stuck_submissions
  settle_row M now w p only stuck =
      settle_one now
        (λ q.
          find_mt5_evidence_for_plan q (or_nothing (M.list_pending_orders w.cancels))
            (or_nothing (M.list_positions w.cancels)))
        p (where_rows (is_stuck now) w.plans) w
        (where_rows_one (has_plan_id D p.id) (is_stuck now) w.plans p only stuck)
        (find-where_rows (has_plan_id D p.id) w.plans p only)
