-- ===== src/AiPlans/Evidence.antt =====
-- What `findMt5EvidenceForPlan` finds, and what the sweep of the stuck submissions is to make of it.
use text.Mathlib.Text.{◌==◌ as str_eq}
use text.Mathlib.TextEquality.{eq_iff}
use mt5_ai_trading.Prelude.{
  ℕ, ◌≡◌, refl, ap, ◌↔◌, ◌⊎◌, Bool, true, ◌&&◌, Bool-cases, inl, inr, none, some, List, [], ◌∷◌,
  ◌++◌, All, String, find, or_default, coalesce, arith,
}
use mt5_ai_trading.Numeric.{Decimal}
use mt5_ai_trading.Store.{Reply, replied, failed}
use mt5_ai_trading.AiPlans.{
  PlanStatus, AiTradePlan, Mt5Order, Mt5Position, is_order_of, is_position_of, plan_comment,
}

module _ {A : Type 0} where
  -- The first element of `l` for which `P` holds.
  abbrev pub IsLeading : (A → Type 0) → List A → A → Type 0
  IsLeading P l a =
      (before : List A) × (after : List A) × (l ≡ before ++ a ∷ after)
      × All (λ x. ¬ P x) before
      × P a

  -- What MT5 lists; a listing that fails counts as an empty one.
  abbrev pub Lists : Reply (List A) → List A → Type 0
  Lists (replied l) m = m ≡ l
  Lists (failed e) m = m ≡ []

  find-IsLeading :
      (p : A → Bool) (P : A → Type 0) (l : List A)
      → ((x : A) → (p x ≡ true) ↔ P x)
      → ((find p l ≡ none) × All (λ x. ¬ P x) l) ⊎ ((a : A) × (find p l ≡ some a) × IsLeading P l a)
  find-IsLeading p P [] reflects = inl (refl, tt)
  find-IsLeading p P (x ∷ l) reflects = elim (Bool-cases (p x)) [
    | inl t ↦ inr (x, rw t refl, ([], l, refl, tt, (reflects x).0 t))
    | inr f ↦
        let differs : ¬ P x = λ h. let t = (reflects x).1 h in absurd cc in
        elim (find-IsLeading p P l reflects) [
          | inl (e, nowhere) ↦ inl (rw f e, (differs, nowhere))
          | inr (a, e, (before, after, split, miss, hit)) ↦
              inr (a, rw f e, (x ∷ before, after, ap (λ m. x ∷ m) split, (differs, miss), hit))
        ]
  ]

both_eq : (a b c d : String) → ((str_eq a b && str_eq c d) ≡ true) ↔ ((a ≡ b) × (c ≡ d))
both_eq a b c d = (
  λ h. ((eq_iff a b).0 (ground arith), (eq_iff c d).0 (ground arith)),
  λ h. let s = (eq_iff a b).1 h.0 in let t = (eq_iff c d).1 h.1 in ground arith,
)

module _ {D : Decimal} where
  -- The symbol and the comment of the plan
  abbrev pub IsOrderOf : AiTradePlan D → Mt5Order → Type 0
  IsOrderOf p o = (o.symbol ≡ p.symbol) × (or_default o.comment "" ≡ plan_comment p.id)

  abbrev pub IsPositionOf : AiTradePlan D → Mt5Position D → Type 0
  IsPositionOf p m = (m.symbol ≡ p.symbol) × (or_default m.comment "" ≡ plan_comment p.id)

  abbrev pub NoOrder : AiTradePlan D → List Mt5Order → Type 0
  NoOrder p orders = All (λ o. ¬ IsOrderOf p o) orders

  abbrev pub NoPosition : AiTradePlan D → List (Mt5Position D) → Type 0
  NoPosition p positions = All (λ m. ¬ IsPositionOf p m) positions

  pub first_order :
      (p : AiTradePlan D) (orders : List Mt5Order)
      → ((find (is_order_of p) orders ≡ none) × NoOrder p orders)
        ⊎ ((o : Mt5Order) × (find (is_order_of p) orders ≡ some o)
            × IsLeading (IsOrderOf p) orders o)
  unfolding is_order_of
  first_order p orders =
      find-IsLeading (is_order_of p) (IsOrderOf p) orders
        (λ o. both_eq o.symbol p.symbol (or_default o.comment "") (plan_comment p.id))

  pub first_position :
      (p : AiTradePlan D) (positions : List (Mt5Position D))
      → ((find (is_position_of p) positions ≡ none) × NoPosition p positions)
        ⊎ ((m : Mt5Position D) × (find (is_position_of p) positions ≡ some m)
            × IsLeading (IsPositionOf p) positions m)
  unfolding is_position_of
  first_position p positions =
      find-IsLeading (is_position_of p) (IsPositionOf p) positions
        (λ m. both_eq m.symbol p.symbol (or_default m.comment "") (plan_comment p.id))

  -- The row `u` that a stuck plan becomes: placed with the first pending order of the plan, else open
  -- with its first position, else waiting for the owner; the execution key is gone.
  abbrev pub IsReconciled :
      ℕ → AiTradePlan D → List Mt5Order → List (Mt5Position D) → AiTradePlan D → Type 0
  IsReconciled now p orders positions u =
      ((o : Mt5Order) × IsLeading (IsOrderOf p) orders o
        × (u ≡ record p {
          status = PlanStatus.pending_order_placed;
          placed_at = some now;
          mt5_order_ticket = some (or_default o.ticket "");
          execution_key = none;
        }))
      ⊎ ((NoOrder p orders
            × ((m : Mt5Position D) × IsLeading (IsPositionOf p) positions m
                × (u ≡ record p {
                  status = PlanStatus.position_open;
                  actual_entry = coalesce m.price_open p.entry_price;
                  mt5_position_ticket = some (or_default m.ticket "");
                  execution_key = none;
                })))
          ⊎ (NoOrder p orders
              × NoPosition p positions
              × (u ≡ record p {
                status = PlanStatus.waiting_for_approval;
                submitting_at = none;
                execution_key = none;
              })))
