-- ===== src/Mt5Risk/Volume.antt =====
-- The volume that the engine recommends.
use mt5_ai_trading.Prelude.{
  ◌≡◌, refl, sym, Bool-cases, ◌∙◌, ap, ◌⊎◌, inl, inr, true, false, not, Option, some, arith,
}
use mathlib.Core.Path.{subst}
use mt5_ai_trading.Numeric.{Decimal, IsNumber, IsDecimal}
use mt5_ai_trading.Domain.{RiskResult}
use mt5_ai_trading.Mt5Risk.{
  Mt5SymbolFields, Mt5RiskSymbolInfo, Mt5RiskInput, SizingInput, to_risk_symbol_info, sizing_input,
  chosen_volume, normal_volume, raw_volume, normalize_volume, loss_per_lot, margin_required,
  margin_allowance, evaluate_mt5_risk, max_loss_of,
}
use mt5_ai_trading.Mt5Risk.Tradable.{IsTradable, symbol-IsTradable}
use mt5_ai_trading.Mt5Risk.Pass.{IsSized, pass_iff}

module _ {D : Decimal} where
  chosen_normal :
      (x : SizingInput D) (i : Mt5RiskSymbolInfo D)
      → D.lte (normal_volume x i) (D.of_nat 0) ≡ false
      → (chosen_volume x i).0 ≡ normal_volume x i
  unfolding chosen_volume
  chosen_normal x i h = rw h refl

  chosen_smallest :
      (x : SizingInput D) (i : Mt5RiskSymbolInfo D)
      → D.lte (normal_volume x i) (D.of_nat 0) ≡ true
      → D.gt (loss_per_lot x i) (D.of_nat 0) ≡ true
      → D.lte (D.times i.volume_min (loss_per_lot x i)) x.max_loss ≡ true
      → (chosen_volume x i).0 ≡ i.volume_min
  unfolding chosen_volume
  chosen_smallest x i zero loses within = rw (zero, loses, within) refl

  abbrev pub recommended : Mt5RiskInput D → Mt5RiskSymbolInfo D → D.Value
  recommended x i = (chosen_volume (sizing_input x) i).0

  -- The volume is a whole number of steps, at least the smallest one of the broker before it is
  -- rounded down, and the steps are not more than those in `bounded`, which is not above the largest
  -- volume of the broker nor above the budget's quotient by the loss of a lot.
  pub record IsBounded (x : SizingInput D) (i : Mt5RiskSymbolInfo D) (volume : D.Value)
      : Type 0 where
    pub steps : D.Value
    pub bounded : D.Value
    pub whole : D.floor steps ≡ steps
    pub product : volume ≡ D.times steps i.volume_step
    pub counted : D.lte steps (D.div bounded i.volume_step) ≡ true
    pub in_budget : D.lte bounded (D.div x.risk_budget (loss_per_lot x i)) ≡ true
    pub in_volume : D.lte bounded i.volume_max ≡ true
    pub enough : D.lt (D.div x.risk_budget (loss_per_lot x i)) i.volume_min ≡ false
    pub loses : D.gt (loss_per_lot x i) (D.of_nat 0) ≡ true

  -- The volume of a passed plan: within the budget, or the broker's smallest one, whose loss at the
  -- stop is then within the limit of a trade.
  abbrev pub IsWithinRisk : Mt5RiskInput D → Mt5RiskSymbolInfo D → Type 0
  IsWithinRisk x i =
      let s = sizing_input x in
      IsBounded s i (recommended x i)
      ⊎ ((recommended x i ≡ i.volume_min)
          × (D.lte (D.times i.volume_min (loss_per_lot s i)) (max_loss_of x) ≡ true))

  raw_loses :
      IsDecimal D
      → (x : SizingInput D) (i : Mt5RiskSymbolInfo D) → IsTradable i
      → D.lte (normal_volume x i) (D.of_nat 0) ≡ false
      → D.gt (loss_per_lot x i) (D.of_nat 0) ≡ true
  unfolding normal_volume raw_volume normalize_volume
  raw_loses law x i ok enough = elim (Bool-cases (D.gt (loss_per_lot x i) (D.of_nat 0))) [
    | inl loses ↦ loses
    | inr none_lost ↦
        let least = law.finite_number i.volume_min ok.volume_min.0 in
        let below =
          law.lt-eq-not-lte (D.of_nat 0) i.volume_min law.zero_number least
          ∙ ap not ok.volume_min.1 in
        absurd (ground (arith, enough, none_lost, below, law.zero_number))
  ]

  normalize_volume-steps :
      IsDecimal D
      → (raw lo hi step : D.Value) → D.lte step (D.of_nat 0) ≡ false
      → D.lte (normalize_volume D raw lo hi step) (D.of_nat 0) ≡ false
      → (D.lt raw lo ≡ false)
        × (normalize_volume D raw lo hi step ≡ D.times (D.floor (D.div (D.min raw hi) step)) step)
  unfolding normalize_volume
  normalize_volume-steps law raw lo hi step above enough = ground (arith, law.zero_number)

  normal_volume-budget :
      (x : SizingInput D) (i : Mt5RiskSymbolInfo D)
      → D.gt (loss_per_lot x i) (D.of_nat 0) ≡ true
      → normal_volume x i
        ≡ normalize_volume D
            (D.div x.risk_budget (loss_per_lot x i))
            i.volume_min
            i.volume_max
            i.volume_step
  unfolding normal_volume raw_volume
  normal_volume-budget x i loses = rw loses refl

  normal-IsBounded :
      IsDecimal D
      → (x : SizingInput D) (i : Mt5RiskSymbolInfo D) → IsTradable i
      → D.lte (normal_volume x i) (D.of_nat 0) ≡ false
      → IsNumber D (normal_volume x i)
      → IsBounded x i (normal_volume x i)
  normal-IsBounded law x i ok enough number =
      let loses = raw_loses law x i ok enough in
      let raw = D.div x.risk_budget (loss_per_lot x i) in
      let least = D.min raw i.volume_max in
      let lots = D.div least i.volume_step in
      let same = normal_volume-budget x i loses in
      let (in_range, product) =
        normalize_volume-steps law raw i.volume_min i.volume_max i.volume_step ok.volume_step.1
          (subst (λ v. D.lte v (D.of_nat 0) ≡ false) same enough) in
      let steps_number =
        law.times_number (D.floor lots) i.volume_step
          (subst (IsNumber D) (same ∙ product) number) in
      let lots_number = law.floor_number lots steps_number in
      let (raw_number, most_number) =
        law.min_number raw i.volume_max (law.div_number least i.volume_step lots_number) in
      record {
        steps = D.floor lots;
        bounded = least;
        whole = law.floor_floor lots;
        product = same ∙ product;
        counted = law.floor_lte lots lots_number;
        in_budget = law.min_lte raw i.volume_max raw_number most_number;
        in_volume = law.min_lte_right raw i.volume_max raw_number most_number;
        enough = in_range;
        loses = loses;
      }

  sized-positive :
      IsDecimal D
      → (x : Mt5RiskInput D) (i : Mt5RiskSymbolInfo D) → IsTradable i
      → IsSized (sizing_input x) i
      → IsNumber D (recommended x i)
      → (D.lte (recommended x i) (D.of_nat 0) ≡ false) × IsWithinRisk x i
  sized-positive law x i ok h number = elim h.sized [
    | inl enough ↦
        let s = sizing_input x in
        let same = chosen_normal s i enough in
        let own = normal-IsBounded law s i ok enough (subst (IsNumber D) same number) in
        (ap (λ v. D.lte v (D.of_nat 0)) same ∙ enough, inl (subst (IsBounded s i) (sym same) own))
    | inr (zero, loses, within) ↦
        let same = chosen_smallest (sizing_input x) i zero loses within in
        (ap (λ v. D.lte v (D.of_nat 0)) same ∙ ok.volume_min.1, inr (same, within))
  ]

  -- If the engine passes a plan with the symbol information of `toRiskSymbolInfo`, and the volume is
  -- no NaN, then the volume is above zero; it is a whole number of the broker's steps within the
  -- budget's quotient by the loss of a lot and within the broker's largest volume, or the broker's
  -- smallest volume with a loss within the limit of a trade; and the margin that it needs, with a
  -- leverage above zero, is not above the allowed part of the free margin.
  pub passed_volume :
      IsDecimal D
      → (x : Mt5RiskInput D) (f : Option (Mt5SymbolFields D)) (i : Mt5RiskSymbolInfo D)
      → to_risk_symbol_info f ≡ some i
      → x.symbol ≡ some i
      → (evaluate_mt5_risk x).result ≡ RiskResult.pass
      → IsNumber D (recommended x i)
      → (D.gt (recommended x i) (D.of_nat 0) ≡ true)
        × IsWithinRisk x i
        × (D.gt (sizing_input x).leverage (D.of_nat 0) ≡ true)
        × (D.gt
              (margin_required (sizing_input x) i (recommended x i))
              (margin_allowance (sizing_input x))
            ≡ false)
  passed_volume law x f i info given passes number =
      let (cleared, (j, same, sized)) = (pass_iff x).0 passes in
      let own : IsSized (sizing_input x) i =
        subst (IsSized (sizing_input x)) (ground (arith, same, given)) sized in
      let (positive, within) = sized-positive law x i (symbol-IsTradable law f i info) own number in
      let above =
        law.gt-eq-not-lte (chosen_volume (sizing_input x) i).0 (D.of_nat 0) number law.zero_number
        ∙ ap not positive in
      elim own.covered [
        | inl none_above ↦ absurd (ground (arith, above, none_above))
        | inr (contract, leverage, enough) ↦ (above, within, leverage, enough)
      ]
