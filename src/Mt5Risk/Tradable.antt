-- ===== src/Mt5Risk/Tradable.antt =====
-- The symbol information that `toRiskSymbolInfo` answers with.
use mt5_ai_trading.Prelude.{◌≡◌, refl, sym, ◌∙◌, ap, true, false, not, Option, none, some, arith}
use mathlib.Core.Path.{subst}
use mt5_ai_trading.Numeric.{Decimal, IsDecimal}
use mt5_ai_trading.Mt5Risk.{
  JsonNumber, Mt5SymbolFields, Mt5RiskSymbolInfo, to_number, to_risk_symbol_info, symbol_info,
  finite_info,
}

-- A finite number above zero.
abbrev pub IsSize : (E : Decimal) → E.Value → Type 0
IsSize E x = (E.is_finite x ≡ true) × (E.lte x (E.of_nat 0) ≡ false) × (E.gt x (E.of_nat 0) ≡ true)

module _ {D : Decimal} where
  pub record IsTradable (i : Mt5RiskSymbolInfo D) : Type 0 where
    pub contract_size : IsSize D i.contract_size
    pub tick_size : IsSize D i.tick_size
    pub volume_min : IsSize D i.volume_min
    pub volume_max : IsSize D i.volume_max
    pub volume_step : IsSize D i.volume_step

  to_number-IsFinite :
      IsDecimal D → (j : JsonNumber D) (x : D.Value) → to_number j ≡ some x → D.is_finite x ≡ true
  to_number-IsFinite law JsonNumber.undefined x h = absurd (ground arith)
  to_number-IsFinite law JsonNumber.null x h = ground (arith, law.zero_finite)
  to_number-IsFinite law JsonNumber.text x h = absurd (ground arith)
  to_number-IsFinite law (JsonNumber.number y) x h = ground arith

  -- A field that is read as `x`, which is tested and stands in the result as `y`.
  field-IsSize :
      IsDecimal D
      → (j : JsonNumber D) (x y : D.Value) → to_number j ≡ some x
      → (y ≡ x) × (D.lte x (D.of_nat 0) ≡ false)
      → IsSize D y
  field-IsSize law j x y h (same, above) =
      let fin = to_number-IsFinite law j x h in
      let gt = law.gt-eq-not-lte x (D.of_nat 0) (law.finite_number x fin) law.zero_number in
      subst (IsSize D) (sym same) (fin, above, gt ∙ ap not above)

  -- What `symbol_info` hands on, and that it has tested.
  record Tested (c t lo hi step : D.Value) (i : Mt5RiskSymbolInfo D) : Type 0 where
    contract_size : (i.contract_size ≡ c) × (D.lte c (D.of_nat 0) ≡ false)
    tick_size : (i.tick_size ≡ t) × (D.lte t (D.of_nat 0) ≡ false)
    volume_min : (i.volume_min ≡ lo) × (D.lte lo (D.of_nat 0) ≡ false)
    volume_max : (i.volume_max ≡ hi) × (D.lte hi (D.of_nat 0) ≡ false)
    volume_step : (i.volume_step ≡ step) × (D.lte step (D.of_nat 0) ≡ false)

  symbol_info-Tested :
      (f : Mt5SymbolFields D) (c t lo hi step : D.Value) (i : Mt5RiskSymbolInfo D)
      → symbol_info f c t lo hi step ≡ some i
      → Tested c t lo hi step i
  symbol_info-Tested f c t lo hi step i h = ground arith

  finite_info-Tested :
      (f : Mt5SymbolFields D) (c t lo hi step : Option D.Value) (i : Mt5RiskSymbolInfo D)
      → finite_info f c t lo hi step ≡ some i
      → (c' : D.Value) × (t' : D.Value) × (lo' : D.Value) × (hi' : D.Value) × (step' : D.Value) × (c
          ≡ some c')
        × (t ≡ some t')
        × (lo ≡ some lo')
        × (hi ≡ some hi')
        × (step ≡ some step')
        × Tested c' t' lo' hi' step' i
  finite_info-Tested f none t lo hi step i h = absurd (ground arith)
  finite_info-Tested f (some c) none lo hi step i h = absurd (ground arith)
  finite_info-Tested f (some c) (some t) none hi step i h = absurd (ground arith)
  finite_info-Tested f (some c) (some t) (some lo) none step i h = absurd (ground arith)
  finite_info-Tested f (some c) (some t) (some lo) (some hi) none i h = absurd (ground arith)
  finite_info-Tested f (some c) (some t) (some lo) (some hi) (some step) i h =
      (c, t, lo, hi, step, refl, refl, refl, refl, refl, symbol_info-Tested f c t lo hi step i h)

  finite_info-IsTradable :
      IsDecimal D
      → (f : Mt5SymbolFields D) (a b d e g : JsonNumber D) (i : Mt5RiskSymbolInfo D)
      → finite_info f (to_number a) (to_number b) (to_number d) (to_number e) (to_number g) ≡ some i
      → IsTradable i
  finite_info-IsTradable law f a b d e g i h =
      let (c, t, lo, hi, step, at, bt, dt, et, gt, ok) = finite_info-Tested f _ _ _ _ _ i h in
      record {
        contract_size = field-IsSize law a c i.contract_size at ok.contract_size;
        tick_size = field-IsSize law b t i.tick_size bt ok.tick_size;
        volume_min = field-IsSize law d lo i.volume_min dt ok.volume_min;
        volume_max = field-IsSize law e hi i.volume_max et ok.volume_max;
        volume_step = field-IsSize law g step i.volume_step gt ok.volume_step;
      }

  -- `toRiskSymbolInfo` answers only with sizes that are finite numbers above zero.
  pub symbol-IsTradable :
      IsDecimal D
      → (f : Option (Mt5SymbolFields D)) (i : Mt5RiskSymbolInfo D) → to_risk_symbol_info f ≡ some i
      → IsTradable i
  unfolding to_risk_symbol_info
  symbol-IsTradable law none i h = absurd (ground arith)
  symbol-IsTradable law (some f) i h = finite_info-IsTradable law f _ _ _ _ _ i h
