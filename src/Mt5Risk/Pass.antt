-- ===== src/Mt5Risk/Pass.antt =====
-- When the MT5 risk engine passes a plan.
use mt5_ai_trading.Prelude.{
  ◌≡◌, refl, ◌↔◌, ◌⊎◌, Bool, true, false, Option, none, some, List, [], ◌∷◌, ◌++◌, String, is_some,
  arith,
}
use mathlib.Core.Path.{subst}
use mt5_ai_trading.Numeric.{Decimal}
use mt5_ai_trading.Domain.{RiskResult}
use mt5_ai_trading.Decision.{MarketStatus, DataStatus}
use mt5_ai_trading.Mt5Risk.{
  Mt5RiskInput, Mt5RiskSymbolInfo, Mt5Decision, SizingInput, flag, market_rules, data_rules,
  result_of, limit_or, gate_rules, risk_distance, risk_reward, min_reward_of, free_margin_of,
  sizing_input, size_position, chosen_volume, check_margin, normal_volume, loss_per_lot,
  margin_required, margin_allowance, evaluate_mt5_risk,
}

flag_none :
    (c : Bool) (r : String) (l : List String) → ((flag c r ++ l) ≡ []) ↔ ((c ≡ false) × (l ≡ []))
flag_none c r l = ground arith

market_none :
    (m : Option MarketStatus) (l : List String)
    → ((market_rules m ++ l) ≡ []) ↔ (((m ≡ none) ⊎ (m ≡ some MarketStatus.open_now)) × (l ≡ []))
market_none m l = ground arith

data_none :
    (m : Option DataStatus) (l : List String)
    → ((data_rules m ++ l) ≡ []) ↔ (((m ≡ none) ⊎ (m ≡ some DataStatus.live)) × (l ≡ []))
data_none m l = ground arith

append_none : (l m : List String) → ((l ++ m) ≡ []) ↔ ((l ≡ []) × (m ≡ []))
append_none [] m = (λ h. (refl, h), λ h. h.1)
append_none (x ∷ l) m = (λ h. absurd (ground arith), λ h. absurd (ground (arith, h.0)))

result_of_none : (l : List String) → (result_of l ≡ RiskResult.pass) ↔ (l ≡ [])
result_of_none l = ground arith

module _ {D : Decimal} where
  -- The gates of an input apart from its sizing.
  pub record IsCleared (x : Mt5RiskInput D) : Type 0 where
    pub switch_off : x.settings.kill_switch_enabled ≡ some false
    pub market_open : (x.market_status ≡ none) ⊎ (x.market_status ≡ some MarketStatus.open_now)
    pub data_live : (x.data_status ≡ none) ⊎ (x.data_status ≡ some DataStatus.live)
    pub executable : (x.decision ≡ Mt5Decision.buy) ⊎ (x.decision ≡ Mt5Decision.sell)
    pub has_stop : is_some x.stop_loss ≡ true
    pub has_target : is_some x.take_profit ≡ true
    pub distance : D.lte (risk_distance x) (D.of_nat 0) ≡ false
    pub reward : D.lt (risk_reward x) (min_reward_of x) ≡ false
    pub positions :
        D.lte (limit_or D x.settings.max_simultaneous_positions 3) (D.of_nat x.open_positions)
        ≡ false
    pub trades :
        D.lte (limit_or D x.settings.max_trades_per_day 6) (D.of_nat x.trades_today) ≡ false
    pub quote :
        D.gt (limit_or D x.quote_age_seconds 0) (limit_or D x.settings.quote_staleness_seconds 10)
        ≡ false
    pub spread :
        D.gt (limit_or D x.spread_points 0) (limit_or D x.settings.max_spread_points 50) ≡ false
    pub margin : D.lte (free_margin_of x) (D.of_nat 0) ≡ false

  gate_rules_none : (x : Mt5RiskInput D) → (gate_rules x ≡ []) ↔ IsCleared x
  unfolding gate_rules
  gate_rules_none x = ground arith

  -- A volume has been found, and its margin is there.
  pub record IsSized (x : SizingInput D) (i : Mt5RiskSymbolInfo D) : Type 0 where
    pub sized :
        (D.lte (normal_volume x i) (D.of_nat 0) ≡ false)
        ⊎ ((D.lte (normal_volume x i) (D.of_nat 0) ≡ true)
            × (D.gt (loss_per_lot x i) (D.of_nat 0) ≡ true)
            × (D.lte (D.times i.volume_min (loss_per_lot x i)) x.max_loss ≡ true))
    pub covered :
        (D.gt (chosen_volume x i).0 (D.of_nat 0) ≡ false)
        ⊎ ((D.gt i.contract_size (D.of_nat 0) ≡ true)
            × (D.gt x.leverage (D.of_nat 0) ≡ true)
            × (D.gt (margin_required x i (chosen_volume x i).0) (margin_allowance x) ≡ false))

  chosen_none :
      (x : SizingInput D) (i : Mt5RiskSymbolInfo D)
      → ((chosen_volume x i).1 ≡ []) ↔ (
          (D.lte (normal_volume x i) (D.of_nat 0) ≡ false)
          ⊎ ((D.lte (normal_volume x i) (D.of_nat 0) ≡ true)
              × (D.gt (loss_per_lot x i) (D.of_nat 0) ≡ true)
              × (D.lte (D.times i.volume_min (loss_per_lot x i)) x.max_loss ≡ true)))
  unfolding chosen_volume
  chosen_none x i = ground arith

  margin_none :
      (x : SizingInput D) (i : Mt5RiskSymbolInfo D) (v : D.Value)
      → ((check_margin x i v).1 ≡ []) ↔ (
          (D.gt v (D.of_nat 0) ≡ false)
          ⊎ ((D.gt i.contract_size (D.of_nat 0) ≡ true)
              × (D.gt x.leverage (D.of_nat 0) ≡ true)
              × (D.gt (margin_required x i v) (margin_allowance x) ≡ false)))
  unfolding check_margin
  margin_none x i v = ground arith

  sizing_none :
      (x : SizingInput D) (i : Mt5RiskSymbolInfo D)
      → ((size_position x (some i)).failed ≡ []) ↔ IsSized x i
  unfolding size_position
  sizing_none x i =
      let (split, join) =
        append_none (chosen_volume x i).1 (check_margin x i (chosen_volume x i).0).1 in
      (
        λ h. record {
          sized = (chosen_none x i).0 (split h).0;
          covered = (margin_none x i (chosen_volume x i).0).0 (split h).1;
        },
        λ h.
            join ((chosen_none x i).1 h.sized, (margin_none x i (chosen_volume x i).0).1 h.covered),
      )

  -- What the engine asks of an input.
  abbrev pub IsPassed : Mt5RiskInput D → Type 0
  IsPassed x =
      IsCleared x × ((i : Mt5RiskSymbolInfo D) × (x.symbol ≡ some i) × IsSized (sizing_input x) i)

  symbol_none :
      (x : SizingInput D) (o : Option (Mt5RiskSymbolInfo D))
      → ((size_position x o).failed ≡ []) ↔ ((i : Mt5RiskSymbolInfo D) × (o ≡ some i) × IsSized x i)
  unfolding size_position
  symbol_none x none = (λ h. absurd (ground arith), λ h. absurd (ground (arith, h.1)))
  symbol_none x (some i) = (
    λ h. (i, refl, (sizing_none x i).0 h),
    λ h. (sizing_none x i).1 (subst (IsSized x) (ground (arith, h.1)) h.2),
  )

  -- `evaluateMt5Risk` answers PASS exactly when every gate is clear and the position is sized: the
  -- kill switch setting is there and false, the market is open and the data live where they are
  -- known, the decision is to buy or sell with a stop, a target, a stop distance and enough reward,
  -- no limit is reached, the broker's symbol information is there, and the volume, or the smallest one
  -- within the limit of a loss, has its margin.
  pub pass_iff :
      (x : Mt5RiskInput D) → ((evaluate_mt5_risk x).result ≡ RiskResult.pass) ↔ IsPassed x
  unfolding evaluate_mt5_risk
  pass_iff x =
      let z = size_position (sizing_input x) x.symbol in
      let (split, join) = append_none (gate_rules x) z.failed in
      let (empty, pass) = result_of_none (gate_rules x ++ z.failed) in
      let (cleared, gates) = gate_rules_none x in
      let (sized, failed) = symbol_none (sizing_input x) x.symbol in
      (
        λ h. let (g, f) = split (empty h) in (cleared g, sized f),
        λ (g, f). pass (join (gates g, failed f)),
      )
