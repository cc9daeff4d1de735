-- ===== src/Mt5Risk/Sizing.antt =====
-- `normalizeVolume`, and the broker-native position sizing of `evaluateMt5Risk`.
use mt5_ai_trading.Prelude.{
  Bool, not, ◌&&◌, ◌||◌, Option, none, some, List, [], ◌∷◌, ◌++◌, String, if◌then◌else◌,
}
use mt5_ai_trading.Numeric.{Decimal}
use mt5_ai_trading.Mt5Risk.Symbol.{Mt5RiskSymbolInfo}

module _ (D : Decimal) where
  -- What the sizing needs of the input: the entry, the stop distance, the account and the limits.
  pub record SizingInput : Type 0 where
    pub entry : D.Value
    pub risk_distance : D.Value
    pub risk_budget : D.Value
    pub max_loss : D.Value
    pub leverage : D.Value
    pub free_margin : D.Value
    pub margin_buffer_pct : D.Value

  pub record Sizing : Type 0 where
    pub failed : List String
    pub volume : D.Value
    pub loss_per_lot : D.Value
    pub raw_volume : D.Value
    pub expected_loss : D.Value
    pub margin_required : D.Value

unfoldable pub normalize_volume : (D : Decimal) → D.Value → D.Value → D.Value → D.Value → D.Value
normalize_volume D raw lo hi step =
    if D.lt raw lo
    then D.of_nat 0
    else if D.lte step (D.of_nat 0)
    then D.min raw hi
    else D.times (D.floor (D.div (D.min raw hi) step)) step

module _ {D : Decimal} where
  -- `symbol.tickValueLoss || symbol.tickValueProfit`: zero and NaN are passed over.
  abbrev tick_value : Mt5RiskSymbolInfo D → D.Value
  tick_value i =
      if D.is_zero i.tick_value_loss || not (D.lte i.tick_value_loss i.tick_value_loss)
      then i.tick_value_profit
      else i.tick_value_loss

  unfoldable pub loss_per_lot : SizingInput D → Mt5RiskSymbolInfo D → D.Value
  loss_per_lot x i =
      if D.gt i.tick_size (D.of_nat 0) && D.gt x.risk_distance (D.of_nat 0)
      then D.times (D.div x.risk_distance i.tick_size) (tick_value i)
      else D.of_nat 0

  unfoldable pub raw_volume : SizingInput D → Mt5RiskSymbolInfo D → D.Value
  unfolding loss_per_lot
  raw_volume x i =
      if D.gt (loss_per_lot x i) (D.of_nat 0)
      then D.div x.risk_budget (loss_per_lot x i)
      else D.of_nat 0

  unfoldable pub normal_volume : SizingInput D → Mt5RiskSymbolInfo D → D.Value
  unfolding normalize_volume raw_volume
  normal_volume x i = normalize_volume D (raw_volume x i) i.volume_min i.volume_max i.volume_step

  -- The volume that is traded, and what speaks against it: the normal one, else the smallest of the
  -- broker if its loss is within the limit of a trade.
  unfoldable pub chosen_volume : SizingInput D → Mt5RiskSymbolInfo D → D.Value × List String
  unfolding normal_volume loss_per_lot
  chosen_volume x i =
      if D.lte (normal_volume x i) (D.of_nat 0)
      then if D.gt (loss_per_lot x i) (D.of_nat 0)
        then if D.lte (D.times i.volume_min (loss_per_lot x i)) x.max_loss
          then (i.volume_min, [])
          else (normal_volume x i, "MINIMUM_VOLUME_EXCEEDS_RISK" ∷ [])
        else (normal_volume x i, "POSITION_SIZE_INVALID" ∷ [])
      else (normal_volume x i, [])

  unfoldable pub margin_required : SizingInput D → Mt5RiskSymbolInfo D → D.Value → D.Value
  margin_required x i volume = D.div (D.times (D.times volume i.contract_size) x.entry) x.leverage

  unfoldable pub margin_allowance : SizingInput D → D.Value
  margin_allowance x = D.div (D.times x.free_margin x.margin_buffer_pct) (D.of_nat 100)

  abbrev can_verify : SizingInput D → Mt5RiskSymbolInfo D → D.Value → Bool
  can_verify x i volume =
      D.gt volume (D.of_nat 0) && D.gt i.contract_size (D.of_nat 0) && D.gt x.leverage (D.of_nat 0)

  -- The margin of a volume, and what speaks against it.
  unfoldable pub check_margin :
      SizingInput D → Mt5RiskSymbolInfo D → D.Value → D.Value × List String
  unfolding margin_required margin_allowance
  check_margin x i volume =
      if can_verify x i volume
      then (
        margin_required x i volume,
        if D.gt (margin_required x i volume) (margin_allowance x)
            then "INSUFFICIENT_MARGIN" ∷ []
            else [],
      )
      else (D.of_nat 0, if D.gt volume (D.of_nat 0) then "MARGIN_UNVERIFIABLE" ∷ [] else [])

  unfoldable pub size_position : SizingInput D → Option (Mt5RiskSymbolInfo D) → Sizing D
  unfolding chosen_volume check_margin raw_volume loss_per_lot
  size_position x none = record {
    failed = "SYMBOL_INFO_UNAVAILABLE" ∷ [];
    volume = D.of_nat 0;
    loss_per_lot = D.of_nat 0;
    raw_volume = D.of_nat 0;
    expected_loss = D.of_nat 0;
    margin_required = D.of_nat 0;
  }
  size_position x (some i) =
      let (volume, size_failed) = chosen_volume x i in
      let (margin, margin_failed) = check_margin x i volume in
      record {
        failed = size_failed ++ margin_failed;
        volume = volume;
        loss_per_lot = loss_per_lot x i;
        raw_volume = raw_volume x i;
        expected_loss = D.times volume (loss_per_lot x i);
        margin_required = margin;
      }
