-- ===== src/Mt5Risk/Symbol.antt =====
-- `toRiskSymbolInfo`: the fields of MT5's symbol information that the sizing needs.
use mt5_ai_trading.Prelude.{Bool, not, ◌&&◌, Option, none, some, if◌then◌else◌}
use mt5_ai_trading.Numeric.{Decimal}

-- A field of a JSON object that is to be a number; `text` is a value that does not convert to
-- one. A `number` may be infinite, as one too large for a double is.
pub data JsonNumber (D : Decimal) : Type 0 where
  undefined null text : JsonNumber D
  number : D.Value → JsonNumber D

module _ (D : Decimal) where
  pub record Mt5SymbolFields : Type 0 where
    pub trade_contract_size : JsonNumber D
    pub trade_tick_size : JsonNumber D
    pub trade_tick_value : JsonNumber D
    pub trade_tick_value_loss : JsonNumber D
    pub trade_tick_value_profit : JsonNumber D
    pub volume_min : JsonNumber D
    pub volume_max : JsonNumber D
    pub volume_step : JsonNumber D
    pub point : JsonNumber D

  pub record Mt5RiskSymbolInfo : Type 0 where
    pub contract_size : D.Value
    pub tick_size : D.Value
    pub tick_value_loss : D.Value
    pub tick_value_profit : D.Value
    pub volume_min : D.Value
    pub volume_max : D.Value
    pub volume_step : D.Value
    pub point : D.Value

-- A number that is not `<= 0`
abbrev is_positive : (D : Decimal) → D.Value → Bool
is_positive D x = not (D.lte x (D.of_nat 0))

-- The number if it is finite and positive
abbrev positive_or : (D : Decimal) → Option D.Value → D.Value → D.Value
positive_or D none d = d
positive_or D (some x) d = if D.gt x (D.of_nat 0) then x else d

abbrev finite_or : (D : Decimal) → Option D.Value → D.Value → D.Value
finite_or D none d = d
finite_or D (some x) d = x

module _ {D : Decimal} where
  -- `a ?? b`
  abbrev present : JsonNumber D → JsonNumber D → JsonNumber D
  present JsonNumber.undefined b = b
  present JsonNumber.null b = b
  present a b = a

  -- `Number(a)`, where it is finite: `Number(undefined)` is NaN and `Number(null)` is 0.
  abbrev pub to_number : JsonNumber D → Option D.Value
  to_number JsonNumber.undefined = none
  to_number JsonNumber.null = some (D.of_nat 0)
  to_number JsonNumber.text = none
  to_number (JsonNumber.number x) = if D.is_finite x then some x else none

  -- `Number(info.point ?? tickSize)`
  abbrev point_of : JsonNumber D → D.Value → Option D.Value
  point_of JsonNumber.undefined tick_size = some tick_size
  point_of JsonNumber.null tick_size = some tick_size
  point_of p tick_size = to_number p

  abbrev pub symbol_info :
      Mt5SymbolFields D
      → D.Value
      → D.Value
      → D.Value
      → D.Value
      → D.Value
      → Option (Mt5RiskSymbolInfo D)
  symbol_info f contract_size tick_size volume_min volume_max volume_step =
      let profit = to_number (present f.trade_tick_value_profit f.trade_tick_value) in
      if is_positive D contract_size
        && is_positive D tick_size
        && is_positive D volume_min
        && is_positive D volume_max
        && is_positive D volume_step
      then some (record {
        contract_size = contract_size;
        tick_size = tick_size;
        tick_value_loss =
            positive_or D (to_number (present f.trade_tick_value_loss f.trade_tick_value))
              (finite_or D profit (D.of_nat 0));
        tick_value_profit = finite_or D profit (D.of_nat 0);
        volume_min = volume_min;
        volume_max = volume_max;
        volume_step = volume_step;
        point = positive_or D (point_of f.point tick_size) tick_size;
      })
      else none

  -- The numbers that must be finite.
  abbrev pub finite_info :
      Mt5SymbolFields D
      → Option D.Value
      → Option D.Value
      → Option D.Value
      → Option D.Value
      → Option D.Value
      → Option (Mt5RiskSymbolInfo D)
  finite_info f (some c) (some t) (some lo) (some hi) (some step) = symbol_info f c t lo hi step
  finite_info f _ _ _ _ _ = none

  unfoldable pub to_risk_symbol_info : Option (Mt5SymbolFields D) → Option (Mt5RiskSymbolInfo D)
  to_risk_symbol_info none = none
  to_risk_symbol_info (some f) =
      finite_info f (to_number f.trade_contract_size)
        (to_number (present f.trade_tick_size f.point)) (to_number f.volume_min)
        (to_number f.volume_max) (to_number f.volume_step)
