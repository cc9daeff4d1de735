-- ===== src/Numeric.antt =====
-- The decimal arithmetic of decimal.js, which the services call: a parameter of the model. `Text` is
-- a numeric string as PostgreSQL returns it (NUMERIC columns) or a service sends it, `Value` a
-- `Decimal`. `IsDecimal` holds the documented facts that the theorems use; NaN is the value that
-- is not `lte` itself, and comparisons with it are false. An infinity is no NaN and is not finite.
pub mod Whole
use mt5_ai_trading.Prelude.{ℕ, ◌≡◌, Option, none, some, Bool, true, not}

pub record Decimal : Type 1 where
  pub Text : Type 0
  pub Value : Type 0
  -- `new Decimal(text)`
  pub parse : Text → Value
  -- `new Decimal(n)`, and the numeric literal of a whole number
  pub of_nat : ℕ → Value
  pub literal : ℕ → Text
  pub plus : Value → Value → Value
  pub minus : Value → Value → Value
  pub times : Value → Value → Value
  pub div : Value → Value → Value
  pub neg : Value → Value
  pub abs : Value → Value
  pub floor : Value → Value
  pub min : Value → Value → Value
  pub max : Value → Value → Value
  pub gt : Value → Value → Bool
  pub lt : Value → Value → Bool
  pub lte : Value → Value → Bool
  pub is_zero : Value → Bool
  -- `Number.isFinite`, `isFinite()`
  pub is_finite : Value → Bool
  -- `toDecimalPlaces(n)`, `toDecimalPlaces(0, ROUND_DOWN)` and `toFixed(n)`
  pub to_decimal_places : ℕ → Value → Value
  pub round_down : Value → Value
  pub to_fixed : ℕ → Value → Text
  -- What a column NUMERIC(18,8) of PostgreSQL gives back of the text that it is sent.
  pub numeric : Text → Text

-- A column that may be NULL
abbrev pub numeric_or_null : (D : Decimal) → Option D.Text → Option D.Text
numeric_or_null D none = none
numeric_or_null D (some t) = some (D.numeric t)

abbrev pub IsNumber : (D : Decimal) → D.Value → Type 0
IsNumber D x = D.lte x x ≡ true

pub record IsDecimal (D : Decimal) : Type 0 where
  pub zero_number : IsNumber D (D.of_nat 0)
  pub zero_finite : D.is_finite (D.of_nat 0) ≡ true
  -- What is finite is no NaN, and what compares is none.
  pub finite_number : (x : D.Value) → D.is_finite x ≡ true → IsNumber D x
  pub lte_numbers : (x y : D.Value) → D.lte x y ≡ true → IsNumber D x × IsNumber D y
  -- The comparisons agree on numbers.
  pub gt-eq-not-lte : (x y : D.Value) → IsNumber D x → IsNumber D y → D.gt x y ≡ not (D.lte x y)
  pub lt-eq-not-lte : (x y : D.Value) → IsNumber D x → IsNumber D y → D.lt x y ≡ not (D.lte y x)
  -- A sum of two numbers that are not negative is not negative.
  pub plus_nonneg :
      (x y : D.Value)
      → D.lte (D.of_nat 0) x ≡ true
      → D.lte (D.of_nat 0) y ≡ true
      → D.lte (D.of_nat 0) (D.plus x y) ≡ true
  -- For finite numbers, what is left after the subtraction of a lesser or equal one that is not
  -- negative is finite and not negative.
  pub minus_nonneg :
      (x y : D.Value)
      → D.is_finite x ≡ true
      → D.is_finite y ≡ true
      → D.lte (D.of_nat 0) y ≡ true
      → D.lte y x ≡ true
      → (D.lte (D.of_nat 0) (D.minus x y) ≡ true) × (D.is_finite (D.minus x y) ≡ true)
  -- A result that is no NaN comes from operands that are none.
  pub times_number : (x y : D.Value) → IsNumber D (D.times x y) → IsNumber D x
  pub div_number : (x y : D.Value) → IsNumber D (D.div x y) → IsNumber D x
  pub floor_number : (x : D.Value) → IsNumber D (D.floor x) → IsNumber D x
  pub min_number : (x y : D.Value) → IsNumber D (D.min x y) → IsNumber D x × IsNumber D y
  -- `floor` gives a whole number that is not larger, `min` the lesser of two numbers.
  pub floor_lte : (x : D.Value) → IsNumber D x → D.lte (D.floor x) x ≡ true
  pub floor_floor : (x : D.Value) → D.floor (D.floor x) ≡ D.floor x
  pub min_lte : (x y : D.Value) → IsNumber D x → IsNumber D y → D.lte (D.min x y) x ≡ true
  pub min_lte_right : (x y : D.Value) → IsNumber D x → IsNumber D y → D.lte (D.min x y) y ≡ true
