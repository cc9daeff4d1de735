-- ===== src/Shadow/Bars.antt =====
-- `toBars` and `barsNeededSince`, and the market data behind `getMt5Bars`.
use mt5_ai_trading.Prelude.{
  ℕ, ◌+◌, ◌-◌, ◌*◌, ◌/◌, Option, none, some, List, [], ◌∷◌, String, leb, where_rows, if◌then◌else◌,
}
use mt5_ai_trading.Numeric.{Decimal}
use mt5_ai_trading.Store.{Reply}

pub data Timeframe : Type 0 where
  m1 m5 : Timeframe

module _ (D : Decimal) where
  -- A bar as the MT5 bridge sends it; `none` is a value that is not a finite number. The time is in
  -- seconds, and a close may be NaN.
  pub record RawBar : Type 0 where
    pub time : Option ℕ
    pub high : Option D.Value
    pub low : Option D.Value
    pub close : D.Value

  -- `SimpleBar`, without the open price, which nothing reads
  pub record SimpleBar : Type 0 where
    pub time : ℕ
    pub high : D.Value
    pub low : D.Value
    pub close : D.Value

  pub record Market : Type 0 where
    pub get_mt5_bars : String → Timeframe → ℕ → Reply (List RawBar)

  abbrev with_finite :
      Option ℕ → Option D.Value → Option D.Value → D.Value → List SimpleBar → List SimpleBar
  with_finite (some t) (some h) (some l) c rest =
      record { time = t; high = h; low = l; close = c } ∷ rest
  with_finite _ _ _ _ rest = rest

  -- The bars whose time, high and low are finite
  abbrev finite_bars : List RawBar → List SimpleBar
  finite_bars [] = []
  finite_bars (b ∷ bs) = with_finite b.time b.high b.low b.close (finite_bars bs)

  abbrev insert_bar : SimpleBar → List SimpleBar → List SimpleBar
  insert_bar b [] = b ∷ []
  insert_bar b (x ∷ xs) =
      let rest = insert_bar b xs in if leb b.time x.time then b ∷ x ∷ xs else x ∷ rest

  -- `sort((a, b) => a.time - b.time)`
  abbrev sort_bars : List SimpleBar → List SimpleBar
  sort_bars [] = []
  sort_bars (b ∷ bs) = insert_bar b (sort_bars bs)

  unfoldable pub to_bars : List RawBar → List SimpleBar
  to_bars raw = sort_bars (finite_bars raw)

  -- The milliseconds of the bar's time
  abbrev pub opens_at : SimpleBar → ℕ
  opens_at b = b.time * 1000

  -- `filter((bar) => bar.time * 1000 >= since)`; a date that is not there compares with nothing.
  abbrev pub bars_since : Option ℕ → List SimpleBar → List SimpleBar
  bars_since none bars = []
  bars_since (some since) bars = where_rows (λ b. leb since (opens_at b)) bars

abbrev five_minutes_ms : ℕ
five_minutes_ms = 300_000

abbrev at_most : ℕ → ℕ → ℕ
at_most limit n = if leb limit n then limit else n

-- `barsNeededSince(since, 5)` at the time `now`, rounded up, with the buffer of 20
unfoldable pub bars_needed_since : ℕ → ℕ → ℕ
bars_needed_since since now =
    at_most 2000 ((now - since + (five_minutes_ms - 1)) / five_minutes_ms + 20)
