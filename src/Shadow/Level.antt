-- ===== src/Shadow/Level.antt =====
-- What becomes of a pending shadow trade that has no trigger price.
use mt5_ai_trading.Prelude.{
  ℕ, ◌≡◌, refl, ap, ◌∙◌, ◌*◌, ◌==◌, true, false, some, none, List, [], ◌∷◌, ◌++◌, All, find, leb,
  arith,
}
use mt5_ai_trading.Numeric.{Decimal}
use mt5_ai_trading.Store.{replied}
use mt5_ai_trading.Store.Tables.{find-update_rows_at}
use mt5_ai_trading.Shadow.{
  ShadowTrade, ShadowOrderType, ShadowStatus, ShadowWatcherTickSummary, RawBar, SimpleBar, Market,
  Timeframe, is_row, set_entered, enter_at, trigger_at, opens_at, to_bars, bars_since,
  bars_needed_since, trigger_level, first_trigger, is_triggered_by_candle, process_awaiting_trigger,
}

module _ {D : Decimal} where
  abbrev pub IsBelowZero : SimpleBar D → Type 0
  IsBelowZero b = D.lte (D.of_nat 0) b.high ≡ false

  trigger_level_zero :
      (t : ShadowTrade D) → t.trigger_price ≡ none → trigger_level D t ≡ some (D.of_nat 0)
  unfolding trigger_level
  trigger_level_zero t missing = rw missing refl

  first_trigger-sell_limit :
      (t : ShadowTrade D) (before : List (SimpleBar D)) (b : SimpleBar D)
      (after : List (SimpleBar D))
      → t.order_type ≡ ShadowOrderType.sell_limit
      → All IsBelowZero before
      → D.lte (D.of_nat 0) b.high ≡ true
      → first_trigger D t (D.of_nat 0) (before ++ b ∷ after) ≡ some b
  unfolding first_trigger is_triggered_by_candle
  first_trigger-sell_limit t [] b after order low high = rw (order, high) refl
  first_trigger-sell_limit t (x ∷ xs) b after order low high =
      rw (order, low.0) (first_trigger-sell_limit t xs b after order low.1 high)

  process_awaiting-early :
      (M : Market D) (now : ℕ) (t : ShadowTrade D) (n : ShadowWatcherTickSummary)
      (l : List (ShadowTrade D))
      → leb t.plan_expiry now ≡ false
      → process_awaiting_trigger D M now t (n, l) ≡ trigger_at D M now t (trigger_level D t) (n, l)
  unfolding process_awaiting_trigger
  process_awaiting-early M now t n l early = rw early refl

  trigger_at-bars :
      (M : Market D) (now : ℕ) (t : ShadowTrade D) (level : D.Value) (n : ShadowWatcherTickSummary)
      (l : List (ShadowTrade D)) (raw : List (RawBar D)) (bars : List (SimpleBar D))
      → M.get_mt5_bars t.symbol Timeframe.m5 (bars_needed_since t.created_at now) ≡ replied raw
      → bars_since D (some t.created_at) (to_bars D raw) ≡ bars
      → trigger_at D M now t (some level) (n, l)
        ≡ enter_at D t level (first_trigger D t level bars) (n, l)
  trigger_at-bars M now t level n l raw bars answer since = rw (answer, since) refl

  -- A pending SELL_LIMIT trade before its expiry that has no trigger price is entered at the price
  -- zero, whatever its planned entry and its entry zone, at the time of the first bar since its
  -- creation whose high is not below zero: the row that stands under its id is the trade with this
  -- status, entry and time.
  pub trigger_level_null :
      (M : Market D) (now : ℕ) (t : ShadowTrade D) (n : ShadowWatcherTickSummary)
      (l : List (ShadowTrade D)) (raw : List (RawBar D)) (before : List (SimpleBar D))
      (b : SimpleBar D) (after : List (SimpleBar D))
      → t.trigger_price ≡ none
      → t.order_type ≡ ShadowOrderType.sell_limit
      → t.status ≡ ShadowStatus.awaiting_trigger
      → leb t.plan_expiry now ≡ false
      → M.get_mt5_bars t.symbol Timeframe.m5 (bars_needed_since t.created_at now) ≡ replied raw
      → bars_since D (some t.created_at) (to_bars D raw) ≡ before ++ b ∷ after
      → All IsBelowZero before
      → D.lte (D.of_nat 0) b.high ≡ true
      → find (λ u. u.id == t.id) l ≡ some t
      → find (λ u. u.id == t.id) (process_awaiting_trigger D M now t (n, l)).1
        ≡ some (record t {
          status = ShadowStatus.entered;
          actual_shadow_entry = some (D.of_nat 0);
          entered_at = some (b.time * 1000);
        })
  trigger_level_null M now t n l raw before b after missing order pending early answer bars low high
        row =
      let same : t.id == t.id ≡ true = ground arith in
      let entered =
        process_awaiting-early M now t n l early
        ∙ ap (λ o. trigger_at D M now t o (n, l)) (trigger_level_zero t missing)
        ∙ trigger_at-bars M now t (D.of_nat 0) n l raw (before ++ b ∷ after) answer bars
        ∙ ap (λ o. enter_at D t (D.of_nat 0) o (n, l))
            (first_trigger-sell_limit t before b after order low high) in
      ap (λ q. find (λ u. u.id == t.id) q.1) entered
      ∙ find-update_rows_at (λ u. u.id == t.id) (is_row D t.id ShadowStatus.awaiting_trigger)
          (set_entered D (D.of_nat 0) (opens_at D b)) l t (λ x. refl) row
          (ground (arith, same, pending))
