-- ===== src/Hourly/Latest.antt =====
-- The scheduler as a function from symbols to the last candle that was processed: what the table
-- promises, without its rows.
use text.Mathlib.Text.{◌==◌ as str_eq}
use text.Mathlib.TextEquality.{eq_iff}
use mathlib.Core.Path.{fun_ext, subst}
use mt5_ai_trading.Prelude.{
  ℕ, suc, ◌+◌, ◌≡◌, refl, sym, ◌∙◌, ap, Bool, true, false, ◌==◌, Option, none, some, List, [], ◌∷◌,
  ◌++◌, String, coalesce, arith, any, update_rows, Bool-cases, inl, inr, ltb, if◌then◌else◌,
}
use mt5_ai_trading.Store.{Reply, replied, failed}
use mt5_ai_trading.Hourly.{
  CandleClaim, is_candle, new_claim, claim_candle, mark_candle_analyzed, mark_candle_error, max_of,
  set_analyzed, set_error, last_candle, find_last_processed_candle, Desk, Analysis, System,
  HourlyDecision, HourlyTickResult, one_hour_ms, last_of, is_processed, finish_claim,
  process_candle, process_bars, check_symbol,
}
use mt5_ai_trading.Hourly.Once.{claimed_system}

is_processed-max_of :
    (a c : ℕ) (o : Option ℕ)
    → is_processed (max_of a o) c ≡ false
    → (is_processed o c ≡ false) × (max_of a (some c) ≡ some c) × ((a == c) ≡ false)
is_processed-max_of a c none h = ground arith
is_processed-max_of a c (some b) h = ground arith

last_candle-append_new :
    (q : String) (l : List CandleClaim) (c : CandleClaim)
    → str_eq c.symbol q ≡ true
    → is_processed (last_candle q l) c.candle_timestamp ≡ false
    → last_candle q (l ++ c ∷ []) ≡ some c.candle_timestamp
unfolding last_candle
last_candle-append_new q [] c same h = rw same refl
last_candle-append_new q (x ∷ l) c same h = elim (Bool-cases (str_eq x.symbol q)) [
  | inl hit ↦
      let (before, greatest, other) =
        is_processed-max_of x.candle_timestamp c.candle_timestamp (last_candle q l)
          (ground arith) in
      rw (hit, last_candle-append_new q l c same before) greatest
  | inr miss ↦ rw miss (last_candle-append_new q l c same (ground arith))
]

last_candle-append_other :
    (q : String) (l : List CandleClaim) (c : CandleClaim)
    → str_eq c.symbol q ≡ false
    → last_candle q (l ++ c ∷ []) ≡ last_candle q l
unfolding last_candle
last_candle-append_other q [] c other = rw other refl
last_candle-append_other q (x ∷ l) c other = rw (last_candle-append_other q l c other) refl

last_candle-update_rows :
    (q : String) (p : CandleClaim → Bool) (f : CandleClaim → CandleClaim) (l : List CandleClaim)
    → ((x : CandleClaim)
        → ((f x).symbol ≡ x.symbol) × ((f x).candle_timestamp ≡ x.candle_timestamp))
    → last_candle q (update_rows p f l) ≡ last_candle q l
unfolding last_candle
last_candle-update_rows q p f [] keep = refl
last_candle-update_rows q p f (x ∷ l) keep =
    ground (arith, keep x, last_candle-update_rows q p f l keep)

free_of_last :
    (q : String) (c : ℕ) (l : List CandleClaim)
    → is_processed (last_candle q l) c ≡ false
    → any (is_candle q c) l ≡ false
unfolding last_candle
free_of_last q c [] h = refl
free_of_last q c (x ∷ l) h = elim (Bool-cases (str_eq x.symbol q)) [
  | inl hit ↦
      let (before, greatest, other) =
        is_processed-max_of x.candle_timestamp c (last_candle q l) (ground arith) in
      rw (hit, other, free_of_last q c l before) refl
  | inr miss ↦ rw (miss, free_of_last q c l (ground arith)) refl
]

-- The candle that is to be analysed: the last bar, if it has closed and comes after the last one
-- that was processed.
abbrev closed_after : ℕ → Option ℕ → Option ℕ → Option ℕ
closed_after now none last = none
closed_after now (some candle) last =
    if ltb now (candle + one_hour_ms)
    then none
    else if is_processed last candle
    then none
    else some candle

abbrev pub news : ℕ → Reply (List ℕ) → Option ℕ → Option ℕ
news now (failed m) last = none
news now (replied bars) last = closed_after now (last_of bars) last

abbrev pub noted : String → ℕ → Option ℕ → List Analysis → List Analysis
noted symbol now none l = l
noted symbol now (some candle) l = record { symbol = symbol; candle = candle; at = now } ∷ l

-- A function from symbols, changed at one.
abbrev pub update : (String → Option ℕ) → String → Option ℕ → String → Option ℕ
update f symbol v q = if str_eq symbol q then v else f q

update-same : (f : String → Option ℕ) (symbol : String) → update f symbol (f symbol) ≡ f
update-same f symbol = fun_ext λ q. elim (Bool-cases (str_eq symbol q)) [
  | inl hit ↦ rw hit (ap f ((eq_iff symbol q).0 hit))
  | inr miss ↦ rw miss refl
]

last_candle-claimed :
    (symbol : String) (candle id : ℕ) (l : List CandleClaim)
    → is_processed (last_candle symbol l) candle ≡ false
    → (λ q. last_candle q (l ++ new_claim symbol candle id ∷ []))
      ≡ update (λ q. last_candle q l) symbol (some candle)
last_candle-claimed symbol candle id l after = fun_ext λ q. elim (Bool-cases (str_eq symbol q)) [
  | inl hit ↦ rw hit (
      last_candle-append_new q l (new_claim symbol candle id) hit (
        subst (λ t. is_processed (last_candle t l) candle ≡ false) ((eq_iff symbol q).0 hit) after))
  | inr miss ↦ rw miss (last_candle-append_other q l (new_claim symbol candle id) miss)
]

module _ {S : Type 0} where
  -- The last candle of each symbol.
  abbrev pub latest : System S → String → Option ℕ
  latest s q = last_candle q s.table.rows

  -- A step that analyses this candle, or none, is the abstract one.
  abbrev pub Advances : String → ℕ → Option ℕ → System S → System S → Type 0
  Advances symbol now candle s s' =
      (latest s' ≡ update (latest s) symbol (coalesce candle (latest s symbol)))
      × (s'.analyses ≡ noted symbol now candle s.analyses)

  stays : (symbol : String) (now : ℕ) (s : System S) → Advances symbol now none s s
  stays symbol now s = (sym (update-same (latest s) symbol), refl)

  finish_claim-latest :
      (c : CandleClaim) (now : ℕ) (d : Reply HourlyDecision) (r : HourlyTickResult) (s : System S)
      → (latest (finish_claim c now d (r, s)).1 ≡ latest s)
        × ((finish_claim c now d (r, s)).1.analyses ≡ s.analyses)
  unfolding mark_candle_analyzed mark_candle_error
  finish_claim-latest c now (replied d) r s = (
    fun_ext λ q.
        last_candle-update_rows q (λ x. x.id == c.id) (set_analyzed d.signal now) s.table.rows
          (λ x. (refl, refl)),
    refl,
  )
  finish_claim-latest c now (failed m) r s = (
    fun_ext λ q.
        last_candle-update_rows q (λ x. x.id == c.id) (set_error m now) s.table.rows
          (λ x. (refl, refl)),
    refl,
  )

  process_candle-Advances :
      (D : Desk S) (symbol : String) (candle now : ℕ) (r : HourlyTickResult) (s : System S)
      → Advances symbol now
          (closed_after now (some candle) (latest s symbol))
          s
          (process_candle D symbol candle now (r, s)).1
  unfolding process_candle find_last_processed_candle claim_candle
  process_candle-Advances D symbol candle now r s =
      elim (Bool-cases (ltb now (candle + one_hour_ms))) [
        | inl forming ↦ rw forming (stays symbol now s)
        | inr closed ↦ elim (Bool-cases (is_processed (latest s symbol) candle)) [
          | inl done ↦ rw (closed, done) (stays symbol now s)
          | inr after ↦
              let free = free_of_last symbol candle s.table.rows after in
              let (kept, same) =
                finish_claim-latest (new_claim symbol candle s.table.next_id) now
                  (D.decide s.rest symbol).0 (record r { candles_claimed = suc r.candles_claimed })
                  (claimed_system D symbol candle now s) in
              rw (closed, after, free)
                (kept ∙ last_candle-claimed symbol candle s.table.next_id s.table.rows after, same)
        ]
      ]

  process_bars-Advances :
      (D : Desk S) (symbol : String) (now : ℕ) (bars : Reply (List ℕ)) (r : HourlyTickResult)
      (s : System S)
      → Advances symbol now
          (news now bars (latest s symbol))
          s
          (process_bars D symbol now bars (r, s)).1
  process_bars-Advances D symbol now (failed m) r s = stays symbol now s
  process_bars-Advances D symbol now (replied bars) r s = go (last_of bars)
    where
      go :
          (o : Option ℕ)
          → (let q : HourlyTickResult × System S = elim o [
            | none ↦ (r, s)
            | some candle ↦ process_candle D symbol candle now (r, s)
          ] in
              Advances symbol now (closed_after now o (latest s symbol)) s q.1)
      go none = stays symbol now s
      go (some candle) = process_candle-Advances D symbol candle now r s

  -- A round of the loop is the abstract step: the last candle of its symbol becomes the last bar, if
  -- that has closed and comes after it, and that candle is analysed; the other symbols stay.
  pub check_symbol_refines :
      (D : Desk S) (now : ℕ) (symbol : String) (r : HourlyTickResult) (s : System S)
      → Advances symbol now
          (news now (D.get_historical_bars s.rest symbol) (latest s symbol))
          s
          (check_symbol D now symbol (r, s)).1
  unfolding check_symbol
  check_symbol_refines D now symbol r s =
      process_bars-Advances D symbol now (D.get_historical_bars s.rest symbol)
        (record r { symbols_checked = suc r.symbols_checked }) s
