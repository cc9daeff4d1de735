-- ===== src/Hourly/Once.antt =====
-- A candle is analysed once, whatever the sequence of ticks, and only when it has closed.
use text.Mathlib.Text.{◌==◌ as str_eq}
use text.Mathlib.TextEquality.{eq_iff}
use mathlib.Core.Path.{subst}
use mt5_ai_trading.Prelude.{
  ℕ, suc, ◌+◌, ◌≤◌, ◌≡◌, refl, sym, ◌∙◌, Bool, true, false, ◌&&◌, ◌==◌, Option, none, some, List,
  [], ◌∷◌, ◌++◌, String, All, arith, any, update_rows, Bool-cases, inl, inr, ltb,
}
use mt5_ai_trading.Store.{Reply, replied, failed}
use mt5_ai_trading.Hourly.{
  CandleClaim, is_candle, new_claim, claim_candle, mark_candle_analyzed, mark_candle_error,
  set_analyzed, set_error, find_last_processed_candle, Desk, Analysis, System, HourlyDecision,
  HourlyTickResult, one_hour_ms, no_ticks, last_of, is_processed, finish_claim, asked,
  process_candle, process_bars, check_symbol, check_symbols, tick,
}
use mt5_ai_trading.Hourly.Counts.{
  count_rows, count_rows-append, count_rows-none, count_rows-update_rows,
}

abbrev pub is_analysis : String → ℕ → Analysis → Bool
is_analysis symbol candle a = str_eq a.symbol symbol && a.candle == candle

-- The analyses of a candle of a symbol, and the rows that claim it.
abbrev pub analyses_of : {S : Type 0} → String → ℕ → System S → ℕ
analyses_of symbol candle s = count_rows (is_analysis symbol candle) s.analyses

abbrev pub claims_of : {S : Type 0} → String → ℕ → System S → ℕ
claims_of symbol candle s = count_rows (is_candle symbol candle) s.table.rows

-- The candle had closed when it was analysed.
abbrev pub IsFormed : Analysis → Type 0
IsFormed a = a.candle + one_hour_ms ≤ a.at

same_candle :
    (symbol other : String) (candle c id : ℕ) (l : List CandleClaim)
    → any (is_candle symbol candle) l ≡ false
    → is_candle other c (new_claim symbol candle id) ≡ true
    → any (is_candle other c) l ≡ false
same_candle symbol other candle c id l free hit =
    let same : symbol ≡ other = (eq_iff symbol other).0 (ground arith) in
    let at : candle ≡ c = ground arith in
    subst (λ n. any (is_candle other n) l ≡ false) at
      (subst (λ t. any (is_candle t candle) l ≡ false) same free)

module _ {S : Type 0} where
  pub record IsSound (s : System S) : Type 0 where
    pub each :
        (symbol : String) (candle : ℕ) → analyses_of symbol candle s ≡ claims_of symbol candle s
    pub once : (symbol : String) (candle : ℕ) → claims_of symbol candle s ≤ 1
    pub formed : All IsFormed s.analyses

  -- An update of rows that keeps their symbols and candles.
  abbrev with_rows : (CandleClaim → Bool) → (CandleClaim → CandleClaim) → System S → System S
  with_rows q f s = record s { table = record (s.table) { rows = update_rows q f s.table.rows } }

  with_rows-IsSound :
      (q : CandleClaim → Bool) (f : CandleClaim → CandleClaim) (s : System S)
      → ((symbol : String) (candle : ℕ) (x : CandleClaim)
          → is_candle symbol candle (f x) ≡ is_candle symbol candle x)
      → IsSound s
      → IsSound (with_rows q f s)
  with_rows-IsSound q f s keep h = record {
    each = λ t c.
        h.each t c ∙ sym (count_rows-update_rows (is_candle t c) q f s.table.rows (keep t c));
    once = λ t c.
        omega
          (arith, h.once t c, count_rows-update_rows (is_candle t c) q f s.table.rows (keep t c));
    formed = h.formed;
  }

  finish_claim-IsSound :
      (c : CandleClaim) (now : ℕ) (d : Reply HourlyDecision) (r : HourlyTickResult) (s : System S)
      → IsSound s
      → IsSound (finish_claim c now d (r, s)).1
  unfolding mark_candle_analyzed mark_candle_error
  finish_claim-IsSound c now (replied d) r s h =
      with_rows-IsSound (λ x. x.id == c.id) (set_analyzed d.signal now) s (λ t n x. refl) h
  finish_claim-IsSound c now (failed m) r s h =
      with_rows-IsSound (λ x. x.id == c.id) (set_error m now) s (λ t n x. refl) h

  -- The system once a free candle has been claimed and its decision asked for.
  abbrev pub claimed_system : Desk S → String → ℕ → ℕ → System S → System S
  claimed_system D symbol candle now s = asked D symbol candle now (record s {
    table = record {
      rows = s.table.rows ++ new_claim symbol candle s.table.next_id ∷ [];
      next_id = suc s.table.next_id;
    };
  })

  claimed-IsSound :
      (D : Desk S) (symbol : String) (candle now : ℕ) (s : System S)
      → any (is_candle symbol candle) s.table.rows ≡ false
      → candle + one_hour_ms ≤ now
      → IsSound s
      → IsSound (claimed_system D symbol candle now s)
  claimed-IsSound D symbol candle now s free closed h =
      let row = new_claim symbol candle s.table.next_id in
      record {
        each =
            λ t c. ground (arith, h.each t c, count_rows-append (is_candle t c) s.table.rows row);
        once = λ t c. ground (
          arith,
          h.once t c,
          count_rows-append (is_candle t c) s.table.rows row,
          same_candle symbol t candle c s.table.next_id s.table.rows free,
          count_rows-none (is_candle t c) s.table.rows,
        );
        formed = (closed, h.formed);
      }

  process_candle-IsSound :
      (D : Desk S) (symbol : String) (candle now : ℕ) (r : HourlyTickResult) (s : System S)
      → IsSound s
      → IsSound (process_candle D symbol candle now (r, s)).1
  unfolding process_candle claim_candle
  process_candle-IsSound D symbol candle now r s h =
      elim (Bool-cases (ltb now (candle + one_hour_ms))) [
        | inl forming ↦ rw forming h
        | inr closed ↦
            elim (Bool-cases (is_processed (find_last_processed_candle symbol s.table) candle)) [
              | inl done ↦ rw (closed, done) h
              | inr fresh ↦ elim (Bool-cases (any (is_candle symbol candle) s.table.rows)) [
                | inl taken ↦ rw (closed, fresh, taken) h
                | inr free ↦
                    rw (closed, fresh, free)
                      (finish_claim-IsSound (new_claim symbol candle s.table.next_id) now
                        (D.decide s.rest symbol).0
                        (record r { candles_claimed = suc r.candles_claimed })
                        (claimed_system D symbol candle now s)
                        (claimed-IsSound D symbol candle now s free (ground arith) h))
              ]
            ]
      ]

  process_bars-IsSound :
      (D : Desk S) (symbol : String) (now : ℕ) (bars : Reply (List ℕ)) (r : HourlyTickResult)
      (s : System S)
      → IsSound s
      → IsSound (process_bars D symbol now bars (r, s)).1
  process_bars-IsSound D symbol now (failed m) r s h = h
  process_bars-IsSound D symbol now (replied bars) r s h = go (last_of bars)
    where
      go :
          (o : Option ℕ)
          → (let q : HourlyTickResult × System S = elim o [
            | none ↦ (r, s)
            | some candle ↦ process_candle D symbol candle now (r, s)
          ] in
              IsSound q.1)
      go none = h
      go (some candle) = process_candle-IsSound D symbol candle now r s h

  check_symbols-IsSound :
      (D : Desk S) (now : ℕ) (symbols : List String) (r : HourlyTickResult) (s : System S)
      → IsSound s
      → IsSound (check_symbols D now symbols (r, s)).1
  unfolding check_symbols check_symbol
  check_symbols-IsSound D now [] r s h = h
  check_symbols-IsSound D now (symbol ∷ symbols) r s h =
      let (r', s') = check_symbol D now symbol (r, s) in
      check_symbols-IsSound D now symbols r' s' (
        process_bars-IsSound D symbol now (D.get_historical_bars s.rest symbol)
          (record r { symbols_checked = suc r.symbols_checked }) s h)

  tick-IsSound :
      (D : Desk S) (now : ℕ) (enabled : Option Bool) (symbols : Reply (List String)) (s : System S)
      → IsSound s
      → IsSound (tick D now enabled symbols s).1
  unfolding tick
  tick-IsSound D now (some true) (replied symbols) s h =
      check_symbols-IsSound D now symbols no_ticks s h
  tick-IsSound D now (some true) (failed m) s h = h
  tick-IsSound D now (some false) symbols s h = h
  tick-IsSound D now none symbols s h = h

  -- The systems that any sequence of ticks makes of one in which nothing has been claimed: each tick
  -- may be that of a restarted process, with other services, settings and symbols, at any time, and
  -- the rest of the system may change between two of them.
  pub data IsReachable : System S → Type 0 where
    fresh :
        (rest : S) (next : ℕ)
        → IsReachable
            (record { table = record { rows = []; next_id = next }; rest = rest; analyses = [] })
    ticked :
        {s : System S} (D : Desk S) (now : ℕ) (enabled : Option Bool)
        (symbols : Reply (List String))
        → IsReachable s
        → IsReachable (tick D now enabled symbols s).1
    changed : {s : System S} (rest : S) → IsReachable s → IsReachable (record s { rest = rest })

  -- In every system that the scheduler can reach, each candle of each symbol has been analysed as
  -- often as it is claimed, at most once, and every candle had closed when it was analysed.
  pub reachable-IsSound : {s : System S} → IsReachable s → IsSound s
  reachable-IsSound (IsReachable.fresh rest next) = record {
    each = λ t c. refl;
    once = λ t c. omega arith;
    formed = tt;
  }
  reachable-IsSound (IsReachable.ticked {s} D now enabled symbols h) =
      tick-IsSound D now enabled symbols s (reachable-IsSound h)
  reachable-IsSound (IsReachable.changed rest h) =
      let before = reachable-IsSound h in
      record { each = before.each; once = before.once; formed = before.formed }
