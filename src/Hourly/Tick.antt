-- ===== src/Hourly/Tick.antt =====
-- `tick` of apps/api/src/services/hourly-scheduler.ts. The bars of a symbol and the decision on it
-- (`createHourlyDecisionAndProposal`) are the desk's: they read and change the rest of the system.
use mt5_ai_trading.Prelude.{
  ℕ, suc, ◌+◌, Bool, true, false, Option, none, some, List, [], ◌∷◌, String, ltb, leb, is_empty,
  if◌then◌else◌,
}
use mt5_ai_trading.Store.{Reply, replied, failed}
use mt5_ai_trading.Hourly.Candles.{
  CandleClaim, CandleTable, claim_candle, mark_candle_analyzed, mark_candle_error,
  find_last_processed_candle,
}

abbrev pub one_hour_ms : ℕ
one_hour_ms = 3_600_000

-- What the scheduler reads of a decision: the id of its signal, and whether there is a proposal.
pub record HourlyDecision : Type 0 where
  pub signal : Option ℕ
  pub has_proposal : Bool

-- The services behind the scheduler, on the rest of the system: the open times of the bars that the
-- trading engine has, and the decision on a symbol.
pub record Desk (S : Type 0) : Type 0 where
  pub get_historical_bars : S → String → Reply (List ℕ)
  pub decide : S → String → Reply HourlyDecision × S

-- A decision that the scheduler has asked for, the candle that it had claimed, and the time.
pub record Analysis : Type 0 where
  pub symbol : String
  pub candle : ℕ
  pub at : ℕ

-- The latest analysis stands first.
pub record System (S : Type 0) : Type 0 where
  pub table : CandleTable
  pub rest : S
  pub analyses : List Analysis

-- `HourlyTickResult`
pub record HourlyTickResult : Type 0 where
  pub symbols_checked : ℕ
  pub candles_claimed : ℕ
  pub signals_created : ℕ
  pub errors : ℕ

abbrev pub no_ticks : HourlyTickResult
no_ticks = record { symbols_checked = 0; candles_claimed = 0; signals_created = 0; errors = 0 }

-- `bars[bars.length - 1]`
abbrev pub last_of : List ℕ → Option ℕ
last_of [] = none
last_of (b ∷ bs) = let rest = last_of bs in if is_empty bs then some b else rest

-- `lastProcessed && lastProcessed.getTime() >= candleOpen.getTime()`
abbrev pub is_processed : Option ℕ → ℕ → Bool
is_processed none candle = false
is_processed (some last) candle = leb candle last

abbrev count_proposal : Bool → HourlyTickResult → HourlyTickResult
count_proposal true r = record r { signals_created = suc r.signals_created }
count_proposal false r = r

abbrev count_error : HourlyTickResult → HourlyTickResult
count_error r = record r { errors = suc r.errors }

module _ {S : Type 0} where
  -- The claim's row once the decision has come or has thrown.
  abbrev pub finish_claim :
      CandleClaim
      → ℕ
      → Reply HourlyDecision
      → HourlyTickResult × System S
      → HourlyTickResult × System S
  finish_claim c now (replied d) (r, s) = (
    count_proposal d.has_proposal r,
    record s { table = mark_candle_analyzed c.id d.signal now s.table },
  )
  finish_claim c now (failed message) (r, s) =
      (count_error r, record s { table = mark_candle_error c.id message now s.table })

  abbrev pub asked : Desk S → String → ℕ → ℕ → System S → System S
  asked D symbol candle now s = record s {
    rest = (D.decide s.rest symbol).1;
    analyses = record { symbol = symbol; candle = candle; at = now } ∷ s.analyses;
  }

  -- `if (!claim) continue`
  abbrev pub analyze_claim :
      Desk S
      → String
      → ℕ
      → ℕ
      → Option CandleClaim
      → HourlyTickResult × System S
      → HourlyTickResult × System S
  analyze_claim D symbol candle now none (r, s) = (r, s)
  analyze_claim D symbol candle now (some c) (r, s) =
      finish_claim c now (D.decide s.rest symbol).0
        (record r { candles_claimed = suc r.candles_claimed }, asked D symbol candle now s)

  unfoldable pub process_candle :
      Desk S → String → ℕ → ℕ → HourlyTickResult × System S → HourlyTickResult × System S
  unfolding claim_candle find_last_processed_candle mark_candle_analyzed mark_candle_error
  process_candle D symbol candle now (r, s) =
      if ltb now (candle + one_hour_ms)
      then (r, s)
      else if is_processed (find_last_processed_candle symbol s.table) candle
      then (r, s)
      else let (claim, table) = claim_candle symbol candle s.table in
        analyze_claim D symbol candle now claim (r, record s { table = table })

  abbrev pub process_bars :
      Desk S
      → String
      → ℕ
      → Reply (List ℕ)
      → HourlyTickResult × System S
      → HourlyTickResult × System S
  process_bars D symbol now (failed message) (r, s) = (count_error r, s)
  process_bars D symbol now (replied bars) (r, s) = elim (last_of bars) [
    | none ↦ (r, s)
    | some candle ↦ process_candle D symbol candle now (r, s)
  ]

  -- One round of the loop
  unfoldable pub check_symbol :
      Desk S → ℕ → String → HourlyTickResult × System S → HourlyTickResult × System S
  unfolding process_candle
  check_symbol D now symbol (r, s) =
      process_bars D symbol now (D.get_historical_bars s.rest symbol)
        (record r { symbols_checked = suc r.symbols_checked }, s)

  unfoldable pub check_symbols :
      Desk S → ℕ → List String → HourlyTickResult × System S → HourlyTickResult × System S
  unfolding check_symbol
  check_symbols D now [] q = q
  check_symbols D now (symbol ∷ symbols) q =
      check_symbols D now symbols (check_symbol D now symbol q)

  -- `tick`; `enabled` is `hourlyModeEnabled`, or `none` when the settings cannot be loaded, and
  -- `symbols` is the answer of `findEnabledWatchlistSymbols`.
  unfoldable pub tick :
      Desk S → ℕ → Option Bool → Reply (List String) → System S → HourlyTickResult × System S
  unfolding check_symbols
  tick D now (some true) (replied symbols) s = check_symbols D now symbols (no_ticks, s)
  tick D now _ _ s = (no_ticks, s)
