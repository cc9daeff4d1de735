-- ===== src/M5Cycle/Tests.antt =====
-- Ticks of the M5 scheduler, with numbers for summaries.
use mt5_ai_trading.Prelude.{ℕ, ◌≡◌, refl, true, false, some, [], ◌∷◌, arith}
use mt5_ai_trading.Store.{replied, failed}
use mt5_ai_trading.M5Cycle.{
  TickOutcome, scans_candle, begin_tick, end_tick, Poll, CycleWorld, Scan, current_m5_boundary,
  get_m5_cycle_status, run_m5_cycle_scheduler_tick, reset_m5_cycle_scheduler_state,
}
use mt5_ai_trading.M5Cycle.Once.{IsSound, Runs, answered_scans, runs-IsSound}
use mt5_ai_trading.M5Cycle.Overlap.{overlap_scans_twice}
use mt5_ai_trading.M5Cycle.Again.{same_candle_skipped, failed_candle_retried}

abbrev nothing_yet : CycleWorld ℕ
nothing_yet = record { state = reset_m5_cycle_scheduler_state; scans = [] }

abbrev poll_at : ℕ → Poll
poll_at t = record { enabled = true; now = t; ends_at = t }

-- The scan fails when it is called for the first time.
abbrev flaky : Scan ℕ
flaky [] b = failed "no market data"
flaky (c ∷ cs) b = replied b

abbrev steady : Scan ℕ
steady cs b = replied b

abbrev failed_once : CycleWorld ℕ
failed_once = record {
  state = record nothing_yet.state { last_error = some "no market data" };
  scans = record { boundary = 300_000; answered = false } ∷ [];
}

status_test :
    (get_m5_cycle_status true 320_000
      (run_m5_cycle_scheduler_tick steady (poll_at 310_000) nothing_yet).1.state).next_expected_at
    ≡ 600_000
unfolding get_m5_cycle_status run_m5_cycle_scheduler_tick
status_test = refl

begins : begin_tick (poll_at 310_000) nothing_yet.state ≡ scans_candle 300_000
unfolding begin_tick
begins = refl

-- The scan of a candle is asked for, and answers later.
first_asked : Runs 1 nothing_yet (300_000 ∷ []) 310_000
first_asked =
    Runs.begun (poll_at 310_000) 300_000 (Runs.starts 0 refl) (omega arith) (omega arith) begins

runs-IsSound_example : IsSound (end_tick 300_000 500_000 (replied 7) nothing_yet).1 500_000
runs-IsSound_example =
    runs-IsSound (end_tick 300_000 500_000 (replied 7) nothing_yet).1 [] 500_000
      (Runs.settled [] 300_000 [] 500_000 (replied 7) first_asked (omega arith))

same_candle_skipped_example :
    run_m5_cycle_scheduler_tick steady
      (poll_at 320_000)
      (run_m5_cycle_scheduler_tick steady (poll_at 310_000) nothing_yet).1
    ≡ (
      TickOutcome.skipped_same_candle,
      (run_m5_cycle_scheduler_tick steady (poll_at 310_000) nothing_yet).1,
    )
unfolding current_m5_boundary
same_candle_skipped_example =
    same_candle_skipped steady (poll_at 310_000) (poll_at 320_000) nothing_yet 300_000 refl refl
      refl refl refl

failed_candle_retried_example :
    ((run_m5_cycle_scheduler_tick flaky (poll_at 310_000) nothing_yet).1 ≡ failed_once)
    × ((run_m5_cycle_scheduler_tick flaky
          (poll_at 320_000)
          (run_m5_cycle_scheduler_tick flaky (poll_at 310_000) nothing_yet).1).0
        ≡ TickOutcome.ran)
unfolding current_m5_boundary
failed_candle_retried_example =
    failed_candle_retried flaky (poll_at 310_000) (poll_at 320_000) nothing_yet "no market data"
      refl refl refl refl refl

overlap_scans_twice_example :
    (v : CycleWorld ℕ) × (t : ℕ) × Runs 2 v [] t × (answered_scans v.scans ≡ 300_000 ∷ 300_000 ∷ [])
unfolding current_m5_boundary
overlap_scans_twice_example =
    overlap_scans_twice (poll_at 310_000) (poll_at 320_000) nothing_yet 0 7 8 (Runs.starts 0 refl)
      (omega arith) (omega arith) refl refl refl refl
