-- ===== src/M5Cycle/Scheduler.antt =====
-- `runM5CycleSchedulerTick`, `runOneM5Cycle` and `getM5CycleStatus`. A tick awaits its scan, and the
-- timer starts other ticks meanwhile: `begin_tick` and `end_tick` are its two halves. The messages go
-- to the console.
use mt5_ai_trading.Prelude.{
  ℕ, ◌+◌, ◌*◌, ◌/◌, ◌==◌, Bool, true, false, Option, none, some, List, ◌∷◌, String, if◌then◌else◌,
}
use mt5_ai_trading.Store.{Reply, replied, failed}

abbrev pub five_minutes_ms : ℕ
five_minutes_ms = 300_000

unfoldable pub current_m5_boundary : ℕ → ℕ
current_m5_boundary now = now / five_minutes_ms * five_minutes_ms

-- A call of `runM5OpportunityScan` for a candle, and whether it answered.
pub record ScanCall : Type 0 where
  pub boundary : ℕ
  pub answered : Bool

pub data TickOutcome : Type 0 where
  skipped_disabled skipped_same_candle ran : TickOutcome

pub data TickStart : Type 0 where
  skips : TickOutcome → TickStart
  scans_candle : ℕ → TickStart

-- What a tick finds: the setting, the time, and the time when its cycle ends.
pub record Poll : Type 0 where
  pub enabled : Bool
  pub now : ℕ
  pub ends_at : ℕ

abbrev pub is_last : Option ℕ → ℕ → Bool
is_last none boundary = false
is_last (some b) boundary = boundary == b

module _ (Summary : Type 0) where
  -- The variables of the module
  pub record CycleState : Type 0 where
    pub last_processed_boundary_ms : Option ℕ
    pub last_summary : Option Summary
    pub last_cycle_at : Option ℕ
    pub last_error : Option String

  -- With the scans so far, the latest first
  pub record CycleWorld : Type 0 where
    pub state : CycleState
    pub scans : List ScanCall

  -- `runM5OpportunityScan`: any answer that depends on the scans so far and the candle.
  abbrev pub Scan : Type 0
  Scan = List ScanCall → ℕ → Reply Summary

  -- `getM5CycleStatus`
  pub record M5CycleStatus : Type 0 where
    pub enabled : Bool
    pub last_cycle_at : Option ℕ
    pub last_candle_timestamp : Option ℕ
    pub last_summary : Option Summary
    pub last_error : Option String
    pub next_expected_at : ℕ

module _ {Summary : Type 0} where
  -- `resetM5CycleSchedulerStateForTests`, also the values of the module when it is loaded
  abbrev pub reset_m5_cycle_scheduler_state : CycleState Summary
  reset_m5_cycle_scheduler_state = record {
    last_processed_boundary_ms = none;
    last_summary = none;
    last_cycle_at = none;
    last_error = none;
  }

  unfoldable pub get_m5_cycle_status : Bool → ℕ → CycleState Summary → M5CycleStatus Summary
  unfolding current_m5_boundary
  get_m5_cycle_status on now s = record {
    enabled = on;
    last_cycle_at = s.last_cycle_at;
    last_candle_timestamp = s.last_processed_boundary_ms;
    last_summary = s.last_summary;
    last_error = s.last_error;
    next_expected_at = current_m5_boundary now + five_minutes_ms;
  }

  abbrev pub cycle_answered :
      ℕ → ℕ → Reply Summary → CycleWorld Summary → Reply Summary × CycleWorld Summary
  cycle_answered boundary at (replied summary) w = (
    replied summary,
    record {
      state = record {
        last_processed_boundary_ms = some boundary;
        last_summary = some summary;
        last_cycle_at = some at;
        last_error = none;
      };
      scans = record { boundary = boundary; answered = true } ∷ w.scans;
    },
  )
  cycle_answered boundary at (failed m) w =
      (failed m, record w { scans = record { boundary = boundary; answered = false } ∷ w.scans })

  unfoldable pub run_one_m5_cycle :
      Scan Summary → ℕ → ℕ → CycleWorld Summary → Reply Summary × CycleWorld Summary
  run_one_m5_cycle scan boundary at w = cycle_answered boundary at (scan w.scans boundary) w

  abbrev pub note_error : Reply Summary × CycleWorld Summary → TickOutcome × CycleWorld Summary
  note_error (replied summary, w) = (TickOutcome.ran, w)
  note_error (failed m, w) =
      (TickOutcome.ran, record w { state = record w.state { last_error = some m } })

  -- The tick up to its `await`: it is skipped, or it asks for the scan of a candle.
  unfoldable pub begin_tick : Poll → CycleState Summary → TickStart
  unfolding current_m5_boundary
  begin_tick p s =
      if p.enabled
      then if is_last s.last_processed_boundary_ms (current_m5_boundary p.now)
        then skips TickOutcome.skipped_same_candle
        else scans_candle (current_m5_boundary p.now)
      else skips TickOutcome.skipped_disabled

  -- The tick after its `await`, once the scan has settled; other ticks may have run meanwhile.
  unfoldable pub end_tick :
      ℕ → ℕ → Reply Summary → CycleWorld Summary → TickOutcome × CycleWorld Summary
  end_tick boundary at answer w = note_error (cycle_answered boundary at answer w)

  abbrev pub finish_tick :
      Scan Summary → Poll → CycleWorld Summary → TickStart → TickOutcome × CycleWorld Summary
  finish_tick scan p w (skips outcome) = (outcome, w)
  finish_tick scan p w (scans_candle boundary) =
      note_error (run_one_m5_cycle scan boundary p.ends_at w)

  -- A tick during whose scan no other one runs.
  unfoldable pub run_m5_cycle_scheduler_tick :
      Scan Summary → Poll → CycleWorld Summary → TickOutcome × CycleWorld Summary
  unfolding begin_tick run_one_m5_cycle
  run_m5_cycle_scheduler_tick scan p w = finish_tick scan p w (begin_tick p w.state)
