-- ===== src/M5Cycle/Overlap.antt =====
-- What becomes of a candle when a tick starts while the scan of another one runs.
use mt5_ai_trading.Prelude.{ℕ, ◌≡◌, refl, ap, ◌∙◌, ◌≤◌, true, false, [], ◌∷◌, arith}
use mt5_ai_trading.Store.{replied}
use mt5_ai_trading.M5Cycle.{Poll, CycleWorld, is_last, current_m5_boundary, end_tick, scans_candle}
use mt5_ai_trading.M5Cycle.Again.{begin_tick-fresh}
use mt5_ai_trading.M5Cycle.Once.{Runs, answered_scans}

module _ {Summary : Type 0} where
  -- If a second scan may run beside the first one, then from whatever the scheduler reaches, two
  -- enabled ticks in the same new candle can lead to a state in which that candle has been answered
  -- twice.
  pub overlap_scans_twice :
      (p q : Poll) (w : CycleWorld Summary) (t : ℕ) (first second : Summary)
      → Runs 2 w [] t
      → t ≤ p.now
      → p.now ≤ q.now
      → p.enabled ≡ true
      → q.enabled ≡ true
      → current_m5_boundary q.now ≡ current_m5_boundary p.now
      → is_last w.state.last_processed_boundary_ms (current_m5_boundary p.now) ≡ false
      → (v : CycleWorld Summary) × (t' : ℕ) × Runs 2 v [] t'
        × (answered_scans v.scans
            ≡ current_m5_boundary p.now ∷ current_m5_boundary p.now ∷ answered_scans w.scans)
  unfolding end_tick
  overlap_scans_twice p q w t first second reached le le' on on' same fresh =
      let b = current_m5_boundary p.now in
      let unseen = ap (is_last w.state.last_processed_boundary_ms) same ∙ fresh in
      let one = Runs.begun p b reached le (omega arith) (begin_tick-fresh p w.state on fresh) in
      let two =
        Runs.begun q b one le' (omega arith)
          (begin_tick-fresh q w.state on' unseen ∙ ap scans_candle same) in
      let half = Runs.settled [] b (b ∷ []) q.now (replied first) two (omega arith) in
      (_, q.now, Runs.settled [] b [] q.now (replied second) half (omega arith), refl)
