-- ===== src/M5Cycle/Again.antt =====
-- Two ticks of the M5 scheduler within one candle.
use mathlib.Core.Path.{subst}
use mt5_ai_trading.Prelude.{ℕ, ◌≡◌, refl, sym, ap, ◌∙◌, true, false, String, some, arith, ◌∷◌}
use mt5_ai_trading.Store.{Reply, replied, failed}
use mt5_ai_trading.M5Cycle.{
  is_last, TickOutcome, Poll, CycleState, CycleWorld, Scan, skips, scans_candle, begin_tick,
  finish_tick, current_m5_boundary, cycle_answered, note_error, run_one_m5_cycle,
  run_m5_cycle_scheduler_tick,
}

is_last_self : (b : ℕ) → is_last (some b) b ≡ true
is_last_self b = ground arith

module _ {Summary : Type 0} where
  note_error-ran :
      (b at : ℕ) (o : Reply Summary) (w : CycleWorld Summary)
      → (note_error (cycle_answered b at o w)).0 ≡ TickOutcome.ran
  note_error-ran b at (replied summary) w = refl
  note_error-ran b at (failed m) w = refl

  pub begin_tick-fresh :
      (p : Poll) (s : CycleState Summary)
      → p.enabled ≡ true
      → is_last s.last_processed_boundary_ms (current_m5_boundary p.now) ≡ false
      → begin_tick p s ≡ scans_candle (current_m5_boundary p.now)
  unfolding begin_tick
  begin_tick-fresh p s on fresh = rw (on, fresh) refl

  begin_tick-same :
      (p : Poll) (s : CycleState Summary)
      → p.enabled ≡ true
      → is_last s.last_processed_boundary_ms (current_m5_boundary p.now) ≡ true
      → begin_tick p s ≡ skips TickOutcome.skipped_same_candle
  unfolding begin_tick
  begin_tick-same p s on same = rw (on, same) refl

  -- A tick on a new candle, with the answer of its scan
  tick-fresh :
      (scan : Scan Summary) (p : Poll) (w : CycleWorld Summary) (o : Reply Summary)
      → p.enabled ≡ true
      → is_last w.state.last_processed_boundary_ms (current_m5_boundary p.now) ≡ false
      → scan w.scans (current_m5_boundary p.now) ≡ o
      → run_m5_cycle_scheduler_tick scan p w
        ≡ note_error (cycle_answered (current_m5_boundary p.now) p.ends_at o w)
  unfolding run_m5_cycle_scheduler_tick run_one_m5_cycle
  tick-fresh scan p w o on fresh answer =
      ap (finish_tick scan p w) (begin_tick-fresh p w.state on fresh)
      ∙ ap (λ x. note_error (cycle_answered (current_m5_boundary p.now) p.ends_at x w)) answer

  -- After an enabled tick on a new candle whose scan answers, an enabled tick in the same candle is
  -- skipped and changes nothing.
  pub same_candle_skipped :
      (scan : Scan Summary) (p q : Poll) (w : CycleWorld Summary) (summary : Summary)
      → p.enabled ≡ true
      → q.enabled ≡ true
      → current_m5_boundary q.now ≡ current_m5_boundary p.now
      → is_last w.state.last_processed_boundary_ms (current_m5_boundary p.now) ≡ false
      → scan w.scans (current_m5_boundary p.now) ≡ replied summary
      → run_m5_cycle_scheduler_tick scan q (run_m5_cycle_scheduler_tick scan p w).1
        ≡ (TickOutcome.skipped_same_candle, (run_m5_cycle_scheduler_tick scan p w).1)
  unfolding run_m5_cycle_scheduler_tick
  same_candle_skipped scan p q w summary on on' same fresh answer =
      let b = current_m5_boundary p.now in
      let w' = (note_error (cycle_answered b p.ends_at (replied summary) w)).1 in
      let seen = ap (is_last (some b)) same ∙ is_last_self b in
      subst (λ v. run_m5_cycle_scheduler_tick scan q v ≡ (TickOutcome.skipped_same_candle, v))
        (sym (ap (λ x. x.1) (tick-fresh scan p w (replied summary) on fresh answer)))
        (ap (finish_tick scan q w') (begin_tick-same q w'.state on' seen))

  -- After an enabled tick on a new candle whose scan throws, the error is noted, the last processed
  -- candle stays, and an enabled tick in the same candle scans it again.
  pub failed_candle_retried :
      (scan : Scan Summary) (p q : Poll) (w : CycleWorld Summary) (m : String)
      → p.enabled ≡ true
      → q.enabled ≡ true
      → current_m5_boundary q.now ≡ current_m5_boundary p.now
      → is_last w.state.last_processed_boundary_ms (current_m5_boundary p.now) ≡ false
      → scan w.scans (current_m5_boundary p.now) ≡ failed m
      → ((run_m5_cycle_scheduler_tick scan p w).1 ≡ record {
        state = record w.state { last_error = some m };
        scans = record { boundary = current_m5_boundary p.now; answered = false } ∷ w.scans;
      })
        × ((run_m5_cycle_scheduler_tick scan q (run_m5_cycle_scheduler_tick scan p w).1).0
            ≡ TickOutcome.ran)
  unfolding run_m5_cycle_scheduler_tick run_one_m5_cycle
  failed_candle_retried scan p q w m on on' same fresh answer =
      let w' = (note_error (cycle_answered (current_m5_boundary p.now) p.ends_at (failed m) w)).1 in
      let noted = ap (λ x. x.1) (tick-fresh scan p w (failed m) on fresh answer) in
      let unseen = ap (is_last w.state.last_processed_boundary_ms) same ∙ fresh in
      (
        noted,
        subst (λ v. (run_m5_cycle_scheduler_tick scan q v).0 ≡ TickOutcome.ran) (sym noted)
            (ap (λ o. (finish_tick scan q w' o).0) (begin_tick-fresh q w'.state on' unseen)
              ∙ note_error-ran _ _ _ _),
      )
