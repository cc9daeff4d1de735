-- ===== src/Execution/Reconcile/Bounds.antt =====
-- What the counts of the time exits say.
use mt5_ai_trading.Prelude.{
  ℕ, ◌+◌, ◌≤◌, ◌≡◌, refl, ◌∙◌, Bool, Option, none, some, List, [], ◌∷◌, arith, length,
}
use mt5_ai_trading.Numeric.{Decimal}
use mt5_ai_trading.Store.{
  World, Action, Engine, ok, err, OpenIntradayPosition, find_open_intraday_positions,
  find_open_hourly_positions, find_open_positions_in,
}
use mt5_ai_trading.Execution.Records.{ActorContext}
use mt5_ai_trading.Execution.Session.{Horizon, SessionSettings, load_settings, exit_due}
use mt5_ai_trading.Execution.Reconcile.{
  PollResult, Attempt, nothing_polled, tally, attempt_of, poll, close_if_due, check_position,
  check_positions, open_positions, reconcile_time_exits,
}

-- What is settled and what has thrown has been checked.
abbrev pub IsBalanced : PollResult → Type 0
IsBalanced r = r.settled + r.errors ≤ r.checked

tally-IsBalanced : (x : Attempt) (r : PollResult) → IsBalanced r → IsBalanced (tally x r)
tally-IsBalanced Attempt.passed_over r h = omega arith
tally-IsBalanced Attempt.settled r h = omega arith
tally-IsBalanced Attempt.thrown r h = omega arith

checked-tally : (x : Attempt) (r : PollResult) → (tally x r).checked ≡ r.checked + 1
checked-tally Attempt.passed_over r = omega arith
checked-tally Attempt.settled r = omega arith
checked-tally Attempt.thrown r = omega arith

module _ {D : Decimal} where
  poll-IsBalanced :
      {A : Type 0} (step : A → Option (Action D Bool)) (l : List A) (r : PollResult) (w : World D)
      → IsBalanced r
      → IsBalanced (poll step l r w).0
  unfolding poll
  poll-IsBalanced step [] r w h = h
  poll-IsBalanced step (a ∷ l) r w h = go (step a) (poll-IsBalanced step l)
    where
      go :
          (o : Option (Action D Bool))
          → ((r : PollResult) (w : World D) → IsBalanced r → IsBalanced (poll step l r w).0)
          → (let q : PollResult × World D = elim o [
            | none ↦ poll step l r w
            | some m ↦ let (x, w') = m w in poll step l (tally (attempt_of x) r) w'
          ] in
              IsBalanced q.0)
      go none rest = rest r w h
      go (some m) rest =
          rest (tally (attempt_of (m w).0) r) (m w).1 (tally-IsBalanced (attempt_of (m w).0) r h)

  checked-poll :
      {A : Type 0} (f : A → Action D Bool) (l : List A) (r : PollResult) (w : World D)
      → (poll (λ a. some (f a)) l r w).0.checked ≡ r.checked + length l
  unfolding poll
  checked-poll f [] r w = omega arith
  checked-poll f (a ∷ l) r w =
      let (x, w') = f a w in
      omega (arith, checked-poll f l (tally (attempt_of x) r) w', checked-tally (attempt_of x) r)

  -- The positions that a time exit looks at.
  abbrev pub open_list : Horizon → World D → List (OpenIntradayPosition D)
  open_list h w = elim (open_positions h w).0 [ ok ps ↦ ps | err e ↦ [] ]

  check_positions_counts :
      (E : Engine D) (h : Horizon) (a : ActorContext) (id : Option ℕ)
      (ps : List (OpenIntradayPosition D)) (s : SessionSettings) (w : World D)
      → IsBalanced (check_positions E h a id ps (ok s, w)).0
        × ((check_positions E h a id ps (ok s, w)).0.checked ≡ length ps)
  unfolding check_position
  check_positions_counts E h a id [] s w = (omega arith, refl)
  check_positions_counts E h a id (p ∷ ps) s w = (
    poll-IsBalanced (check_position E h a id s w.now) (p ∷ ps) nothing_polled w (omega arith),
    checked-poll (λ q. close_if_due E h a id q (exit_due h s w.now q)) (p ∷ ps) nothing_polled w
        ∙ omega arith,
  )

  -- The time exits look at each open position of their horizon once, and the positions that they
  -- close and those that throw are together at most as many.
  pub time_exit_counts :
      (E : Engine D) (h : Horizon) (a : ActorContext) (id : Option ℕ) (w : World D)
      → IsBalanced (reconcile_time_exits E h a id w).0
        × ((reconcile_time_exits E h a id w).0.checked ≡ length (open_list h w))
  unfolding reconcile_time_exits load_settings find_open_intraday_positions
      find_open_hourly_positions find_open_positions_in
  time_exit_counts E Horizon.intraday a id w = check_positions_counts E Horizon.intraday a id _ _ w
  time_exit_counts E Horizon.hourly a id w = check_positions_counts E Horizon.hourly a id _ _ w
