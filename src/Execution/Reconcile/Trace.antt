-- ===== src/Execution/Reconcile/Trace.antt =====
-- What the time exits and the bracket poll send to the broker, over a whole poll.
use mt5_ai_trading.Prelude.{
  ℕ, ◌≡◌, refl, sym, ◌∙◌, ap, Bool, true, Option, none, some, List, [], ◌∷◌, ◌++◌, inl, inr,
}
use mathlib.Core.List.{append_assoc}
use mt5_ai_trading.Numeric.{Decimal}
use mt5_ai_trading.Domain.{ExitReason}
use mt5_ai_trading.Store.{
  World, Action, Engine, Result, ok, err, BrokerCall, pure, ◌>>◌, OpenIntradayPosition,
  find_open_intraday_positions, find_open_hourly_positions, find_open_positions_in,
}
use mt5_ai_trading.Execution.Records.{ActorContext}
use mt5_ai_trading.Execution.Session.{
  Horizon, SessionSettings, exit_due, settings_at, load_settings,
}
use mt5_ai_trading.Execution.Close.{close_position}
use mt5_ai_trading.Execution.Reconcile.{
  PollResult, nothing_polled, tally, attempt_of, poll, close_if_due, check_position,
  check_positions, reconcile_time_exits,
}
use mt5_ai_trading.Execution.Reconcile.Bounds.{open_list}
use mt5_ai_trading.Execution.Reconcile.Sent.{exit_calls, close_position-SendsExit}

-- The calls that may come of looking at positions one after the other: at each that is due, at most
-- the calls of one exit for the reason that is due. The latest call stands first.
pub data Exits {D : Decimal} (h : Horizon) (s : SessionSettings) (now : ℕ)
    : List (OpenIntradayPosition D) → List (BrokerCall D) → Type 0 where
  at_end : Exits h s now [] []
  passed_over :
      {p : OpenIntradayPosition D} {ps : List (OpenIntradayPosition D)} {cs : List (BrokerCall D)}
      → Exits h s now ps cs
      → Exits h s now (p ∷ ps) cs
  exited :
      {p : OpenIntradayPosition D} {ps : List (OpenIntradayPosition D)} {cs : List (BrokerCall D)}
      {reason : ExitReason}
      → exit_due h s now p ≡ some reason
      → Exits h s now ps cs
      → Exits h s now (p ∷ ps) (cs ++ exit_calls h p reason)

module _ {D : Decimal} where
  -- The calls that `w'` has on top of those of `w` are exits at the positions.
  abbrev pub Adds :
      Horizon → SessionSettings → ℕ → List (OpenIntradayPosition D) → World D → World D → Type 0
  Adds h s now ps w w' =
      (cs : List (BrokerCall D)) × Exits h s now ps cs × (w'.calls ≡ cs ++ w.calls)

  then_true-world : (m : Action D (Unit {0})) (w : World D) → ((m >> pure true) w).1 ≡ (m w).1
  then_true-world m w = go (m w).0 (m w).1
    where
      go :
          (r : Result D (Unit {0})) (w' : World D)
          → (let q : Result D Bool × World D = elim r [
            | ok a ↦ (ok true, w')
            | err e ↦ (err e, w')
          ] in
              q.1 ≡ w')
      go (ok a) w' = refl
      go (err e) w' = refl

  add_step :
      (E : Engine D) (h : Horizon) (a : ActorContext) (id : Option ℕ) (s : SessionSettings)
      (now : ℕ) (p : OpenIntradayPosition D) (ps : List (OpenIntradayPosition D)) (w w' : World D)
      → Adds h s now ps (close_if_due E h a id p (exit_due h s now p) w).1 w'
      → Adds h s now (p ∷ ps) w w'
  add_step E h a id s now p ps w w' (cs, ex, same) = go (exit_due h s now p) refl same
    where
      go :
          (o : Option ExitReason)
          → exit_due h s now p ≡ o
          → w'.calls ≡ cs ++ (close_if_due E h a id p o w).1.calls
          → Adds h s now (p ∷ ps) w w'
      go none due e = (cs, Exits.passed_over ex, e)
      go (some reason) due e =
          let first =
            ap (λ (v : World D). v.calls) (then_true-world (close_position E h p reason a id) w) in
          elim (close_position-SendsExit E h p reason a id w) [
            | inl quiet ↦ (cs, Exits.passed_over ex, e ∙ ap (λ l. cs ++ l) (first ∙ quiet))
            | inr sent ↦ (
              cs ++ exit_calls h p reason,
              Exits.exited due ex,
              e ∙ ap (λ l. cs ++ l) (first ∙ sent) ∙ sym (append_assoc cs _ _),
            )
          ]

  poll-Adds :
      (E : Engine D) (h : Horizon) (a : ActorContext) (id : Option ℕ) (s : SessionSettings)
      (now : ℕ) (ps : List (OpenIntradayPosition D)) (r : PollResult) (w : World D)
      → Adds h s now ps w (poll (check_position E h a id s now) ps r w).1
  unfolding poll check_position
  poll-Adds E h a id s now [] r w = ([], Exits.at_end, refl)
  poll-Adds E h a id s now (p ∷ ps) r w =
      let (x, v) = close_if_due E h a id p (exit_due h s now p) w in
      let next = tally (attempt_of x) r in
      add_step E h a id s now p ps w (poll (check_position E h a id s now) ps next v).1
        (poll-Adds E h a id s now ps next v)

  check_positions-Adds :
      (E : Engine D) (h : Horizon) (a : ActorContext) (id : Option ℕ)
      (ps : List (OpenIntradayPosition D)) (s : SessionSettings) (w : World D)
      → Adds h s w.now ps w (check_positions E h a id ps (ok s, w)).1
  check_positions-Adds E h a id [] s w = ([], Exits.at_end, refl)
  check_positions-Adds E h a id (p ∷ ps) s w = poll-Adds E h a id s w.now (p ∷ ps) nothing_polled w

  -- What the time exits send to the broker is, for the open positions of their horizon in order, at
  -- most one exit each, and only for a position and a reason that are due at the moment of the poll:
  -- its bracket legs are cancelled, and then its quantity is sold at the market.
  pub time_exits_sent :
      (E : Engine D) (h : Horizon) (a : ActorContext) (id : Option ℕ) (w : World D)
      → Adds h (settings_at h w) w.now (open_list h w) w (reconcile_time_exits E h a id w).1
  unfolding reconcile_time_exits load_settings find_open_intraday_positions
      find_open_hourly_positions find_open_positions_in
  time_exits_sent E Horizon.intraday a id w = check_positions-Adds E Horizon.intraday a id _ _ w
  time_exits_sent E Horizon.hourly a id w = check_positions-Adds E Horizon.hourly a id _ _ w
