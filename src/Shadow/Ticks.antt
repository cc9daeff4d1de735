-- ===== src/Shadow/Ticks.antt =====
-- A tick of the watcher moves every trade along the state machine.
use mt5_ai_trading.Prelude.{
  ℕ, ◌≡◌, refl, ◌≤◌, ◌<◌, true, Option, none, some, List, [], ◌∷◌, All, update_rows, arith, leb,
  Bool-cases, inl, inr,
}
use mathlib.Core.Path.{subst}
use mt5_ai_trading.Numeric.{Decimal}
use mt5_ai_trading.Shadow.{
  ShadowStatus, ShadowTrade, SimpleBar, Market, Plans, Outcome, ShadowWatcherTickSummary, nothing,
  running, closes, is_row, set_expired, set_entered, set_excursions, enter_at, trigger_at,
  trigger_level, first_trigger, is_triggered_by_candle, process_awaiting_trigger, record_outcome,
  process_entered_trade, evaluate_entered_trade, each_row, rows_with, run_shadow_trade_watcher_tick,
  opens_at,
}
use mt5_ai_trading.Shadow.Graph.{
  ShadowStep, ShadowPath, path_trans, has_status-eq, IsComplete, path-IsComplete,
}

module _ {D : Decimal} where
  -- Row by row, each trade has gone along a path of the machine.
  abbrev pub Follows : ℕ → List (ShadowTrade D) → List (ShadowTrade D) → Type 0
  Follows now [] [] = Unit
  Follows now (t ∷ ts) (u ∷ us) = ShadowPath now t u × Follows now ts us
  Follows now _ _ = ⊥

  Follows-refl : (now : ℕ) (l : List (ShadowTrade D)) → Follows now l l
  Follows-refl now [] = tt
  Follows-refl now (t ∷ ts) = (ShadowPath.here, Follows-refl now ts)

  Follows-trans :
      (now : ℕ) (l m n : List (ShadowTrade D)) → Follows now l m → Follows now m n → Follows now l n
  Follows-trans now [] [] [] p q = tt
  Follows-trans now (t ∷ l) (u ∷ m) (v ∷ n) (p, ps) (q, qs) =
      (path_trans p q, Follows-trans now l m n ps qs)
  Follows-trans now [] [] (v ∷ n) p q = q
  Follows-trans now [] (u ∷ m) n p q = absurd p
  Follows-trans now (t ∷ l) [] n p q = absurd p
  Follows-trans now (t ∷ l) (u ∷ m) [] p q = absurd q

  -- An update under an id and a status whose rows take one step.
  update_rows-Follows :
      (now id : ℕ) (s : ShadowStatus) (f : ShadowTrade D → ShadowTrade D) (l : List (ShadowTrade D))
      → ((t : ShadowTrade D) → id ≡ t.id → t.status ≡ s → ShadowStep now t (f t))
      → Follows now l (update_rows (is_row D id s) f l)
  update_rows-Follows now id s f [] step = tt
  update_rows-Follows now id s f (t ∷ l) step = elim (Bool-cases (is_row D id s t)) [
    | inl hit ↦
        let same : id ≡ t.id = ground (arith, hit) in
        rw hit (
          ShadowPath.then ShadowPath.here
              (step t same (has_status-eq t.status s (ground (arith, hit)))),
          update_rows-Follows now id s f l step,
        )
    | inr miss ↦ rw miss (ShadowPath.here, update_rows-Follows now id s f l step)
  ]

  first_trigger-triggers :
      (t : ShadowTrade D) (level : D.Value) (bars : List (SimpleBar D)) (b : SimpleBar D)
      → first_trigger D t level bars ≡ some b
      → is_triggered_by_candle D t.order_type level b ≡ true
  unfolding first_trigger
  first_trigger-triggers t level [] b h = ground arith
  first_trigger-triggers t level (x ∷ xs) b h =
      elim (Bool-cases (is_triggered_by_candle D t.order_type level x)) [
        | inl hit ↦
            let same : x ≡ b = ground (arith, h, hit) in
            subst (λ y. is_triggered_by_candle D t.order_type level y ≡ true) same hit
        | inr miss ↦ first_trigger-triggers t level xs b (ground (arith, h, miss))
      ]

  enter_at-Follows :
      (now : ℕ) (t : ShadowTrade D) (level : D.Value) (o : Option (SimpleBar D))
      (n : ShadowWatcherTickSummary) (l : List (ShadowTrade D))
      → now < t.plan_expiry
      → trigger_level D t ≡ some level
      → ((b : SimpleBar D) → o ≡ some b → is_triggered_by_candle D t.order_type level b ≡ true)
      → Follows now l (enter_at D t level o (n, l)).1
  enter_at-Follows now t level none n l early at touched = Follows-refl now l
  enter_at-Follows now t level (some b) n l early at touched =
      update_rows-Follows now t.id ShadowStatus.awaiting_trigger
        (set_entered D level (opens_at D b)) l
        (λ u same s. ShadowStep.enters t level b same early at (touched b refl) s)

  trigger_at-Follows :
      (M : Market D) (now : ℕ) (t : ShadowTrade D) (level : Option D.Value)
      (n : ShadowWatcherTickSummary) (l : List (ShadowTrade D))
      → now < t.plan_expiry
      → trigger_level D t ≡ level
      → Follows now l (trigger_at D M now t level (n, l)).1
  trigger_at-Follows M now t none n l early at = Follows-refl now l
  trigger_at-Follows M now t (some level) n l early at =
      enter_at-Follows now t level _ n l early at
        (λ b found. first_trigger-triggers t level _ b found)

  awaiting-Follows :
      (M : Market D) (now : ℕ) (t : ShadowTrade D) (n : ShadowWatcherTickSummary)
      (l : List (ShadowTrade D))
      → Follows now l (process_awaiting_trigger D M now t (n, l)).1
  unfolding process_awaiting_trigger
  awaiting-Follows M now t n l = elim (Bool-cases (leb t.plan_expiry now)) [
    | inl late ↦
        let due : t.plan_expiry ≤ now = ground (arith, late) in
        rw late (
          update_rows-Follows now t.id ShadowStatus.awaiting_trigger (set_expired D) l
            (λ u same s. ShadowStep.expires t same due s))
    | inr early ↦
        let pending : now < t.plan_expiry = ground (arith, early) in
        rw early (trigger_at-Follows M now t (trigger_level D t) n l pending refl)
  ]

  record_outcome-Follows :
      (now : ℕ) (plans : Plans D) (t : ShadowTrade D) (o : Outcome D) (n : ShadowWatcherTickSummary)
      (l : List (ShadowTrade D))
      → Follows now l (record_outcome D plans t o (n, l)).1
  record_outcome-Follows now plans t nothing n l = Follows-refl now l
  record_outcome-Follows now plans t (running mfe mae) n l =
      update_rows-Follows now t.id ShadowStatus.entered (set_excursions D mfe mae) l
        (λ u same s. ShadowStep.measured mfe mae s)
  record_outcome-Follows now plans t (closes reason exit at) n l =
      update_rows-Follows now t.id ShadowStatus.entered _ l
        (λ u same s. ShadowStep.closed reason exit at _ _ _ s)

  -- A step on the table that moves its rows along the machine.
  abbrev pub StepFollows :
      ℕ
      → (ShadowTrade D
          → ShadowWatcherTickSummary × List (ShadowTrade D)
          → ShadowWatcherTickSummary × List (ShadowTrade D))
      → Type 0
  StepFollows now step =
      (t : ShadowTrade D) (n : ShadowWatcherTickSummary) (l : List (ShadowTrade D))
      → Follows now l (step t (n, l)).1

  each_row-Follows :
      (now : ℕ)
      (step : ShadowTrade D
        → ShadowWatcherTickSummary × List (ShadowTrade D)
        → ShadowWatcherTickSummary × List (ShadowTrade D))
      (ts : List (ShadowTrade D)) (n : ShadowWatcherTickSummary) (l : List (ShadowTrade D))
      → StepFollows now step
      → Follows now l (each_row D step ts (n, l)).1
  each_row-Follows now step [] n l h = Follows-refl now l
  each_row-Follows now step (t ∷ ts) n l h =
      let (n', l') = step t (n, l) in
      Follows-trans now l l' (each_row D step ts (n', l')).1 (h t n l)
        (each_row-Follows now step ts n' l' h)

  pub tick-Follows :
      (M : Market D) (plans : Plans D) (max_minutes now : ℕ) (l : List (ShadowTrade D))
      → Follows now l (run_shadow_trade_watcher_tick D M plans max_minutes now l).1
  unfolding run_shadow_trade_watcher_tick process_entered_trade
  tick-Follows M plans max_minutes now l =
      let (n, l') =
        each_row D (process_awaiting_trigger D M now) (rows_with D ShadowStatus.awaiting_trigger l)
          (record { expired = 0; triggered = 0; closed = 0 }, l) in
      Follows-trans now l l' (run_shadow_trade_watcher_tick D M plans max_minutes now l).1
        (each_row-Follows now (process_awaiting_trigger D M now)
          (rows_with D ShadowStatus.awaiting_trigger l) _ l (awaiting-Follows M now))
        (each_row-Follows now (process_entered_trade D M plans max_minutes now)
          (rows_with D ShadowStatus.entered l') n l'
          (λ t n l.
            record_outcome-Follows now plans t (evaluate_entered_trade D M max_minutes now t) n l))

  Follows-IsComplete :
      (now : ℕ) (l m : List (ShadowTrade D)) → Follows now l m → All IsComplete l → All IsComplete m
  Follows-IsComplete now [] [] p h = tt
  Follows-IsComplete now (t ∷ l) (u ∷ m) (p, ps) (h, hs) =
      (path-IsComplete p h, Follows-IsComplete now l m ps hs)
  Follows-IsComplete now [] (u ∷ m) p h = absurd p
  Follows-IsComplete now (t ∷ l) [] p h = absurd p

  -- If every row holds what its status asks for, then so does every row after a tick: an entered
  -- trade has its entry and its time, a closed one also the reason and the time of its exit, and no
  -- other has a reason.
  pub tick-IsComplete :
      (M : Market D) (plans : Plans D) (max_minutes now : ℕ) (l : List (ShadowTrade D))
      → All IsComplete l
      → All IsComplete (run_shadow_trade_watcher_tick D M plans max_minutes now l).1
  tick-IsComplete M plans max_minutes now l h =
      Follows-IsComplete now l (run_shadow_trade_watcher_tick D M plans max_minutes now l).1
        (tick-Follows M plans max_minutes now l) h
