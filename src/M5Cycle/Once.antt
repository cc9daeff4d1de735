-- ===== src/M5Cycle/Once.antt =====
-- What the ticks of the M5 scheduler come to.
use mt5_ai_trading.Prelude.{
  ℕ, ◌≡◌, refl, ◌≤◌, ◌<◌, false, Option, none, some, List, [], ◌∷◌, arith, suc, if◌then◌else◌, ◌++◌,
  length,
}
use mt5_ai_trading.Store.{Reply, replied, failed}
use mt5_ai_trading.M5Cycle.{
  ScanCall, TickOutcome, skips, scans_candle, begin_tick, end_tick, is_last, Poll, CycleState,
  CycleWorld, current_m5_boundary,
}

-- The candles whose scan has answered, the latest first.
abbrev pub answered_scans : List ScanCall → List ℕ
answered_scans [] = []
answered_scans (c ∷ cs) =
    let rest = answered_scans cs in if c.answered then c.boundary ∷ rest else rest

abbrev pub first : List ℕ → Option ℕ
first [] = none
first (b ∷ bs) = some b

-- The first one is below `n`.
abbrev pub Above : ℕ → List ℕ → Type 0
Above n [] = Unit
Above n (b ∷ bs) = b < n

abbrev pub Descending : List ℕ → Type 0
Descending [] = Unit
Descending (b ∷ bs) = Above b bs × Descending bs

boundary_mono : (t n : ℕ) → t ≤ n → current_m5_boundary t ≤ current_m5_boundary n
unfolding current_m5_boundary
boundary_mono t n h = omega arith

Above-mono : (m n : ℕ) (l : List ℕ) → m ≤ n → Above m l → Above n l
Above-mono m n [] h a = tt
Above-mono m n (b ∷ bs) h a = omega arith

Above-new :
    (last : Option ℕ) (b m : ℕ) (l : List ℕ)
    → last ≡ first l
    → is_last last b ≡ false
    → Above (suc m) l
    → m ≤ b
    → Above b l
Above-new last b m [] e fresh a h = tt
Above-new last b m (c ∷ l) e fresh a h = ground arith

module _ {Summary : Type 0} where
  -- The last processed candle is the latest that has been scanned with an answer, the candles with an
  -- answer go strictly upwards in time, and none of them opens after `t`.
  pub record IsSound (w : CycleWorld Summary) (t : ℕ) : Type 0 where
    pub latest : w.state.last_processed_boundary_ms ≡ first (answered_scans w.scans)
    pub ordered : Descending (answered_scans w.scans)
    pub past : Above (suc (current_m5_boundary t)) (answered_scans w.scans)

  -- What the scheduler reaches in the time up to `t` from a start with nothing processed, with the
  -- candles whose scans are running, if a tick asks for a scan only while fewer than `limit` of them
  -- run. A running scan settles at any time, in any order and with any answer.
  pub data Runs (limit : ℕ) : CycleWorld Summary → List ℕ → ℕ → Type 0 where
    starts :
        {s : CycleState Summary} (t : ℕ)
        → s.last_processed_boundary_ms ≡ none
        → Runs limit (record { state = s; scans = [] }) [] t
    skipped :
        {w : CycleWorld Summary} {r : List ℕ} {t : ℕ} (p : Poll) (o : TickOutcome)
        → Runs limit w r t
        → t ≤ p.now
        → begin_tick p w.state ≡ skips o
        → Runs limit w r p.now
    begun :
        {w : CycleWorld Summary} {r : List ℕ} {t : ℕ} (p : Poll) (b : ℕ)
        → Runs limit w r t
        → t ≤ p.now
        → length r < limit
        → begin_tick p w.state ≡ scans_candle b
        → Runs limit w (b ∷ r) p.now
    settled :
        {w : CycleWorld Summary} {t : ℕ} (before : List ℕ) (b : ℕ) (after : List ℕ) (at : ℕ)
        (answer : Reply Summary)
        → Runs limit w (before ++ b ∷ after) t
        → t ≤ at
        → Runs limit (end_tick b at answer w).1 (before ++ after) at

  -- At most one scan runs, and its candle comes after those that have been answered.
  abbrev IsPending : CycleWorld Summary → ℕ → List ℕ → Type 0
  IsPending w t [] = Unit
  IsPending w t (b ∷ []) = Above b (answered_scans w.scans) × (b ≤ current_m5_boundary t)
  IsPending w t (b ∷ c ∷ r) = ⊥

  later : {w : CycleWorld Summary} (t n : ℕ) → IsSound w t → t ≤ n → IsSound w n
  later {w} t n s h = record {
    latest = s.latest;
    ordered = s.ordered;
    past =
        Above-mono (suc (current_m5_boundary t)) (suc (current_m5_boundary n))
          (answered_scans w.scans) (omega (arith, boundary_mono t n h)) s.past;
  }

  later-IsPending :
      (w : CycleWorld Summary) (t n : ℕ) (r : List ℕ) → IsPending w t r → t ≤ n → IsPending w n r
  later-IsPending w t n [] h le = tt
  later-IsPending w t n (b ∷ []) h le = (h.0, omega (arith, h.1, boundary_mono t n le))
  later-IsPending w t n (b ∷ c ∷ r) h le = absurd h

  begin_tick-scans :
      (p : Poll) (s : CycleState Summary) (b : ℕ)
      → begin_tick p s ≡ scans_candle b
      → (b ≡ current_m5_boundary p.now) × (is_last s.last_processed_boundary_ms b ≡ false)
  unfolding begin_tick
  begin_tick-scans p s b h = ground arith

  begun-IsPending :
      (p : Poll) (w : CycleWorld Summary) (t b : ℕ)
      → IsSound w t
      → t ≤ p.now
      → begin_tick p w.state ≡ scans_candle b
      → IsPending w p.now (b ∷ [])
  begun-IsPending p w t b s h asked =
      let (same, fresh) = begin_tick-scans p w.state b asked in
      let order = boundary_mono t p.now h in
      (
        Above-new w.state.last_processed_boundary_ms b (current_m5_boundary t)
            (answered_scans w.scans) s.latest fresh s.past (omega arith),
        omega arith,
      )

  settled-IsSound :
      (b at t : ℕ) (o : Reply Summary) (w : CycleWorld Summary)
      → IsSound w t
      → IsPending w t (b ∷ [])
      → t ≤ at
      → IsSound (end_tick b at o w).1 at
  unfolding end_tick
  settled-IsSound b at t (failed m) w s h le =
      let s' = later t at s le in
      record { latest = s'.latest; ordered = s'.ordered; past = s'.past }
  settled-IsSound b at t (replied summary) w s (above, in_time) le = record {
    latest = refl;
    ordered = (above, s.ordered);
    past = omega (arith, boundary_mono t at le);
  }

  runs-IsPending :
      (w : CycleWorld Summary) (r : List ℕ) (t : ℕ) → Runs 1 w r t → IsSound w t × IsPending w t r
  runs-IsPending _ _ t (Runs.starts _ none_yet) =
      (record { latest = none_yet; ordered = tt; past = tt }, tt)
  runs-IsPending w r _ (Runs.skipped {t} p o before le h) =
      let (s, pending) = runs-IsPending w r t before in
      (later t p.now s le, later-IsPending w t p.now r pending le)
  runs-IsPending w _ _ (Runs.begun {r = []} {t} p b before le few h) =
      let (s, pending) = runs-IsPending w [] t before in
      (later t p.now s le, begun-IsPending p w t b s le h)
  runs-IsPending w _ _ (Runs.begun {r = c ∷ r} {t} p b before le few h) = absurd (omega arith)
  runs-IsPending _ _ _ (Runs.settled {w} {t} [] b [] at answer before le) =
      let (s, pending) = runs-IsPending w (b ∷ []) t before in
      (settled-IsSound b at t answer w s pending le, tt)
  runs-IsPending _ _ _ (Runs.settled {w} {t} [] b (c ∷ after) at answer before le) =
      absurd (runs-IsPending w (b ∷ c ∷ after) t before).1
  runs-IsPending _ _ _ (Runs.settled {w} {t} (a ∷ []) b after at answer before le) =
      absurd (runs-IsPending w (a ∷ b ∷ after) t before).1
  runs-IsPending _ _ _ (Runs.settled {w} {t} (a ∷ c ∷ more) b after at answer before le) =
      absurd (runs-IsPending w (a ∷ c ∷ more ++ b ∷ after) t before).1

  -- If a tick asks for a scan only while no other scan runs, then in whatever the scheduler reaches
  -- from a start with nothing processed, by ticks whose times do not go back and scans that settle in
  -- any way, the scans that answered are of candles strictly upwards in time, so of no candle twice,
  -- none opens after the time reached, and the last processed candle is the latest of them.
  pub runs-IsSound : (w : CycleWorld Summary) (r : List ℕ) (t : ℕ) → Runs 1 w r t → IsSound w t
  runs-IsSound w r t h = (runs-IsPending w r t h).0
