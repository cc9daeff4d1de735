-- ===== src/Shadow/Graph.antt =====
-- The life of a shadow trade as steps of a state machine.
use mt5_ai_trading.Prelude.{
  ℕ, ◌≤◌, ◌<◌, ◌*◌, ◌≡◌, refl, sym, true, Option, some, none, is_some, arith,
}
use mathlib.Core.Path.{subst}
use mt5_ai_trading.Numeric.{Decimal}
use mt5_ai_trading.Shadow.{
  ShadowStatus, ShadowExit, ShadowTrade, SimpleBar, has_status, trigger_level,
  is_triggered_by_candle,
}

-- One step of a trade at the time `now`: a pending one expires or is entered, with its entry and its
-- time, an entered one is measured or closed, with what its exit gives. Every other field of the row
-- stays. It expires only if the row that the watcher has read under its id is due, and is entered only
-- if that row is not, at its level and the time of a bar that triggers it.
pub data ShadowStep {D : Decimal} (now : ℕ) : ShadowTrade D → ShadowTrade D → Type 0 where
  expires :
      {t : ShadowTrade D} (row : ShadowTrade D)
      → row.id ≡ t.id
      → row.plan_expiry ≤ now
      → t.status ≡ ShadowStatus.awaiting_trigger
      → ShadowStep now t (record t { status = ShadowStatus.expired_not_triggered })
  enters :
      {t : ShadowTrade D} (row : ShadowTrade D) (level : D.Value) (b : SimpleBar D)
      → row.id ≡ t.id
      → now < row.plan_expiry
      → trigger_level D row ≡ some level
      → is_triggered_by_candle D row.order_type level b ≡ true
      → t.status ≡ ShadowStatus.awaiting_trigger
      → ShadowStep now t (record t {
        status = ShadowStatus.entered;
        actual_shadow_entry = some level;
        entered_at = some (b.time * 1000);
      })
  measured :
      {t : ShadowTrade D} (mfe mae : D.Value)
      → t.status ≡ ShadowStatus.entered
      → ShadowStep now t (record t { mfe_r = some mfe; mae_r = some mae })
  closed :
      {t : ShadowTrade D} (reason : ShadowExit) (exit : Option D.Value) (at : ℕ)
      (r net : Option D.Value) (minutes : Option ℕ)
      → t.status ≡ ShadowStatus.entered
      → ShadowStep now t (record t {
        status = ShadowStatus.closed;
        exit_reason = some reason;
        actual_shadow_exit = exit;
        closed_at = some at;
        r_multiple = r;
        net_result_estimate = net;
        holding_minutes = minutes;
      })

pub data ShadowPath {D : Decimal} (now : ℕ) : ShadowTrade D → ShadowTrade D → Type 0 where
  here : {t : ShadowTrade D} → ShadowPath now t t
  then : {t u v : ShadowTrade D} → ShadowPath now t u → ShadowStep now u v → ShadowPath now t v

pub has_status-eq : (s t : ShadowStatus) → has_status s t ≡ true → s ≡ t
has_status-eq s t h = ground arith

module _ {D : Decimal} where
  pub path_trans :
      {now : ℕ} {t u v : ShadowTrade D}
      → ShadowPath now t u
      → ShadowPath now u v
      → ShadowPath now t v
  path_trans p ShadowPath.here = p
  path_trans p (ShadowPath.then q s) = ShadowPath.then (path_trans p q) s

  -- What a row in this status holds: an entered trade has its entry and its time, a closed one also
  -- the reason and the time of its exit, and a trade that is not closed has no reason.
  abbrev pub IsCompleteIn : ShadowStatus → ShadowTrade D → Type 0
  IsCompleteIn ShadowStatus.awaiting_trigger t = t.exit_reason ≡ none
  IsCompleteIn ShadowStatus.expired_not_triggered t = t.exit_reason ≡ none
  IsCompleteIn ShadowStatus.entered t =
      (is_some t.actual_shadow_entry ≡ true)
      × (is_some t.entered_at ≡ true)
      × (t.exit_reason ≡ none)
  IsCompleteIn ShadowStatus.closed t =
      (is_some t.actual_shadow_entry ≡ true)
      × (is_some t.entered_at ≡ true)
      × (is_some t.exit_reason ≡ true)
      × (is_some t.closed_at ≡ true)

  abbrev pub IsComplete : ShadowTrade D → Type 0
  IsComplete t = IsCompleteIn t.status t

  step-IsComplete :
      {now : ℕ} {t u : ShadowTrade D} → ShadowStep now t u → IsComplete t → IsComplete u
  step-IsComplete (ShadowStep.expires {t} row same due s) h = subst (λ x. IsCompleteIn x t) s h
  step-IsComplete (ShadowStep.enters {t} row level b same early at touched s) h =
      (refl, refl, subst (λ x. IsCompleteIn x t) s h)
  step-IsComplete (ShadowStep.measured {t} mfe mae s) h =
      subst (λ x. IsCompleteIn x (record t { mfe_r = some mfe; mae_r = some mae })) (sym s)
        (subst (λ x. IsCompleteIn x t) s h)
  step-IsComplete (ShadowStep.closed {t} reason exit at r net minutes s) h =
      let (entry, entered, no_reason) = subst (λ x. IsCompleteIn x t) s h in
      (entry, entered, refl, refl)

  pub path-IsComplete :
      {now : ℕ} {t u : ShadowTrade D} → ShadowPath now t u → IsComplete t → IsComplete u
  path-IsComplete ShadowPath.here h = h
  path-IsComplete (ShadowPath.then p s) h = step-IsComplete s (path-IsComplete p h)
