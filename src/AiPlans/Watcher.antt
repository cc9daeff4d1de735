-- ===== src/AiPlans/Watcher.antt =====
-- The four sweeps of `runAiTradePlanWatcherTick`. The warnings go to the console.
use text.Mathlib.Text.{◌==◌ as str_eq}
use mt5_ai_trading.Prelude.{
  ℕ, ◌+◌, Bool, true, false, ◌&&◌, ◌||◌, Option, none, some, List, [], ◌∷◌, ◌++◌, String, any, find,
  coalesce, or_default, is_empty, leb, where_rows, update_rows, if◌then◌else◌,
}
use mt5_ai_trading.Numeric.{Decimal}
use mt5_ai_trading.Store.{Reply, replied, failed}
use mt5_ai_trading.AiPlans.Plans.{
  PlanStatus, OutcomeExit, AiTradePlan, TradeOutcome, same_plan_status, has_plan_id, is_plan_in,
  is_outcome_of,
}
use mt5_ai_trading.AiPlans.Broker.{
  Mt5Order, Mt5Position, Mt5, is_position_of, find_mt5_evidence_for_plan,
}

-- `.catch(() => [])`
abbrev pub or_nothing : {A : Type 0} → Reply (List A) → List A
or_nothing (replied l) = l
or_nothing (failed m) = []

abbrev past_grace : Option ℕ → ℕ → Bool
past_grace none now = false
past_grace (some at) now = leb (at + 120_000) now

-- `t.closed_at IS NOT NULL AND t.exit_reason <> 'RECONCILIATION_FAILED'`
abbrev is_closed_outcome : Option ℕ → Option OutcomeExit → Bool
is_closed_outcome (some at) (some OutcomeExit.other) = true
is_closed_outcome _ _ = false

abbrev is_failed_outcome : Option OutcomeExit → Bool
is_failed_outcome (some OutcomeExit.reconciliation_failed) = true
is_failed_outcome _ = false

module _ (D : Decimal) where
  pub record PlanWorld : Type 0 where
    pub plans : List (AiTradePlan D)
    pub outcomes : List (TradeOutcome D)
    -- the tickets whose cancellation has been asked for, the latest first
    pub cancels : List String

module _ {D : Decimal} where
  abbrev update_plans :
      (AiTradePlan D → Bool) → (AiTradePlan D → AiTradePlan D) → PlanWorld D → PlanWorld D
  update_plans p f w = record w { plans = update_rows p f w.plans }

  abbrev pub set_expired : ℕ → AiTradePlan D → AiTradePlan D
  set_expired now p = record p { status = PlanStatus.plan_expired; expired_at = some now }

  abbrev pub is_unapproved : ℕ → AiTradePlan D → Bool
  is_unapproved now p =
      (same_plan_status p.status PlanStatus.ai_plan_created
        || same_plan_status p.status PlanStatus.waiting_for_approval)
      && leb p.plan_expiry now

  unfoldable pub expire_unapproved_plans : ℕ → PlanWorld D → PlanWorld D
  expire_unapproved_plans now w = update_plans (is_unapproved now) (set_expired now) w

  -- One row after the other
  abbrev pub each_plan :
      (AiTradePlan D → PlanWorld D → PlanWorld D) → List (AiTradePlan D) → PlanWorld D → PlanWorld D
  each_plan step [] w = w
  each_plan step (p ∷ ps) w = each_plan step ps (step p w)

  abbrev set_open : Mt5Position D → ℕ → AiTradePlan D → AiTradePlan D → AiTradePlan D
  set_open m now row p = record p {
    status = PlanStatus.position_open;
    triggered_at = some now;
    actual_entry = coalesce m.price_open row.entry_price;
    mt5_position_ticket = some (or_default m.ticket "");
  }

  abbrev set_order_cancelled : ℕ → AiTradePlan D → AiTradePlan D
  set_order_cancelled now p = record p {
    status = PlanStatus.order_cancelled;
    cancelled_at = some now;
    blocked_reason = some "MT5_ORDER_NO_LONGER_PENDING";
  }

  abbrev ticket_of : AiTradePlan D → String
  ticket_of p = or_default p.mt5_order_ticket ""

  abbrev outcome_of : AiTradePlan D → Mt5Position D → ℕ → TradeOutcome D
  outcome_of p m now = record {
    symbol = p.symbol;
    ai_trade_plan_id = p.id;
    order_ticket = or_default m.ticket (ticket_of p);
    side = p.decision;
    volume = coalesce m.volume p.final_volume;
    expected_entry = p.entry_price;
    actual_entry = coalesce m.price_open p.entry_price;
    stop_loss = p.stop_loss;
    take_profit = p.take_profit;
    risk_amount = p.max_planned_loss;
    risk_reward = p.risk_reward;
    opened_at = now;
    closed_at = none;
    exit_reason = none;
  }

  -- `ON CONFLICT (ai_trade_plan_id) … DO NOTHING`
  abbrev add_outcome : TradeOutcome D → PlanWorld D → PlanWorld D
  add_outcome o w =
      if any (is_outcome_of D o.ai_trade_plan_id) w.outcomes
      then w
      else record w { outcomes = w.outcomes ++ o ∷ [] }

  abbrev cancel_answered : ℕ → AiTradePlan D → Reply (Unit {0}) → PlanWorld D → PlanWorld D
  cancel_answered now p (replied u) w =
      update_plans (is_plan_in D p.id PlanStatus.pending_order_placed) (set_expired now) w
  cancel_answered now p (failed m) w = w

  abbrev cancel_late : Mt5 D → ℕ → AiTradePlan D → PlanWorld D → PlanWorld D
  cancel_late M now p w =
      cancel_answered now p (M.cancel_pending_order w.cancels (ticket_of p))
        (record w { cancels = ticket_of p ∷ w.cancels })

  -- The ticket is no longer pending: a position, or nothing.
  abbrev settle_missing : ℕ → AiTradePlan D → Option (Mt5Position D) → PlanWorld D → PlanWorld D
  settle_missing now p (some m) w =
      update_plans (is_plan_in D p.id PlanStatus.pending_order_placed) (set_open m now p)
        (add_outcome (outcome_of p m now) w)
  settle_missing now p none w =
      update_plans (is_plan_in D p.id PlanStatus.pending_order_placed) (set_order_cancelled now) w

  abbrev settle_pending :
      Mt5 D → ℕ → List Mt5Order → List (Mt5Position D) → AiTradePlan D → PlanWorld D → PlanWorld D
  settle_pending M now orders positions p w =
      if any (λ o. str_eq (or_default o.ticket "") (ticket_of p)) orders
      then if leb p.plan_expiry now then cancel_late M now p w else w
      else settle_missing now p (find (is_position_of p) positions) w

  abbrev settle_all :
      Mt5 D
      → ℕ
      → List (AiTradePlan D)
      → Reply (List Mt5Order)
      → Reply (List (Mt5Position D))
      → PlanWorld D
      → PlanWorld D
  settle_all M now rows (replied orders) (replied positions) w =
      each_plan (settle_pending M now orders positions) rows w
  settle_all M now rows _ _ w = w

  unfoldable pub reconcile_pending_orders : Mt5 D → ℕ → PlanWorld D → PlanWorld D
  unfolding is_position_of
  reconcile_pending_orders M now w =
      let rows =
        where_rows (λ p. same_plan_status p.status PlanStatus.pending_order_placed) w.plans in
      if is_empty rows
      then w
      else settle_all M now rows (M.list_pending_orders w.cancels) (M.list_positions w.cancels) w

  abbrev pub set_placed : Mt5Order → ℕ → AiTradePlan D → AiTradePlan D
  set_placed o now p = record p {
    status = PlanStatus.pending_order_placed;
    placed_at = some now;
    mt5_order_ticket = some (or_default o.ticket "");
    execution_key = none;
  }

  abbrev pub set_found_open : Mt5Position D → AiTradePlan D → AiTradePlan D → AiTradePlan D
  set_found_open m row p = record p {
    status = PlanStatus.position_open;
    actual_entry = coalesce m.price_open row.entry_price;
    mt5_position_ticket = some (or_default m.ticket "");
    execution_key = none;
  }

  -- Back to the owner, for a fresh attempt
  abbrev pub set_released : AiTradePlan D → AiTradePlan D
  set_released p = record p {
    status = PlanStatus.waiting_for_approval;
    submitting_at = none;
    execution_key = none;
  }

  abbrev pub settle_stuck :
      ℕ → AiTradePlan D → Option Mt5Order × Option (Mt5Position D) → PlanWorld D → PlanWorld D
  settle_stuck now p (some o, m) w = update_plans (has_plan_id D p.id) (set_placed o now) w
  settle_stuck now p (none, some m) w = update_plans (has_plan_id D p.id) (set_found_open m p) w
  settle_stuck now p (none, none) w = update_plans (has_plan_id D p.id) set_released w

  abbrev pub is_stuck : ℕ → AiTradePlan D → Bool
  is_stuck now p =
      same_plan_status p.status PlanStatus.pending_order_submitting
      && past_grace p.submitting_at now

  unfoldable pub reconcile_stuck_submissions : Mt5 D → ℕ → PlanWorld D → PlanWorld D
  unfolding find_mt5_evidence_for_plan
  reconcile_stuck_submissions M now w =
      let orders = or_nothing (M.list_pending_orders w.cancels) in
      let positions = or_nothing (M.list_positions w.cancels) in
      each_plan (λ p. settle_stuck now p (find_mt5_evidence_for_plan p orders positions))
        (where_rows (is_stuck now) w.plans) w

  abbrev pub is_open_with : (TradeOutcome D → Bool) → List (TradeOutcome D) → AiTradePlan D → Bool
  is_open_with test outcomes p =
      same_plan_status p.status PlanStatus.position_open
      && any (λ o. is_outcome_of D p.id o && test o) outcomes

  abbrev pub set_position_closed : AiTradePlan D → AiTradePlan D
  set_position_closed p = record p { status = PlanStatus.position_closed }

  abbrev pub set_failed : AiTradePlan D → AiTradePlan D
  set_failed p = record p {
    status = PlanStatus.execution_failed;
    blocked_reason = some "RECONCILIATION_FAILED";
  }

  unfoldable pub sync_closed_plans : PlanWorld D → PlanWorld D
  sync_closed_plans w =
      let w' =
        update_plans (is_open_with (λ o. is_closed_outcome o.closed_at o.exit_reason) w.outcomes)
          set_position_closed w in
      update_plans (is_open_with (λ o. is_failed_outcome o.exit_reason) w'.outcomes) set_failed w'

  -- `runAiTradePlanWatcherTick`
  unfoldable pub run_ai_trade_plan_watcher_tick : Mt5 D → ℕ → PlanWorld D → PlanWorld D
  unfolding expire_unapproved_plans reconcile_stuck_submissions reconcile_pending_orders
      sync_closed_plans
  run_ai_trade_plan_watcher_tick M now w = sync_closed_plans (
      reconcile_pending_orders M now
        (reconcile_stuck_submissions M now (expire_unapproved_plans now w)))
