-- ===== src/AiPlans/Tests.antt =====
-- One plan that is stuck in its submission, with whole numbers for prices.
use mt5_ai_trading.Prelude.{◌≡◌, refl, none, some, [], ◌∷◌, find, arith}
use mt5_ai_trading.Numeric.Whole.{pos, whole_numbers}
use mt5_ai_trading.Store.{replied, failed}
use mt5_ai_trading.AiPlans.{
  PlanStatus, AiTradePlan, Mt5, Mt5Order, PlanWorld, has_plan_id, plan_comment,
  reconcile_stuck_submissions, run_ai_trade_plan_watcher_tick,
}
use mt5_ai_trading.AiPlans.Evidence.{IsReconciled}
use mt5_ai_trading.AiPlans.Stuck.{IsStuckSince, stuck_settled}
use mt5_ai_trading.AiPlans.Unreachable.{stuck_unreachable}

abbrev stuck_plan : AiTradePlan whole_numbers
stuck_plan = record {
  id = "7c0e-42";
  symbol = "EURUSD";
  decision = "BUY";
  status = PlanStatus.pending_order_submitting;
  plan_expiry = 900_000;
  entry_price = some (pos 20);
  stop_loss = some (pos 15);
  take_profit = some (pos 40);
  risk_reward = some (pos 4);
  final_volume = some (pos 1);
  max_planned_loss = some (pos 5);
  mt5_order_ticket = none;
  mt5_position_ticket = none;
  actual_entry = none;
  execution_key = some "k1";
  blocked_reason = none;
  submitting_at = some 1_000;
  placed_at = none;
  triggered_at = none;
  cancelled_at = none;
  expired_at = none;
}

abbrev one_plan : PlanWorld whole_numbers
one_plan = record { plans = stuck_plan ∷ []; outcomes = []; cancels = [] }

abbrev sent_order : Mt5Order
sent_order = record { ticket = some "551"; symbol = "EURUSD"; comment = some "AIV37c0e42" }

plan_comment_test : plan_comment "7c0e-42" ≡ "AIV37c0e42"
unfolding plan_comment
plan_comment_test = refl

-- MT5 has the order of the plan.
abbrev mt5_with_order : Mt5 whole_numbers
mt5_with_order = record {
  list_pending_orders = λ c. replied (sent_order ∷ []);
  list_positions = λ c. replied [];
  cancel_pending_order = λ c t. replied tt;
}

abbrev unreachable : Mt5 whole_numbers
unreachable = record {
  list_pending_orders = λ c. failed "timeout";
  list_positions = λ c. failed "timeout";
  cancel_pending_order = λ c t. failed "timeout";
}

since_then : IsStuckSince 200_000 1_000 stuck_plan
since_then = record { submitting = refl; since = refl; waited = omega arith }

stuck_settled_example :
    (u : AiTradePlan whole_numbers) × IsReconciled 200_000 stuck_plan (sent_order ∷ []) [] u
    × (find
          (has_plan_id whole_numbers "7c0e-42")
          (reconcile_stuck_submissions mt5_with_order 200_000 one_plan).plans
        ≡ some u)
stuck_settled_example =
    stuck_settled mt5_with_order 200_000 1_000 one_plan stuck_plan (sent_order ∷ []) [] refl
      since_then refl refl

stuck_unreachable_example :
    (find
        (has_plan_id whole_numbers "7c0e-42")
        (run_ai_trade_plan_watcher_tick unreachable 200_000 one_plan).plans
      ≡ some (record stuck_plan {
        status = PlanStatus.waiting_for_approval;
        submitting_at = none;
        execution_key = none;
      }))
    × ((run_ai_trade_plan_watcher_tick unreachable 200_000 one_plan).cancels ≡ [])
stuck_unreachable_example =
    stuck_unreachable unreachable 200_000 1_000 one_plan stuck_plan "timeout" "timeout" refl refl
      refl since_then
