-- ===== src/Execution/Tests.antt =====
-- Runs of `executeApprovedProposal`.
use mt5_ai_trading.Prelude.{arith, ◌≡◌, refl, []}
use mt5_ai_trading.Domain.{ProposalStatus, ExecutionStatus, OrderStatus}
use mt5_ai_trading.Lifecycle.{is_allowed}
use mt5_ai_trading.Store.{ok, err, proposal_expired, set_status, no_times}
use mt5_ai_trading.Execution.Submit.{execute_approved_proposal}
use mt5_ai_trading.Execution.Ready.{IsReady}
use mt5_ai_trading.Execution.Failed.{EndsInError, execute_failed}
use mt5_ai_trading.Execution.Safety.{SendsOnce, execute_sends_guarded}
use mt5_ai_trading.Execution.Outcome.{stored_result, execute_again, execute_expired}
use mt5_ai_trading.Execution.Cancelled.{execute_cancelled}
use mt5_ai_trading.Examples.{
  approved_world, repeated_world, late_world, proposal_in, execution_in, filling_engine,
  failing_engine, cancelling_engine, order_result, owner,
}

execute_sends_guarded_example :
    SendsOnce 1 approved_world (execute_approved_proposal filling_engine 1 owner approved_world).1
execute_sends_guarded_example = execute_sends_guarded filling_engine 1 owner approved_world

execute_again_example : execute_approved_proposal filling_engine 1 owner repeated_world ≡ (
  ok (
      stored_result
        (proposal_in ProposalStatus.filled)
        (execution_in ExecutionStatus.filled)
        repeated_world),
  repeated_world,
)
execute_again_example =
    execute_again filling_engine 1 owner repeated_world (proposal_in ProposalStatus.filled)
      (execution_in ExecutionStatus.filled) refl refl refl

execute_expired_example : execute_approved_proposal filling_engine 1 owner late_world ≡ (
  err (
      proposal_expired
        (set_status ProposalStatus.expired no_times 100 (proposal_in ProposalStatus.approved))),
  late_world,
)
unfolding is_allowed
execute_expired_example =
    execute_expired filling_engine 1 owner late_world (proposal_in ProposalStatus.approved) refl
      refl refl refl

execute_cancelled_example :
    (execute_approved_proposal cancelling_engine 1 owner approved_world).1.db ≡ approved_world.db
execute_cancelled_example =
    execute_cancelled cancelling_engine 1 owner approved_world
      (λ calls request. (order_result OrderStatus.cancelled [], refl, refl))

approved_world-IsReady : IsReady (proposal_in ProposalStatus.approved) approved_world
approved_world-IsReady = record {
  approved = refl;
  in_time = omega arith;
  paper = refl;
  enabled = refl;
}

execute_failed_example :
    EndsInError (execute_approved_proposal failing_engine 1 owner) 1 approved_world
execute_failed_example =
    execute_failed failing_engine 1 owner approved_world (proposal_in ProposalStatus.approved)
      "fetch failed" refl refl approved_world-IsReady refl
