-- ===== src/Store/Executions.antt =====
-- apps/api/src/db/repositories/executions.ts, and the UNIQUE constraint on `idempotency_key`.
use mt5_ai_trading.Prelude.{
  ℕ, Bool, Option, none, [], ◌∷◌, ◌++◌, String, any, find, update_rows, coalesce, ◌==◌,
}
use mt5_ai_trading.Numeric.{Decimal}
use mt5_ai_trading.Domain.{Execution, ExecutionStatus, RequestKey, same_key}
use mt5_ai_trading.Store.State.{
  Db, Action, row, gets, throw_if, modify_db, insert, unique_violation, ◌>>=◌, ◌>>◌,
}

abbrev pub has_key : RequestKey → Execution → Bool
has_key k e = same_key e.idempotency_key k

abbrev pub new_execution : ℕ → RequestKey → ℕ → ℕ → ℕ → Execution
new_execution proposal_id key attempt_number id now = record {
  id = id;
  proposal_id = proposal_id;
  idempotency_key = key;
  broker_order_id = none;
  status = ExecutionStatus.created;
  attempt_number = attempt_number;
  error_message = none;
  created_at = now;
  submitted_at = none;
  completed_at = none;
  updated_at = now;
}

-- The fields that `updateExecutionStatus` may set beside the status.
pub record ExecutionUpdate : Type 0 where
  pub broker_order_id : Option ℕ
  pub error_message : Option String
  pub submitted_at : Option ℕ
  pub completed_at : Option ℕ

abbrev pub set_execution : ExecutionStatus → ExecutionUpdate → ℕ → Execution → Execution
set_execution status u now e = record e {
  status = status;
  updated_at = now;
  broker_order_id = coalesce u.broker_order_id e.broker_order_id;
  error_message = coalesce u.error_message e.error_message;
  submitted_at = coalesce u.submitted_at e.submitted_at;
  completed_at = coalesce u.completed_at e.completed_at;
}

module _ {D : Decimal} where
  abbrev pub find_execution : RequestKey → Db D → Option Execution
  find_execution k db = find (has_key k) db.executions

  unfoldable pub find_execution_by_idempotency_key : RequestKey → Action D (Option Execution)
  find_execution_by_idempotency_key k = gets (λ w. find_execution k w.db)

  abbrev pub add_execution : Execution → Db D → Db D
  add_execution e db = record db { executions = db.executions ++ e ∷ [] }

  unfoldable pub create_execution : ℕ → RequestKey → ℕ → Action D Execution
  create_execution proposal_id key attempt_number = do
    throw_if (← gets (λ w. any (has_key key) w.db.executions)) unique_violation
    insert (new_execution proposal_id key attempt_number) add_execution

  abbrev pub put_executions : (Execution → Bool) → (Execution → Execution) → Db D → Db D
  put_executions p f db = record db { executions = update_rows p f db.executions }

  unfoldable pub update_execution_status :
      ℕ → ExecutionStatus → ExecutionUpdate → Action D Execution
  update_execution_status id status u = do
    now ← gets (λ w. w.now)
    modify_db (put_executions (λ e. e.id == id) (set_execution status u now))
    row (← gets (λ w. find (λ e. e.id == id) w.db.executions))
