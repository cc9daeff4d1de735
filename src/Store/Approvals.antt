-- ===== src/Store/Approvals.antt =====
-- apps/api/src/db/repositories/trade-approvals.ts and risk-checks.ts, and the constraint
-- UNIQUE (proposal_id, request_id) on approvals.
use mt5_ai_trading.Prelude.{ℕ, Bool, ◌&&◌, Option, List, [], ◌∷◌, ◌++◌, String, any, find, ◌==◌}
use mt5_ai_trading.Numeric.{Decimal}
use mt5_ai_trading.Domain.{TradeApproval, ApprovalAction, RiskCheck, RiskCheckStage, RiskResult}
use mt5_ai_trading.Store.State.{Db, Action, gets, throw_if, insert, unique_violation, ◌>>=◌, ◌>>◌}

abbrev pub is_approval : ℕ → ℕ → TradeApproval → Bool
is_approval proposal_id request_id a = a.proposal_id == proposal_id && a.request_id == request_id

abbrev pub new_approval : ℕ → ℕ → ApprovalAction → Option String → ℕ → ℕ → ℕ → TradeApproval
new_approval proposal_id approved_by action reason request_id id now = record {
  id = id;
  proposal_id = proposal_id;
  approved_by = approved_by;
  action = action;
  reason = reason;
  request_id = request_id;
  created_at = now;
}

pub record RiskCheckData : Type 0 where
  pub signal_id : Option ℕ
  pub proposal_id : Option ℕ
  pub stage : RiskCheckStage
  pub result : RiskResult
  pub rules_checked : List String
  pub failed_rules : List String
  pub reason : Option String

abbrev pub new_risk_check : RiskCheckData → ℕ → ℕ → RiskCheck
new_risk_check x id now = record {
  id = id;
  signal_id = x.signal_id;
  proposal_id = x.proposal_id;
  stage = x.stage;
  result = x.result;
  rules_checked = x.rules_checked;
  failed_rules = x.failed_rules;
  reason = x.reason;
  created_at = now;
}

module _ {D : Decimal} where
  unfoldable pub find_approval_by_proposal_and_request_id : ℕ → ℕ → Action D (Option TradeApproval)
  find_approval_by_proposal_and_request_id proposal_id request_id =
      gets (λ w. find (is_approval proposal_id request_id) w.db.approvals)

  abbrev pub add_approval : TradeApproval → Db D → Db D
  add_approval a db = record db { approvals = db.approvals ++ a ∷ [] }

  unfoldable pub create_approval :
      ℕ → ℕ → ApprovalAction → Option String → ℕ → Action D TradeApproval
  create_approval proposal_id approved_by action reason request_id = do
    throw_if (← gets (λ w. any (is_approval proposal_id request_id) w.db.approvals))
        unique_violation
    insert (new_approval proposal_id approved_by action reason request_id) add_approval

  abbrev pub add_risk_check : RiskCheck → Db D → Db D
  add_risk_check c db = record db { risk_checks = db.risk_checks ++ c ∷ [] }

  unfoldable pub create_risk_check : RiskCheckData → Action D RiskCheck
  create_risk_check x = insert (new_risk_check x) add_risk_check
