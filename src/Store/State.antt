-- ===== src/Store/State.antt =====
-- The tables as lists of rows in order of insertion, the calls made to the broker, and the monad of
-- a workflow. A transaction that throws restores the tables; the broker keeps what it was sent.
use mt5_ai_trading.Prelude.{ℕ, suc, Bool, Option, none, some, List, ◌∷◌, String, if◌then◌else◌}
use mt5_ai_trading.Numeric.{Decimal}
use mt5_ai_trading.Domain.{
  Side, OrderType, RiskResult, ProposalStatus, ExitReason, TradeProposal, TradeApproval, RiskCheck,
  Execution, Order, Fill, Position, PortfolioSnapshot, OrderRequest, OrderResult, PaperPortfolio,
  MarketSnapshot, FillEvent,
}

-- The JSON of an audit row: `proposalSnapshot` of trade-execution-service.ts is `ProposalView`; that
-- of trade-proposal-service.ts is a part of the proposal, which stands here whole.
pub record ProposalView (D : Decimal) : Type 0 where
  pub id : ℕ
  pub status : ProposalStatus
  pub symbol : String
  pub side : Side
  pub quantity : D.Text
  pub order_type : OrderType
  pub limit_price : Option D.Text

pub data AuditData (D : Decimal) : Type 0 where
  view : ProposalView D → AuditData D
  view_error : ProposalView D → String → AuditData D
  whole : TradeProposal D → AuditData D
  whole_reason : TradeProposal D → Option String → AuditData D
  view_executed : ProposalView D → ℕ → ℕ → AuditData D
  bracket_created : ℕ → ℕ → D.Text → D.Text → AuditData D
  exit_recorded : ExitReason → FillEvent D → AuditData D
  kill_switch_disabled : List String → AuditData D
  risk_completed : RiskResult → List String → Option String → ℕ → AuditData D
  auto_closed : ℕ → String → D.Text → ExitReason → List (ℕ × D.Text × D.Text) → AuditData D

pub record AuditLog (D : Decimal) : Type 0 where
  pub event_type : String
  pub actor_id : Option ℕ
  pub actor_email : String
  pub entity_type : String
  pub entity_id : Option ℕ
  pub action : String
  pub before_data : Option (AuditData D)
  pub after_data : Option (AuditData D)
  pub request_id : Option ℕ

-- The rows `phase25_…` or `phase27_…` that the time exits read. The values are natural numbers, and
-- a time of day is the hour and the minute that stand around its colon.
pub record SessionRows : Type 0 where
  pub max_holding : Option ℕ
  pub market_open : Option (ℕ × ℕ)
  pub market_close : Option (ℕ × ℕ)
  pub no_new_trades_minutes_before_close : Option ℕ
  pub force_close_before_close_minutes : Option ℕ
  pub force_close_enabled : Option Bool

-- The rows of `system_settings` that the workflows read; `none` is a key with no row.
pub record Settings (D : Decimal) : Type 0 where
  pub trading_mode : Option String
  pub trading_kill_switch_enabled : Option Bool
  pub initial_paper_cash_usd : Option D.Text
  pub phase25 : SessionRows
  pub phase27 : SessionRows

pub record Db (D : Decimal) : Type 0 where
  pub proposals : List (TradeProposal D)
  pub approvals : List TradeApproval
  pub risk_checks : List RiskCheck
  pub executions : List Execution
  pub orders : List (Order D)
  pub fills : List (Fill D)
  pub positions : List (Position D)
  pub snapshots : List (PortfolioSnapshot D)
  pub audit_logs : List (AuditLog D)
  pub settings : Settings D
  -- the next fresh identifier
  pub next_id : ℕ

pub data BrokerCall (D : Decimal) : Type 0 where
  submit : OrderRequest D → BrokerCall D
  cancel : ℕ → BrokerCall D

-- The latest call stands first. `now` is the clock during the workflow.
pub record World (D : Decimal) : Type 0 where
  pub db : Db D
  pub calls : List (BrokerCall D)
  pub now : ℕ

-- An answer of the trading engine, or the message of the error that the request threw.
pub data Reply (A : Type 0) : Type 0 where
  replied : A → Reply A
  failed : String → Reply A

-- The trading engine, a service of its own: each answer may depend on the calls so far.
pub record Engine (D : Decimal) : Type 0 where
  pub submit_order : List (BrokerCall D) → OrderRequest D → Reply (OrderResult D)
  pub get_order : List (BrokerCall D) → ℕ → Reply (Option (OrderResult D))
  pub paper_portfolio : List (BrokerCall D) → Reply (PaperPortfolio D)
  pub market_snapshots : List (BrokerCall D) → Reply (List (MarketSnapshot D))

pub data BlockRule : Type 0 where
  kill_switch trading_mode : BlockRule

-- What a workflow throws. `missing_row` is the TypeError of reading a row that is not there;
-- `unique_violation` and `check_violation` are raised by the table's constraints.
pub data Error (D : Decimal) : Type 0 where
  not_found : String → Error D
  validation : String → Error D
  invalid_transition : ProposalStatus → ProposalStatus → Error D
  proposal_expired : TradeProposal D → Error D
  execution_blocked : BlockRule → Error D
  position_accounting : Error D
  engine_error : String → Error D
  missing_row unique_violation check_violation : Error D

pub data Result (D : Decimal) (A : Type 0) : Type 0 where
  ok : A → Result D A
  err : Error D → Result D A

abbrev pub Action : Decimal → Type 0 → Type 0
Action D A = World D → Result D A × World D

module _ {D : Decimal} where
  module _ {A : Type 0} where
    abbrev pub pure : A → Action D A
    pure a w = (ok a, w)

    abbrev pub throw : Error D → Action D A
    throw e w = (err e, w)

    abbrev pub gets : (World D → A) → Action D A
    gets f w = (ok (f w), w)

    -- A row that the code reads without a test.
    abbrev pub row : Option A → Action D A
    row none = throw missing_row
    row (some a) = pure a

    abbrev pub or_throw : Option A → Error D → Action D A
    or_throw none e = throw e
    or_throw (some a) e = pure a

    -- What is there already, or else what the action gives.
    abbrev pub or_else : Option A → Action D A → Action D A
    or_else none m = m
    or_else (some a) m = pure a

    abbrev pub of_reply : Reply A → Action D A
    of_reply (replied a) = pure a
    of_reply (failed m) = throw (engine_error m)

  infixl 5 ◌>>=◌ ◌>>◌
  abbrev pub ◌>>=◌ : {A B : Type 0} → Action D A → (A → Action D B) → Action D B
  ◌>>=◌ m f w = let (r, w') = m w in elim r [ ok a ↦ f a w' | err e ↦ (err e, w') ]

  abbrev pub ◌>>◌ : {A B : Type 0} → Action D A → Action D B → Action D B
  m >> k = m >>= λ _. k

  abbrev pub throw_if : Bool → Error D → Action D (Unit {0})
  throw_if c e w = (if c then err e else ok tt, w)

  abbrev pub modify_db : (Db D → Db D) → Action D (Unit {0})
  modify_db f w = (ok tt, record w { db = f w.db })

  abbrev pub call : BrokerCall D → Action D (Unit {0})
  call c w = (ok tt, record w { calls = c ∷ w.calls })

  -- A fresh row: its id is the counter, and `add` puts it into its table.
  abbrev pub insert : {A : Type 0} → (ℕ → ℕ → A) → (A → Db D → Db D) → Action D A
  insert make add w =
      let new = make w.db.next_id w.now in
      (ok new, record w { db = add new (record w.db { next_id = suc w.db.next_id }) })

  -- COMMIT, or ROLLBACK and throw again: how a transaction that began at `w` ends.
  abbrev pub in_transaction : {A : Type 0} → World D → Result D A × World D → Result D A × World D
  in_transaction w q = elim q.0 [ ok a ↦ (ok a, q.1) | err e ↦ (err e, record (q.1) { db = w.db }) ]

  -- `withTransaction`
  unfoldable pub with_transaction : {A : Type 0} → Action D A → Action D A
  with_transaction m w = in_transaction w (m w)
