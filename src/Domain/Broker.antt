-- ===== src/Domain/Broker.antt =====
-- The messages of apps/api/src/services/trading-engine-client.ts that the execution service sends
-- and receives. The broker's status is one of the order statuses.
use mt5_ai_trading.Prelude.{ℕ, Bool, Option, List, String}
use mt5_ai_trading.Numeric.{Decimal}
use mt5_ai_trading.Domain.Status.{Side, OrderType, OrderStatus, RequestKey}

pub record Bracket (D : Decimal) : Type 0 where
  pub stop_loss_price : D.Text
  pub take_profit_price : D.Text

pub record CryptoFields : Type 0 where
  pub fractionable : Bool
  pub fee_bps : Option ℕ

pub record OrderRequest (D : Decimal) : Type 0 where
  pub idempotency_key : RequestKey
  pub symbol : String
  pub side : Side
  pub quantity : D.Text
  pub order_type : OrderType
  pub limit_price : Option D.Text
  pub bracket : Option (Bracket D)
  pub crypto : Option CryptoFields

pub record FillEvent (D : Decimal) : Type 0 where
  pub order_id : ℕ
  pub fill_id : ℕ
  pub quantity : D.Text
  pub price : D.Text
  pub fee : D.Text
  pub is_partial : Bool
  pub filled_at : ℕ

pub record BrokerBracketIds : Type 0 where
  pub parent : Option ℕ
  pub take_profit : Option ℕ
  pub stop_loss : Option ℕ

pub record OrderResult (D : Decimal) : Type 0 where
  pub broker_order_id : ℕ
  pub status : OrderStatus
  pub fills : List (FillEvent D)
  pub bracket_order_ids : Option BrokerBracketIds
  pub rejected_reason : Option String
  pub error_message : Option String

pub record PaperPortfolio (D : Decimal) : Type 0 where
  pub cash : D.Text
  pub positions : List (String × D.Text)

pub record MarketSnapshot (D : Decimal) : Type 0 where
  pub symbol : String
  pub price : D.Text
  pub timestamp : ℕ
  pub is_stale : Bool
