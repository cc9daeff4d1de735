-- ===== src/Shadow/Trades.antt =====
-- The table `shadow_trades` as the watcher reads and updates it, and `triggerLevel`.
use mt5_ai_trading.Prelude.{
  ℕ, Bool, ◌&&◌, ◌==◌, Option, none, some, List, String, any, coalesce, update_rows,
}
use mt5_ai_trading.Numeric.{Decimal}
use mt5_ai_trading.Domain.{Side}

pub data ShadowStatus : Type 0 where
  awaiting_trigger entered expired_not_triggered closed : ShadowStatus

pub data ShadowOrderType : Type 0 where
  market buy_limit sell_limit buy_stop sell_stop : ShadowOrderType

pub data ShadowExit : Type 0 where
  take_profit stop_loss time_exit ambiguous_outcome : ShadowExit

abbrev pub status_rank : ShadowStatus → ℕ
status_rank ShadowStatus.awaiting_trigger = 0
status_rank ShadowStatus.entered = 1
status_rank ShadowStatus.expired_not_triggered = 2
status_rank ShadowStatus.closed = 3

abbrev pub has_status : ShadowStatus → ShadowStatus → Bool
has_status s t = status_rank s == status_rank t

module _ (D : Decimal) where
  pub record ShadowTrade : Type 0 where
    pub id : ℕ
    pub ai_trade_plan_id : ℕ
    pub symbol : String
    pub direction : Side
    pub order_type : ShadowOrderType
    pub planned_entry : Option D.Value
    pub entry_zone_low : Option D.Value
    pub entry_zone_high : Option D.Value
    pub trigger_price : Option D.Value
    pub stop_loss : D.Value
    pub take_profit : D.Value
    pub plan_expiry : ℕ
    pub created_at : ℕ
    pub status : ShadowStatus
    pub exit_reason : Option ShadowExit
    pub actual_shadow_entry : Option D.Value
    pub actual_shadow_exit : Option D.Value
    pub entered_at : Option ℕ
    pub closed_at : Option ℕ
    pub r_multiple : Option D.Value
    pub mfe_r : Option D.Value
    pub mae_r : Option D.Value
    pub net_result_estimate : Option D.Value
    pub holding_minutes : Option ℕ

  -- `Number(v)` of a NUMERIC column: `Number(null)` is 0.
  abbrev pub column_number : Option D.Value → D.Value
  column_number none = D.of_nat 0
  column_number (some v) = v

  -- `num`: the number where it is finite, else null
  abbrev pub num : Option D.Value → Option D.Value
  num v = some (column_number v)

  abbrev zone_middle : Option D.Value → Option D.Value → Option D.Value
  zone_middle (some low) (some high) = some (D.div (D.plus low high) (D.of_nat 2))
  zone_middle low high = coalesce high low

  unfoldable pub trigger_level : ShadowTrade → Option D.Value
  trigger_level t =
      coalesce (num t.trigger_price) (
        coalesce (num t.planned_entry) (zone_middle (num t.entry_zone_low) (num t.entry_zone_high)))

  -- `WHERE id = … AND status = …`
  abbrev pub is_row : ℕ → ShadowStatus → ShadowTrade → Bool
  is_row id s t = t.id == id && has_status t.status s

  -- An update under that condition, with its `rowCount`
  abbrev pub update_where :
      ℕ → ShadowStatus → (ShadowTrade → ShadowTrade) → List ShadowTrade → Bool × List ShadowTrade
  update_where id s f l = (any (is_row id s) l, update_rows (is_row id s) f l)
