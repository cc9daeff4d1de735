-- ===== src/Execution/Reconcile/Due.antt =====
-- When a position is due for a time exit.
use mt5_ai_trading.Prelude.{ℕ, ◌+◌, ◌-◌, ◌*◌, ◌≤◌, ◌<◌, ◌≡◌, ◌↔◌, ◌⊎◌, false, none, arith}
use mt5_ai_trading.Numeric.{Decimal}
use mt5_ai_trading.Store.{OpenIntradayPosition}
use mt5_ai_trading.Execution.Session.{
  Horizon, SessionSettings, session_status, minutes_of, minute_of_day, unit_ms, holding_limit,
  is_force_closed, exit_due,
}

-- The session is open at this minute, and the window of the forced closing has not begun.
pub record IsTradingTime (s : SessionSettings) (now : ℕ) : Type 0 where
  pub opened : minutes_of s.market_open ≤ minute_of_day now
  pub not_closed : minute_of_day now < minutes_of s.market_close
  pub before_window :
      (s.force_close_enabled ≡ false)
      ⊎ (s.force_close_before_close_minutes < minutes_of s.market_close - minute_of_day now)

-- The position has no holding limit, or has not reached it.
abbrev pub IsWithinLimit :
    {D : Decimal} → Horizon → SessionSettings → ℕ → OpenIntradayPosition D → Type 0
IsWithinLimit h s now p =
    (holding_limit h s p ≡ 0) ⊎ (now < p.entered_at + holding_limit h s p * unit_ms h)

module _ {D : Decimal} where
  -- A position is left open exactly while it is within its holding limit and, if it is one that is
  -- closed by force, the session trades outside of the window of the forced closing.
  pub exit_due-none :
      (h : Horizon) (s : SessionSettings) (now : ℕ) (p : OpenIntradayPosition D)
      → (exit_due h s now p ≡ none)
        ↔ (IsWithinLimit h s now p × ((is_force_closed h p ≡ false) ⊎ IsTradingTime s now))
  unfolding exit_due session_status
  exit_due-none h s now p = ground arith
