-- ===== src/Execution/Session.antt =====
-- The settings and the session clock of the time exits: `loadPhase25Settings` and
-- `computeIntradaySessionStatus` of apps/api/src/services/intraday-decision-service.ts, and the same
-- of hourly-decision-service.ts, on the settings that the exits read. Times are in UTC.
use mt5_ai_trading.Prelude.{
  ℕ, Bool, true, false, ◌&&◌, ◌||◌, Option, none, some, or_default, ltb, leb, ◌+◌, ◌-◌, ◌*◌, ◌/◌,
  ◌%◌, if◌then◌else◌,
}
use mt5_ai_trading.Numeric.{Decimal}
use mt5_ai_trading.Domain.{PhaseSnapshot, ExitReason}
use mt5_ai_trading.Store.{World, Action, gets, SessionRows, OpenIntradayPosition}

-- `SessionStatusValue`
pub data SessionStatus : Type 0 where
  closed open_for_entries no_new_trades_near_close force_close_window : SessionStatus

pub record SessionSettings : Type 0 where
  -- in minutes for phase 25, in hours for phase 27
  pub max_holding : ℕ
  pub market_open : ℕ × ℕ
  pub market_close : ℕ × ℕ
  pub no_new_trades_minutes_before_close : ℕ
  pub force_close_before_close_minutes : ℕ
  pub force_close_enabled : Bool

abbrev intraday_settings : SessionRows → SessionSettings
intraday_settings s = record {
  max_holding = or_default s.max_holding 120;
  market_open = or_default s.market_open (13, 30);
  market_close = or_default s.market_close (20, 0);
  no_new_trades_minutes_before_close = or_default s.no_new_trades_minutes_before_close 15;
  force_close_before_close_minutes = or_default s.force_close_before_close_minutes 5;
  force_close_enabled = or_default s.force_close_enabled true;
}

abbrev hourly_settings : SessionRows → SessionSettings
hourly_settings s = record {
  max_holding = or_default s.max_holding 8;
  market_open = or_default s.market_open (13, 30);
  market_close = or_default s.market_close (20, 0);
  no_new_trades_minutes_before_close = or_default s.no_new_trades_minutes_before_close 60;
  force_close_before_close_minutes = or_default s.force_close_before_close_minutes 30;
  force_close_enabled = or_default s.force_close_enabled true;
}

abbrev pub minutes_of : ℕ × ℕ → ℕ
minutes_of (h, m) = h * 60 + m

-- The minute of the UTC day, from milliseconds.
abbrev pub minute_of_day : ℕ → ℕ
minute_of_day now = now / 60_000 % 1440

-- `computeIntradaySessionStatus`, and `computeHourlySessionStatus`, which has the same body
unfoldable pub session_status : ℕ → SessionSettings → SessionStatus
session_status now s =
    let now_minutes = minute_of_day now in
    let close = minutes_of s.market_close in
    if ltb now_minutes (minutes_of s.market_open) || leb close now_minutes
    then SessionStatus.closed
    else if s.force_close_enabled && leb (close - now_minutes) s.force_close_before_close_minutes
    then SessionStatus.force_close_window
    else if leb (close - now_minutes) s.no_new_trades_minutes_before_close
    then SessionStatus.no_new_trades_near_close
    else SessionStatus.open_for_entries

-- `sessionStatus === 'FORCE_CLOSE_WINDOW' || sessionStatus === 'CLOSED'`
abbrev must_close : SessionStatus → Bool
must_close SessionStatus.force_close_window = true
must_close SessionStatus.closed = true
must_close _ = false

-- The two kinds of position that are closed in time: phase 25 and phase 27.
pub data Horizon : Type 0 where
  intraday hourly : Horizon

-- The milliseconds of a minute and of an hour, in which the longest holding time counts.
abbrev pub unit_ms : Horizon → ℕ
unit_ms Horizon.intraday = 60_000
unit_ms Horizon.hourly = 3_600_000

module _ {D : Decimal} where
  abbrev pub settings_at : Horizon → World D → SessionSettings
  settings_at Horizon.intraday w = intraday_settings w.db.settings.phase25
  settings_at Horizon.hourly w = hourly_settings w.db.settings.phase27

  -- `loadPhase25Settings`, `loadPhase27Settings`
  unfoldable pub load_settings : Horizon → Action D SessionSettings
  load_settings h = gets (settings_at h)

  abbrev phase_of_horizon : Horizon → OpenIntradayPosition D → Option (PhaseSnapshot D)
  phase_of_horizon Horizon.intraday p = p.risk_snapshot.phase25
  phase_of_horizon Horizon.hourly p = p.risk_snapshot.phase27

  abbrev max_holding_of : Option (PhaseSnapshot D) → SessionSettings → ℕ
  max_holding_of none s = s.max_holding
  max_holding_of (some a) s = or_default a.max_holding s.max_holding

  -- `phase25?.forceCloseEnabled !== false`
  abbrev closes_early : Option (PhaseSnapshot D) → Bool
  closes_early none = true
  closes_early (some a) = or_default a.force_close_enabled true

  -- The longest holding time of a position, in units of its horizon; 0 stands for no limit.
  unfoldable pub holding_limit : Horizon → SessionSettings → OpenIntradayPosition D → ℕ
  holding_limit h s p = max_holding_of (phase_of_horizon h p) s

  unfoldable pub is_force_closed : Horizon → OpenIntradayPosition D → Bool
  is_force_closed h p = closes_early (phase_of_horizon h p)

  -- The reason for which a position is closed at `now`, or `none`: `elapsed >= limit` as
  -- `enteredAt + limit <= now`.
  unfoldable pub exit_due :
      Horizon → SessionSettings → ℕ → OpenIntradayPosition D → Option ExitReason
  unfolding holding_limit is_force_closed session_status
  exit_due h s now p =
      if ltb 0 (holding_limit h s p) && leb (p.entered_at + holding_limit h s p * unit_ms h) now
      then some ExitReason.max_holding_time
      else if is_force_closed h p && must_close (session_status now s)
      then some ExitReason.end_of_day
      else none
