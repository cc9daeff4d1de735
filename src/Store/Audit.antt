-- ===== src/Store/Audit.antt =====
-- `createAuditLog` of apps/api/src/db/repositories/audit-logs.ts and `getSettingValue`,
-- `setSetting` of system-settings.ts at the keys that the workflows use.
use mt5_ai_trading.Prelude.{Bool, Option, some, [], ◌∷◌, ◌++◌, String}
use mt5_ai_trading.Numeric.{Decimal}
use mt5_ai_trading.Store.State.{Db, Action, AuditLog, gets, modify_db}

module _ {D : Decimal} where
  abbrev pub add_audit_log : AuditLog D → Db D → Db D
  add_audit_log a db = record db { audit_logs = db.audit_logs ++ a ∷ [] }

  unfoldable pub create_audit_log : AuditLog D → Action D (Unit {0})
  create_audit_log a = modify_db (add_audit_log a)

  unfoldable pub get_trading_mode : Action D (Option String)
  get_trading_mode = gets (λ w. w.db.settings.trading_mode)

  unfoldable pub get_trading_kill_switch_enabled : Action D (Option Bool)
  get_trading_kill_switch_enabled = gets (λ w. w.db.settings.trading_kill_switch_enabled)

  unfoldable pub get_initial_paper_cash_usd : Action D (Option D.Text)
  get_initial_paper_cash_usd = gets (λ w. w.db.settings.initial_paper_cash_usd)

  abbrev pub put_kill_switch : Bool → Db D → Db D
  put_kill_switch b db = record db {
    settings = record (db.settings) { trading_kill_switch_enabled = some b };
  }

  unfoldable pub set_trading_kill_switch_enabled : Bool → Action D (Unit {0})
  set_trading_kill_switch_enabled b = modify_db (put_kill_switch b)
