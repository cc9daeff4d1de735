-- ===== src/Hourly/Candles.antt =====
-- The table `hourly_candle_processing` with its UNIQUE(symbol, candle_timestamp), and the statements
-- on it. Times are in milliseconds.
use text.Mathlib.Text.{◌==◌ as str_eq}
use mt5_ai_trading.Prelude.{
  ℕ, suc, Bool, ◌&&◌, ◌==◌, Option, none, some, List, [], ◌∷◌, ◌++◌, String, any, update_rows, leb,
  if◌then◌else◌,
}

-- `HourlyCandleProcessingStatus`
pub data CandleStatus : Type 0 where
  claimed analyzed error : CandleStatus

pub record CandleClaim : Type 0 where
  pub id : ℕ
  pub symbol : String
  pub candle_timestamp : ℕ
  pub status : CandleStatus
  pub signal_id : Option ℕ
  pub error_message : Option String
  pub completed_at : Option ℕ

pub record CandleTable : Type 0 where
  pub rows : List CandleClaim
  -- the next fresh identifier
  pub next_id : ℕ

abbrev pub is_candle : String → ℕ → CandleClaim → Bool
is_candle symbol candle c = str_eq c.symbol symbol && c.candle_timestamp == candle

abbrev pub new_claim : String → ℕ → ℕ → CandleClaim
new_claim symbol candle id = record {
  id = id;
  symbol = symbol;
  candle_timestamp = candle;
  status = CandleStatus.claimed;
  signal_id = none;
  error_message = none;
  completed_at = none;
}

-- `claimCandle`: `ON CONFLICT (symbol, candle_timestamp) DO NOTHING RETURNING *`
unfoldable pub claim_candle : String → ℕ → CandleTable → Option CandleClaim × CandleTable
claim_candle symbol candle t = if any (is_candle symbol candle) t.rows then (none, t) else (
  some (new_claim symbol candle t.next_id),
  record { rows = t.rows ++ new_claim symbol candle t.next_id ∷ []; next_id = suc t.next_id },
)

abbrev pub set_analyzed : Option ℕ → ℕ → CandleClaim → CandleClaim
set_analyzed signal now c = record c {
  status = CandleStatus.analyzed;
  signal_id = signal;
  completed_at = some now;
}

-- `markCandleAnalyzed`
unfoldable pub mark_candle_analyzed : ℕ → Option ℕ → ℕ → CandleTable → CandleTable
mark_candle_analyzed id signal now t = record t {
  rows = update_rows (λ c. c.id == id) (set_analyzed signal now) t.rows;
}

abbrev pub set_error : String → ℕ → CandleClaim → CandleClaim
set_error message now c = record c {
  status = CandleStatus.error;
  error_message = some message;
  completed_at = some now;
}

-- `markCandleError`
unfoldable pub mark_candle_error : ℕ → String → ℕ → CandleTable → CandleTable
mark_candle_error id message now t = record t {
  rows = update_rows (λ c. c.id == id) (set_error message now) t.rows;
}

-- SQL's MAX, with one more row
abbrev pub max_of : ℕ → Option ℕ → Option ℕ
max_of a none = some a
max_of a (some b) = some (if leb a b then b else a)

unfoldable pub last_candle : String → List CandleClaim → Option ℕ
last_candle symbol [] = none
last_candle symbol (c ∷ cs) =
    let rest = last_candle symbol cs in
    if str_eq c.symbol symbol then max_of c.candle_timestamp rest else rest

-- `findLastProcessedCandle`
unfoldable pub find_last_processed_candle : String → CandleTable → Option ℕ
unfolding last_candle
find_last_processed_candle symbol t = last_candle symbol t.rows
