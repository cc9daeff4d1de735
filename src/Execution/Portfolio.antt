-- ===== src/Execution/Portfolio.antt =====
-- `calculatePortfolioPnl`, `liveMarketData`, `mergeLivePosition` and the start of the UTC day, of
-- apps/api/src/services/trade-execution-service.ts.
use text.Mathlib.Text.{◌==◌ as str_eq}
use mt5_ai_trading.Prelude.{
  ℕ, ◌-◌, ◌%◌, Bool, true, false, not, ◌||◌, Option, none, some, List, [], ◌∷◌, String, any,
  is_some, coalesce, if◌then◌else◌,
}
use mt5_ai_trading.Numeric.{Decimal}
use mt5_ai_trading.Domain.{Position, MarketSnapshot}
use mt5_ai_trading.Store.{Reply, replied, failed}
use mt5_ai_trading.Execution.Accounting.{decimal, money}

-- `Record<string, …>`, the latest assignment first
abbrev pub Dict : Type 0 → Type 0
Dict V = List (String × V)

abbrev pub get : {V : Type 0} → Dict V → String → Option V
get [] k = none
get ((j, v) ∷ d) k = if str_eq j k then some v else get d k

module _ (D : Decimal) where
  pub record LiveMarketData : Type 0 where
    pub prices : Dict D.Text
    pub timestamps : Dict ℕ
    pub stale_symbols : List String
    pub fetch_failed : Bool

  pub record PortfolioPnl : Type 0 where
    pub portfolio_equity : D.Text
    pub realized_pnl : D.Text
    pub unrealized_pnl : D.Text

  -- `LivePosition`: the fields that it gives anew beside the position
  pub record LivePosition : Type 0 where
    pub position : Position D
    pub is_stale : Bool
    pub price_as_of : Option ℕ
    pub market_value : D.Text

module _ {D : Decimal} where
  abbrev no_market_data : Bool → LiveMarketData D
  no_market_data e = record { prices = []; timestamps = []; stale_symbols = []; fetch_failed = e }

  abbrev add_market : LiveMarketData D → MarketSnapshot D → LiveMarketData D
  add_market m s = record m {
    prices = (s.symbol, s.price) ∷ m.prices;
    timestamps = (s.symbol, s.timestamp) ∷ m.timestamps;
    stale_symbols = if s.is_stale then s.symbol ∷ m.stale_symbols else m.stale_symbols;
  }

  abbrev add_markets : LiveMarketData D → List (MarketSnapshot D) → LiveMarketData D
  add_markets m [] = m
  add_markets m (s ∷ ss) = add_markets (add_market m s) ss

  -- `liveMarketData`, on the reply to `getAllMarketSnapshots`
  unfoldable pub live_market_data : Reply (List (MarketSnapshot D)) → LiveMarketData D
  live_market_data (replied ss) = add_markets (no_market_data false) ss
  live_market_data (failed m) = no_market_data true

  abbrev price_for : Dict D.Text → Position D → D.Value
  price_for live p = elim (get live p.symbol) [ none ↦ decimal D p.last_price | some t ↦ D.parse t ]

  abbrev market_value_from : Dict D.Text → D.Value → List (Position D) → D.Value
  market_value_from live sum [] = sum
  market_value_from live sum (p ∷ ps) =
      market_value_from live (D.plus sum (D.times (D.parse p.quantity) (price_for live p))) ps

  abbrev unrealized_from : Dict D.Text → D.Value → List (Position D) → D.Value
  unrealized_from live sum [] = sum
  unrealized_from live sum (p ∷ ps) =
      let gain = D.minus (price_for live p) (decimal D p.average_entry_price) in
      unrealized_from live (D.plus sum (D.times gain (D.parse p.quantity))) ps

  unfoldable pub calculate_portfolio_pnl :
      D.Text → D.Text → List (Position D) → Dict D.Text → PortfolioPnl D
  calculate_portfolio_pnl initial_cash cash open_positions live =
      let unrealized_pnl = unrealized_from live (D.of_nat 0) open_positions in
      let equity = D.plus (D.parse cash) (market_value_from live (D.of_nat 0) open_positions) in
      record {
        portfolio_equity = money D equity;
        realized_pnl = money D (D.minus (D.minus equity (D.parse initial_cash)) unrealized_pnl);
        unrealized_pnl = money D unrealized_pnl;
      }

  abbrev live_unrealized : Position D → Option D.Text → Option D.Text → D.Text
  live_unrealized p (some last) (some average) =
      money D (D.times (D.minus (D.parse last) (D.parse average)) (D.parse p.quantity))
  live_unrealized p _ _ = p.unrealized_pnl

  abbrev live_value : Position D → Option D.Text → D.Text
  live_value p none = D.to_fixed 8 (D.of_nat 0)
  live_value p (some last) = money D (D.times (D.parse last) (D.parse p.quantity))

  unfoldable pub merge_live_position : Position D → LiveMarketData D → LivePosition D
  merge_live_position p market =
      let live = get market.prices p.symbol in
      let last = coalesce live p.last_price in
      record {
        position = record p {
          last_price = last;
          unrealized_pnl = live_unrealized p last p.average_entry_price;
        };
        is_stale = not (is_some live) || any (str_eq p.symbol) market.stale_symbols;
        price_as_of = coalesce (get market.timestamps p.symbol) p.last_price_at;
        market_value = live_value p last;
      }

abbrev day_ms : ℕ
day_ms = 86_400_000

unfoldable pub start_of_utc_day : ℕ → ℕ
start_of_utc_day now = now - now % day_ms
