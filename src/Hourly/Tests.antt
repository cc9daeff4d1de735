-- ===== src/Hourly/Tests.antt =====
-- Two ticks over one symbol, and the bar that is still forming.
use mt5_ai_trading.Prelude.{◌≡◌, refl, true, some, [], ◌∷◌}
use mt5_ai_trading.Store.{replied}
use mt5_ai_trading.Hourly.{Desk, System, no_ticks, last_candle, check_symbol, tick}
use mt5_ai_trading.Hourly.Once.{IsReachable, IsSound, reachable-IsSound}
use mt5_ai_trading.Hourly.Latest.{Advances, check_symbol_refines}

-- A desk with one closed bar, at midnight.
abbrev midnight_desk : Desk (Unit {0})
midnight_desk = record {
  get_historical_bars = λ rest symbol. replied (0 ∷ []);
  decide = λ rest symbol. (replied (record { signal = some 4; has_proposal = true }), rest);
}

abbrev empty_system : System (Unit {0})
empty_system = record { table = record { rows = []; next_id = 1 }; rest = tt; analyses = [] }

abbrev ticked_once : System (Unit {0})
ticked_once = (tick midnight_desk 3_600_000 (some true) (replied ("ACME" ∷ [])) empty_system).1

reached :
    IsReachable (tick midnight_desk 3_660_000 (some true) (replied ("ACME" ∷ [])) ticked_once).1
reached = IsReachable.ticked midnight_desk 3_660_000 (some true) (replied ("ACME" ∷ [])) (
    IsReachable.ticked midnight_desk 3_600_000 (some true) (replied ("ACME" ∷ []))
      (IsReachable.fresh tt 1))

reachable-IsSound_example :
    IsSound (tick midnight_desk 3_660_000 (some true) (replied ("ACME" ∷ [])) ticked_once).1
reachable-IsSound_example = reachable-IsSound reached

-- The first tick after the bar has closed analyses it, the second does not.
analysed_once :
    (tick midnight_desk 3_660_000 (some true) (replied ("ACME" ∷ [])) ticked_once).1.analyses
    ≡ record { symbol = "ACME"; candle = 0; at = 3_600_000 } ∷ []
unfolding tick
analysed_once = refl

still_forming :
    (tick midnight_desk 3_599_999 (some true) (replied ("ACME" ∷ [])) empty_system).1.analyses ≡ []
unfolding tick
still_forming = refl

check_symbol_refines_example :
    Advances "ACME" 3_600_000
      (some 0)
      empty_system
      (check_symbol midnight_desk 3_600_000 "ACME" (no_ticks, empty_system)).1
unfolding last_candle
check_symbol_refines_example =
    check_symbol_refines midnight_desk 3_600_000 "ACME" no_ticks empty_system
