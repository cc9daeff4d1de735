-- ===== src/Execution/Accounting.antt =====
-- `calculatePositionAccounting`, `averageFillPrice` and `filledQuantity` of
-- apps/api/src/services/trade-execution-service.ts.

use mt5_ai_trading.Prelude.{Option, none, some, List, [], ◌∷◌, or_default, if◌then◌else◌}
use mt5_ai_trading.Numeric.{Decimal}
use mt5_ai_trading.Domain.{Side, FillEvent}

module _ (D : Decimal) where
  -- `decimal(value)`: `new Decimal(value ?? '0')`
  abbrev pub decimal : Option D.Text → D.Value
  decimal t = D.parse (or_default t (D.literal 0))

  abbrev pub money : D.Value → D.Text
  money v = D.to_fixed 8 (D.to_decimal_places 8 v)

  pub record PositionAccountingState : Type 0 where
    pub quantity : Option D.Text
    pub average_entry_price : Option D.Text
    pub realized_pnl : Option D.Text
    pub unrealized_pnl : Option D.Text

  pub record PositionAccountingResult : Type 0 where
    pub quantity : D.Text
    pub average_entry_price : Option D.Text
    pub realized_pnl : D.Text
    pub unrealized_pnl : D.Text
    pub last_price : Option D.Text

  -- The variables of the loop over the fills.
  pub record Books : Type 0 where
    pub quantity : D.Value
    pub average_entry_price : D.Value
    pub realized_pnl : D.Value
    pub last_price : Option D.Value

module _ {D : Decimal} where
  abbrev buy_fill : Books D → FillEvent D → Books D
  buy_fill b f =
      let fill_quantity = D.parse f.quantity in
      let current_cost = D.times b.quantity b.average_entry_price in
      let added_cost = D.plus (D.times fill_quantity (D.parse f.price)) (D.parse f.fee) in
      let quantity = D.plus b.quantity fill_quantity in
      record b {
        quantity = quantity;
        average_entry_price =
            if D.is_zero quantity
            then D.of_nat 0
            else D.div (D.plus current_cost added_cost) quantity;
        last_price = some (D.parse f.price);
      }

  abbrev sell_fill : Books D → FillEvent D → Books D
  sell_fill b f =
      let fill_quantity = D.parse f.quantity in
      let gain = D.times (D.minus (D.parse f.price) b.average_entry_price) fill_quantity in
      let left = D.minus b.quantity fill_quantity in
      let closed = D.lte left (D.of_nat 0) in
      record {
        quantity = if closed then D.of_nat 0 else left;
        average_entry_price = if closed then D.of_nat 0 else b.average_entry_price;
        realized_pnl = D.minus (D.plus b.realized_pnl gain) (D.parse f.fee);
        last_price = some (D.parse f.price);
      }

  -- One round of the loop; `none` is the PositionAccountingError of an oversold position.
  unfoldable pub account_fill : Side → Books D → FillEvent D → Option (Books D)
  account_fill Side.buy b f = some (buy_fill b f)
  account_fill Side.sell b f =
      if D.gt (D.parse f.quantity) b.quantity then none else some (sell_fill b f)

  unfoldable pub account_fills : Side → Books D → List (FillEvent D) → Option (Books D)
  account_fills side b [] = some b
  account_fills side b (f ∷ fs) = elim (account_fill side b f) [
    | none ↦ none
    | some c ↦ account_fills side c fs
  ]

  abbrev field :
      Option (PositionAccountingState D)
      → (PositionAccountingState D → Option D.Text)
      → Option D.Text
  field none f = none
  field (some s) f = f s

  unfoldable pub opening_books : Option (PositionAccountingState D) → Books D
  opening_books s = record {
    quantity = decimal D (field s (λ x. x.quantity));
    average_entry_price = decimal D (field s (λ x. x.average_entry_price));
    realized_pnl = decimal D (field s (λ x. x.realized_pnl));
    last_price = none;
  }

  abbrev unrealized : Option (PositionAccountingState D) → Books D → Option D.Value → D.Value
  unrealized s b none = decimal D (field s (λ x. x.unrealized_pnl))
  unrealized s b (some p) = D.times (D.minus p b.average_entry_price) b.quantity

  unfoldable pub closing_result :
      Option (PositionAccountingState D) → Books D → PositionAccountingResult D
  closing_result s b = record {
    quantity = money D b.quantity;
    average_entry_price =
        if D.is_zero b.quantity then none else some (money D b.average_entry_price);
    realized_pnl = money D b.realized_pnl;
    unrealized_pnl = money D (unrealized s b b.last_price);
    last_price = elim b.last_price [ none ↦ none | some p ↦ some (money D p) ];
  }

  -- `calculatePositionAccounting`; `none` is its exception.
  unfoldable pub calculate_position_accounting :
      Option (PositionAccountingState D)
      → Side
      → List (FillEvent D)
      → Option (PositionAccountingResult D)
  calculate_position_accounting s side fills = elim (account_fills side (opening_books s) fills) [
    | none ↦ none
    | some b ↦ some (closing_result s b)
  ]

  abbrev add_quantities : D.Value → List (FillEvent D) → D.Value
  add_quantities sum [] = sum
  add_quantities sum (f ∷ fs) = add_quantities (D.plus sum (D.parse f.quantity)) fs

  abbrev add_notionals : D.Value → List (FillEvent D) → D.Value
  add_notionals sum [] = sum
  add_notionals sum (f ∷ fs) =
      add_notionals (D.plus sum (D.times (D.parse f.quantity) (D.parse f.price))) fs

  unfoldable pub average_fill_price : List (FillEvent D) → Option D.Text
  average_fill_price fills =
      let filled = add_quantities (D.of_nat 0) fills in
      if D.is_zero filled
      then none
      else some (money D (D.div (add_notionals (D.of_nat 0) fills) filled))

  unfoldable pub filled_quantity : List (FillEvent D) → D.Text
  filled_quantity fills = money D (add_quantities (D.of_nat 0) fills)
