-- ===== src/Execution/Bounds.antt =====
-- The loop over the fills of `calculatePositionAccounting`: what the quantity, the average entry
-- price and the realized profit can become.
use mt5_ai_trading.Prelude.{
  ◌≡◌, refl, ◌∙◌, sym, ap, ◌⊎◌, inl, inr, true, false, Option, none, some, List, [], ◌∷◌, arith,
  All, Option-cases,
}
use mathlib.Core.Path.{subst}
use mt5_ai_trading.Numeric.{Decimal, IsDecimal}
use mt5_ai_trading.Domain.{Side, FillEvent}
use mt5_ai_trading.Execution.Accounting.{Books, account_fill, account_fills}

abbrev pub IsNonnegative : (D : Decimal) → D.Value → Type 0
IsNonnegative D x = D.lte (D.of_nat 0) x ≡ true

module _ {D : Decimal} where
  abbrev pub HasQuantity : FillEvent D → Type 0
  HasQuantity f = IsNonnegative D (D.parse f.quantity) × (D.is_finite (D.parse f.quantity) ≡ true)

  abbrev pub IsPositiveFill : FillEvent D → Type 0
  IsPositiveFill f = D.gt (D.parse f.quantity) (D.of_nat 0) ≡ true

  -- What the loop keeps of the quantity: sold from, it stays finite.
  abbrev IsHeld : Side → Books D → Type 0
  IsHeld Side.buy b = IsNonnegative D b.quantity
  IsHeld Side.sell b = IsNonnegative D b.quantity × (D.is_finite b.quantity ≡ true)

  IsHeld-nonneg : (s : Side) (b : Books D) → IsHeld s b → IsNonnegative D b.quantity
  IsHeld-nonneg Side.buy b h = h
  IsHeld-nonneg Side.sell b h = h.0

  account_fill-IsHeld :
      (L : IsDecimal D) (s : Side) (b : Books D) (f : FillEvent D) (c : Books D)
      → IsHeld s b
      → HasQuantity f
      → account_fill s b f ≡ some c
      → IsHeld s c
  unfolding account_fill
  account_fill-IsHeld L Side.buy b f c q h e =
      ground (arith, L.plus_nonneg b.quantity (D.parse f.quantity) q h.0)
  account_fill-IsHeld L Side.sell b f c (q, fin) (h, fin') e =
      let n = (L.lte_numbers (D.of_nat 0) b.quantity q).1 in
      let m = (L.lte_numbers (D.of_nat 0) (D.parse f.quantity) h).1 in
      ground (
        arith,
        L.gt-eq-not-lte (D.parse f.quantity) b.quantity m n,
        L.minus_nonneg b.quantity (D.parse f.quantity) fin fin' h,
        L.zero_number,
        L.zero_finite,
      )

  account_fills-step :
      (s : Side) (b : Books D) (f : FillEvent D) (fs : List (FillEvent D)) (d : Books D)
      → account_fill s b f ≡ some d
      → account_fills s b (f ∷ fs) ≡ account_fills s d fs
  unfolding account_fills
  account_fills-step s b f fs d h = ap (next s fs) h
    where
      next : Side → List (FillEvent D) → Option (Books D) → Option (Books D)
      next s fs o = elim o [ none ↦ none | some c ↦ account_fills s c fs ]

  account_fills-IsHeld :
      (L : IsDecimal D) (s : Side) (fs : List (FillEvent D)) (b c : Books D)
      → IsHeld s b
      → All HasQuantity fs
      → account_fills s b fs ≡ some c
      → IsHeld s c
  unfolding account_fills
  account_fills-IsHeld L s [] b c q h e = subst (IsHeld s) (ground arith) q
  account_fills-IsHeld L s (f ∷ fs) b c q h e = elim (Option-cases (account_fill s b f)) [
    | inl failed ↦ absurd (ground (arith, failed))
    | inr (d, done) ↦
        account_fills-IsHeld L s fs d c (account_fill-IsHeld L s b f d q h.0 done) h.1
          (sym (account_fills-step s b f fs d done) ∙ e)
  ]

  opens-IsHeld :
      (s : Side) (b : Books D)
      → IsNonnegative D b.quantity
      → D.is_finite b.quantity ≡ true
      → IsHeld s b
  opens-IsHeld Side.buy b h fin = h
  opens-IsHeld Side.sell b h fin = (h, fin)

  -- A finite quantity that is not negative leaves one that is not negative after any fills whose
  -- quantities are finite and not negative, unless the accounting throws.
  pub account_fills-nonneg :
      (L : IsDecimal D) (s : Side) (fs : List (FillEvent D)) (b c : Books D)
      → IsNonnegative D b.quantity
      → D.is_finite b.quantity ≡ true
      → All HasQuantity fs
      → account_fills s b fs ≡ some c
      → IsNonnegative D c.quantity
  account_fills-nonneg L s fs b c q fin h e =
      IsHeld-nonneg s c (account_fills-IsHeld L s fs b c (opens-IsHeld s b q fin) h e)

  -- BUY fills never make the accounting throw, and leave the realized profit as it was.
  pub account_buys :
      (fs : List (FillEvent D)) (b : Books D)
      → (c : Books D) × (account_fills Side.buy b fs ≡ some c) × (c.realized_pnl ≡ b.realized_pnl)
  unfolding account_fills account_fill
  account_buys [] b = (b, refl, refl)
  account_buys (f ∷ fs) b = account_buys fs _

  abbrev pub IsOpen : Books D → Type 0
  IsOpen b = D.lte b.quantity (D.of_nat 0) ≡ false

  abbrev pub IsClosed : Books D → Type 0
  IsClosed b = (b.quantity ≡ D.of_nat 0) × (b.average_entry_price ≡ D.of_nat 0)

  sell_step :
      (b : Books D) (f : FillEvent D) (d : Books D)
      → account_fill Side.sell b f ≡ some d
      → IsClosed d ⊎ (IsOpen d × (d.average_entry_price ≡ b.average_entry_price))
  unfolding account_fill
  sell_step b f d h = ground arith

  IsClosed-refuses :
      (b : Books D) (f : FillEvent D)
      → IsClosed b
      → IsPositiveFill f
      → account_fill Side.sell b f ≡ none
  unfolding account_fill
  IsClosed-refuses b f h p = ground arith

  IsClosed-ends :
      (fs : List (FillEvent D)) (b c : Books D)
      → IsClosed b
      → All IsPositiveFill fs
      → account_fills Side.sell b fs ≡ some c
      → IsClosed c
  unfolding account_fills
  IsClosed-ends [] b c k h e = ground arith
  IsClosed-ends (f ∷ fs) b c k h e = absurd (ground (arith, IsClosed-refuses b f k h.0))

  -- SELL fills of positive quantities, if the accounting does not throw, either close an open
  -- position, with quantity and average entry price zero, or leave it open at the same average price.
  pub account_sells :
      (fs : List (FillEvent D)) (b c : Books D)
      → IsOpen b
      → All IsPositiveFill fs
      → account_fills Side.sell b fs ≡ some c
      → IsClosed c ⊎ (IsOpen c × (c.average_entry_price ≡ b.average_entry_price))
  unfolding account_fills
  account_sells [] b c o h e = inr (ground arith)
  account_sells (f ∷ fs) b c o h e = elim (Option-cases (account_fill Side.sell b f)) [
    | inl failed ↦ absurd (ground (arith, failed))
    | inr (d, done) ↦
        let rest = sym (account_fills-step Side.sell b f fs d done) ∙ e in
        elim (sell_step b f d done) [
          | inl closed ↦ inl (IsClosed-ends fs d c closed h.1 rest)
          | inr (left, same) ↦ elim (account_sells fs d c left h.1 rest) [
            | inl closed ↦ inl closed
            | inr (still, kept) ↦ inr (still, kept ∙ same)
          ]
        ]
  ]
