-- ===== src/Numeric/Whole.antt =====
-- Whole numbers as decimals, for runs of the model: integers without a NaN, of which division keeps
-- the whole part of the quotient of the magnitudes.
use mt5_ai_trading.Prelude.{
  ℕ, zero, suc, ◌+◌, ◌-◌, ◌*◌, ◌/◌, ◌≡◌, refl, ◌⊎◌, inl, inr, Bool, true, false, not, leb,
  if◌then◌else◌, arith, Bool-cases,
}
use mt5_ai_trading.Numeric.{Decimal, IsDecimal}

-- The integers over the native numbers: `negsuc n` is `-(n + 1)`.
pub data ℤ : Type 0 where
  pos negsuc : ℕ → ℤ

abbrev pub difference : ℕ → ℕ → ℤ
difference m n = if leb n m then pos (m - n) else negsuc (n - m - 1)

infixl 65 ◌+ℤ◌
abbrev pub ◌+ℤ◌ : ℤ → ℤ → ℤ
pos m +ℤ pos n = pos (m + n)
pos m +ℤ negsuc n = difference m (suc n)
negsuc m +ℤ pos n = difference n (suc m)
negsuc m +ℤ negsuc n = negsuc (suc (m + n))

abbrev pub negate : ℕ → ℤ
negate zero = pos 0
negate (suc n) = negsuc n

abbrev pub neg_ℤ : ℤ → ℤ
neg_ℤ (pos n) = negate n
neg_ℤ (negsuc n) = pos (suc n)

abbrev pub magnitude : ℤ → ℕ
magnitude (pos n) = n
magnitude (negsuc n) = suc n

abbrev pub is_positive : ℤ → ℤ → Bool
is_positive (pos m) (pos n) = true
is_positive (negsuc m) (negsuc n) = true
is_positive _ _ = false

abbrev pub signed : ℤ → ℤ → ℕ → ℤ
signed x y n = if is_positive x y then pos n else negate n

abbrev pub lte_ℤ : ℤ → ℤ → Bool
lte_ℤ (pos m) (pos n) = leb m n
lte_ℤ (pos m) (negsuc n) = false
lte_ℤ (negsuc m) (pos n) = true
lte_ℤ (negsuc m) (negsuc n) = leb n m

abbrev pub is_zero_ℤ : ℤ → Bool
is_zero_ℤ (pos zero) = true
is_zero_ℤ _ = false

abbrev pub whole_numbers : Decimal
whole_numbers = record {
  Text = ℤ;
  Value = ℤ;
  parse = λ t. t;
  of_nat = pos;
  literal = pos;
  plus = ◌+ℤ◌;
  minus = λ x y. x +ℤ neg_ℤ y;
  times = λ x y. signed x y (magnitude x * magnitude y);
  div = λ x y. signed x y (magnitude x / magnitude y);
  neg = neg_ℤ;
  abs = λ x. pos (magnitude x);
  floor = λ x. x;
  min = λ x y. if lte_ℤ x y then x else y;
  max = λ x y. if lte_ℤ x y then y else x;
  gt = λ x y. not (lte_ℤ x y);
  lt = λ x y. not (lte_ℤ y x);
  lte = lte_ℤ;
  is_zero = is_zero_ℤ;
  is_finite = λ _. true;
  to_decimal_places = λ _ x. x;
  round_down = λ x. x;
  to_fixed = λ _ x. x;
  numeric = λ t. t;
}

lte_self : (x : ℤ) → lte_ℤ x x ≡ true
lte_self (pos n) = ground arith
lte_self (negsuc n) = ground arith

lte_either : (x y : ℤ) → (lte_ℤ x y ≡ true) ⊎ (lte_ℤ y x ≡ true)
lte_either (pos m) (pos n) = ground arith
lte_either (pos m) (negsuc n) = inr refl
lte_either (negsuc m) (pos n) = inl refl
lte_either (negsuc m) (negsuc n) = ground arith

add_nonneg :
    (x y : ℤ) → lte_ℤ (pos 0) x ≡ true → lte_ℤ (pos 0) y ≡ true → lte_ℤ (pos 0) (x +ℤ y) ≡ true
add_nonneg (pos m) (pos n) h g = ground arith
add_nonneg (pos m) (negsuc n) h g = ground arith
add_nonneg (negsuc m) y h g = ground arith

subtract_nonneg : (x y : ℤ) → lte_ℤ y x ≡ true → lte_ℤ (pos 0) (x +ℤ neg_ℤ y) ≡ true
subtract_nonneg (pos m) (pos zero) h = ground arith
subtract_nonneg (pos m) (pos (suc n)) h = ground arith
subtract_nonneg (pos m) (negsuc n) h = ground arith
subtract_nonneg (negsuc m) (pos n) h = ground arith
subtract_nonneg (negsuc m) (negsuc n) h = ground arith

pub whole_numbers-IsDecimal : IsDecimal whole_numbers
whole_numbers-IsDecimal = record {
  zero_number = refl;
  zero_finite = refl;
  finite_number = λ x _. lte_self x;
  lte_numbers = λ x y _. (lte_self x, lte_self y);
  gt-eq-not-lte = λ x y _ _. refl;
  lt-eq-not-lte = λ x y _ _. refl;
  plus_nonneg = add_nonneg;
  minus_nonneg = λ x y _ _ _ h. (subtract_nonneg x y h, refl);
  times_number = λ x y _. lte_self x;
  div_number = λ x y _. lte_self x;
  floor_number = λ x _. lte_self x;
  min_number = λ x y _. (lte_self x, lte_self y);
  floor_lte = λ x _. lte_self x;
  floor_floor = λ x. refl;
  min_lte = λ x y _ _. elim (Bool-cases (lte_ℤ x y)) [
    | inl h ↦ rw h (lte_self x)
    | inr h ↦ rw h (ground (arith, lte_either x y))
  ];
  min_lte_right =
      λ x y _ _. elim (Bool-cases (lte_ℤ x y)) [ inl h ↦ rw h h | inr h ↦ rw h (lte_self y) ];
}
