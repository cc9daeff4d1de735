-- ===== src/Hourly/Counts.antt =====
-- How often rows of a list pass a test.
use mt5_ai_trading.Prelude.{
  ℕ, ◌+◌, ◌≡◌, refl, Bool, false, List, [], ◌∷◌, ◌++◌, arith, any, update_rows, if◌then◌else◌,
}

module _ {A : Type 0} where
  abbrev pub count_rows : (A → Bool) → List A → ℕ
  count_rows p [] = 0
  count_rows p (x ∷ xs) = (if p x then 1 else 0) + count_rows p xs

  pub count_rows-append :
      (p : A → Bool) (l : List A) (a : A) → count_rows p (l ++ a ∷ []) ≡ count_rows p (a ∷ l)
  count_rows-append p [] a = refl
  count_rows-append p (x ∷ l) a = ground (arith, count_rows-append p l a)

  pub count_rows-none : (p : A → Bool) (l : List A) → any p l ≡ false → count_rows p l ≡ 0
  count_rows-none p [] h = refl
  count_rows-none p (x ∷ l) h = ground (arith, count_rows-none p l)

  pub count_rows-update_rows :
      (p q : A → Bool) (f : A → A) (l : List A)
      → ((x : A) → p (f x) ≡ p x)
      → count_rows p (update_rows q f l) ≡ count_rows p l
  count_rows-update_rows p q f [] keep = refl
  count_rows-update_rows p q f (x ∷ l) keep =
      ground (arith, keep x, count_rows-update_rows p q f l keep)
