-- ===== src/Store/Tables.antt =====
-- Laws of the row operations: an update reaches the row that a search finds, leaves the other rows
-- alone, and an insertion is found if nothing was.
use mt5_ai_trading.Prelude.{
  ◌≡◌, refl, Bool, true, false, none, some, List, [], ◌∷◌, ◌++◌, arith, find, any, update_rows,
  Bool-cases, inl, inr,
}

module _ {A : Type 0} where
  pub find-update_rows :
      (p : A → Bool) (f : A → A) (l : List A) (a : A)
      → ((x : A) → p x ≡ true → p (f x) ≡ true)
      → find p l ≡ some a
      → find p (update_rows p f l) ≡ some (f a)
  find-update_rows p f [] a keep h = ground arith
  find-update_rows p f (x ∷ l) a keep h = ground (arith, keep x, find-update_rows p f l a keep)

  pub find-update_rows_other :
      (p q : A → Bool) (f : A → A) (l : List A)
      → ((x : A) → q x ≡ true → p x ≡ false)
      → ((x : A) → q x ≡ true → p (f x) ≡ false)
      → find p (update_rows q f l) ≡ find p l
  find-update_rows_other p q f [] before after = refl
  find-update_rows_other p q f (x ∷ l) before after =
      ground (arith, before x, after x, find-update_rows_other p q f l before after)

  pub find-append_new :
      (p : A → Bool) (l : List A) (a : A)
      → find p l ≡ none
      → p a ≡ true
      → find p (l ++ a ∷ []) ≡ some a
  find-append_new p [] a h t = ground arith
  find-append_new p (x ∷ l) a h t = ground (arith, find-append_new p l a)

  -- An update of the rows under `q`, in which the row that `p` finds is.
  pub find-update_rows_at :
      (p q : A → Bool) (f : A → A) (l : List A) (a : A)
      → ((x : A) → p (f x) ≡ p x)
      → find p l ≡ some a
      → q a ≡ true
      → find p (update_rows q f l) ≡ some (f a)
  find-update_rows_at p q f [] a keep h t = ground arith
  find-update_rows_at p q f (x ∷ l) a keep h t =
      ground (arith, keep x, find-update_rows_at p q f l a keep)

  -- An update that leaves out the row that `p` finds.
  pub find-update_rows_past :
      (p q : A → Bool) (f : A → A) (l : List A) (a : A)
      → ((x : A) → p (f x) ≡ p x)
      → find p l ≡ some a
      → q a ≡ false
      → find p (update_rows q f l) ≡ some a
  find-update_rows_past p q f [] a keep h t = ground arith
  find-update_rows_past p q f (x ∷ l) a keep h t =
      ground (arith, keep x, find-update_rows_past p q f l a keep)

  pub find-any : (p : A → Bool) (l : List A) → any p l ≡ false → find p l ≡ none
  find-any p [] h = refl
  find-any p (x ∷ l) h = ground (arith, find-any p l)

  pub any-find : (p : A → Bool) (l : List A) (a : A) → find p l ≡ some a → any p l ≡ true
  any-find p [] a h = ground arith
  any-find p (x ∷ l) a h = ground (arith, any-find p l a)

  pub find-holds : (p : A → Bool) (l : List A) (a : A) → find p l ≡ some a → p a ≡ true
  find-holds p [] a h = ground arith
  find-holds p (x ∷ l) a h = ground (arith, find-holds p l a)

  -- The row that an update returns is one that it has set.
  pub find-update_rows_inv :
      (p : A → Bool) (f : A → A) (l : List A) (b : A)
      → ((x : A) → p (f x) ≡ p x)
      → find p (update_rows p f l) ≡ some b
      → (a : A) × (b ≡ f a)
  find-update_rows_inv p f [] b keep h = absurd (no_row h)
    where
      no_row : none ≡ some b → ⊥
      no_row e = cc
  find-update_rows_inv p f (x ∷ l) b keep h = elim (Bool-cases (p x)) [
    | inl hit ↦ (x, ground (arith, keep x))
    | inr miss ↦ find-update_rows_inv p f l b keep (ground (arith, keep x))
  ]
