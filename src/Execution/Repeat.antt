-- ===== src/Execution/Repeat.antt =====
-- `persistFills` of apps/api/src/services/trade-execution-service.ts, run again over the same
-- fills.

use mt5_ai_trading.Prelude.{
  ℕ, ◌≡◌, refl, ◌∙◌, sym, ap, ◌⊎◌, inl, inr, Bool, true, false, Option, none, some, List, [], ◌∷◌,
  ◌++◌, arith, find, any,
}
use mt5_ai_trading.Numeric.{Decimal}
use mt5_ai_trading.Domain.{Fill, FillEvent, FillType}
use mt5_ai_trading.Store.{
  World, ok, pure, or_else, ◌>>=◌, has_fill_id, find_fill_by_broker_fill_id, create_fill,
}
use mt5_ai_trading.Store.Bind.{>>=-ok}
use mt5_ai_trading.Store.Tables.{find-append_new}
use mt5_ai_trading.Store.Keeps.{bind_inversion}
use mt5_ai_trading.Execution.Records.{fill_type, persist_fill, persist_fills}

find-append_old :
    {A : Type 0} (p : A → Bool) (l : List A) (a b : A)
    → find p l ≡ some a
    → find p (l ++ b ∷ []) ≡ some a
find-append_old p [] a b h = ground arith
find-append_old p (x ∷ l) a b h = ground (arith, find-append_old p l a b)

module _ {D : Decimal} where
  abbrev found : ℕ → World D → Option (Fill D)
  found k w = find (has_fill_id k) w.db.fills

  persist_known :
      (o : ℕ) (f : FillEvent D) (w : World D) (x : Fill D)
      → found f.fill_id w ≡ some x
      → persist_fill o f w ≡ (ok x, w)
  unfolding persist_fill find_fill_by_broker_fill_id
  persist_known o f w x h = rw h refl

  create_fill-appends :
      (o : ℕ) (q p c : D.Text) (t : FillType) (k at : ℕ) (w w' : World D) (x : Fill D)
      → create_fill o q p c t k at w ≡ (ok x, w')
      → (any (has_fill_id k) w.db.fills ≡ false)
        × (has_fill_id k x ≡ true)
        × (w'.db.fills ≡ w.db.fills ++ x ∷ [])
  unfolding create_fill
  create_fill-appends o q p c t k at w w' x h = ground arith

  -- A fill is there already, or has been added at the end of the table.
  Added : ℕ → World D → World D → Fill D → Type 0
  Added k w w' x =
      ((found k w ≡ some x) × (w' ≡ w))
      ⊎ ((found k w ≡ none) × (has_fill_id k x ≡ true) × (w'.db.fills ≡ w.db.fills ++ x ∷ []))

  persist_fill-Added :
      (o : ℕ) (f : FillEvent D) (w w' : World D) (x : Fill D)
      → persist_fill o f w ≡ (ok x, w')
      → Added f.fill_id w w' x
  unfolding persist_fill find_fill_by_broker_fill_id Added
  persist_fill-Added o f w w' x h = go (found f.fill_id w) refl h
    where
      go :
          (e : Option (Fill D))
          → found f.fill_id w ≡ e
          → or_else e (create_fill o f.quantity f.price f.fee (fill_type f) f.fill_id f.filled_at) w
            ≡ (ok x, w')
          → Added f.fill_id w w' x
      go (some y) there ran =
          inl (there ∙ ground (arith, ap (λ q. q.0) ran), ap (λ q. q.1) (sym ran))
      go none missing ran =
          let (fresh, named, rows) =
            create_fill-appends o f.quantity f.price f.fee (fill_type f) f.fill_id f.filled_at w w'
              x ran in
          inr (missing, named, rows)

  persist_fill-finds :
      (o : ℕ) (f : FillEvent D) (w w' : World D) (x : Fill D)
      → persist_fill o f w ≡ (ok x, w')
      → found f.fill_id w' ≡ some x
  unfolding Added
  persist_fill-finds o f w w' x h = elim (persist_fill-Added o f w w' x h) [
    | inl (there, same) ↦ ap (found f.fill_id) same ∙ there
    | inr (missing, named, rows) ↦
        ap (find (has_fill_id f.fill_id)) rows
        ∙ find-append_new (has_fill_id f.fill_id) w.db.fills x missing named
  ]

  persist_fill-keeps :
      (o k : ℕ) (f : FillEvent D) (w w' : World D) (x y : Fill D)
      → persist_fill o f w ≡ (ok x, w')
      → found k w ≡ some y
      → found k w' ≡ some y
  unfolding Added
  persist_fill-keeps o k f w w' x y h g = elim (persist_fill-Added o f w w' x h) [
    | inl (there, same) ↦ ap (found k) same ∙ g
    | inr (missing, named, rows) ↦
        ap (find (has_fill_id k)) rows ∙ find-append_old (has_fill_id k) w.db.fills y x g
  ]

  persist_fills-keeps :
      (o k : ℕ) (fs : List (FillEvent D)) (w w' : World D) (xs : List (Fill D)) (y : Fill D)
      → persist_fills o fs w ≡ (ok xs, w')
      → found k w ≡ some y
      → found k w' ≡ some y
  unfolding persist_fills
  persist_fills-keeps o k [] w w' xs y h g = ap (λ q. found k q.1) (sym h) ∙ g
  persist_fills-keeps o k (f ∷ fs) w w' xs y h g =
      let (x, first, rest) =
        bind_inversion (persist_fill o f) (λ x. persist_fills o fs >>= λ xs. pure (x ∷ xs)) w w' xs
          h in
      let v = (persist_fill o f w).1 in
      let (ys, others, last) =
        bind_inversion (persist_fills o fs) (λ xs. pure (x ∷ xs)) v w' xs rest in
      ap (λ q. found k q.1) (sym last)
      ∙ persist_fills-keeps o k fs v (persist_fills o fs v).1 ys y
          (ap (λ r. (r, (persist_fills o fs v).1)) others)
          (persist_fill-keeps o k f w v x y (ap (λ r. (r, v)) first) g)

  persist_fills_step :
      (o : ℕ) (f : FillEvent D) (fs : List (FillEvent D)) (w : World D) (x : Fill D)
      (xs : List (Fill D))
      → persist_fill o f w ≡ (ok x, w)
      → persist_fills o fs w ≡ (ok xs, w)
      → persist_fills o (f ∷ fs) w ≡ (ok (x ∷ xs), w)
  unfolding persist_fills
  persist_fills_step o f fs w x xs first rest =
      >>=-ok (persist_fill o f) (λ x. persist_fills o fs >>= λ xs. pure (x ∷ xs)) w first
      ∙ >>=-ok (persist_fills o fs) (λ xs. pure (x ∷ xs)) w rest

  -- Once `persistFills` has stored a list of fills, a later run over the same list, for this order or
  -- another, returns the same rows and changes nothing.
  pub persist_fills_again :
      (o again : ℕ) (fs : List (FillEvent D)) (w w' : World D) (xs : List (Fill D))
      → persist_fills o fs w ≡ (ok xs, w')
      → persist_fills again fs w' ≡ (ok xs, w')
  unfolding persist_fills
  persist_fills_again o again [] w w' xs h = ap (λ q. (q.0, w')) h
  persist_fills_again o again (f ∷ fs) w w' xs h =
      let (x, first, rest) =
        bind_inversion (persist_fill o f) (λ x. persist_fills o fs >>= λ xs. pure (x ∷ xs)) w w' xs
          h in
      let v = (persist_fill o f w).1 in
      let (ys, others, last) =
        bind_inversion (persist_fills o fs) (λ xs. pure (x ∷ xs)) v w' xs rest in
      let end : (persist_fills o fs v).1 ≡ w' = ap (λ q. q.1) last in
      let done : persist_fills o fs v ≡ (ok ys, w') =
        ap (λ r. (r, (persist_fills o fs v).1)) others ∙ ap (λ u. (ok ys, u)) end in
      let stored =
        persist_fills-keeps o f.fill_id fs v w' ys x done
          (persist_fill-finds o f w v x (ap (λ r. (r, v)) first)) in
      persist_fills_step again f fs w' x ys (persist_known again f w' x stored)
        (persist_fills_again o again fs v w' ys done)
      ∙ ap (λ q. (q.0, w')) last
