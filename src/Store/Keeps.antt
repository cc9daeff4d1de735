-- ===== src/Store/Keeps.antt =====
-- Steps that leave a part of the world as it is, whatever they return or throw, and the inversion of
-- what ends well.
use mt5_ai_trading.Prelude.{
  ℕ, Bool, true, false, Option, none, some, ◌≡◌, refl, sym, ◌∙◌, inl, inr, arith, ap, if◌then◌else◌,
}
use mt5_ai_trading.Numeric.{Decimal}
use mt5_ai_trading.Store.State.{
  World, Db, Action, Result, Error, Reply, replied, failed, ok, err, pure, throw, gets, row,
  or_throw, of_reply, throw_if, modify_db, insert, in_transaction, with_transaction, ◌>>=◌,
}
use mt5_ai_trading.Store.Bind.{bind_cases}

module _ {D : Decimal} where
  pub bind_inversion :
      {A B : Type 0} (m : Action D A) (f : A → Action D B) (w w' : World D) (b : B)
      → (m >>= f) w ≡ (ok b, w')
      → (a : A) × ((m w).0 ≡ ok a) × (f a (m w).1 ≡ (ok b, w'))
  bind_inversion m f w w' b h = elim (bind_cases m f w) [
    | inl (a, done, same) ↦ (a, done, sym same ∙ h)
    | inr (e, thrown, same) ↦ absurd (ground (arith, ap (λ q. q.0) (sym same ∙ h)))
  ]

  pub or_throw_inversion :
      {A B : Type 0} (o : Option A) (e : Error D) (f : A → Action D B) (w w' : World D) (b : B)
      → (or_throw o e >>= f) w ≡ (ok b, w')
      → (a : A) × (o ≡ some a) × (f a w ≡ (ok b, w'))
  or_throw_inversion none e f w w' b h = absurd (ground (arith, ap (λ q. q.0) h))
  or_throw_inversion (some a) e f w w' b h = (a, refl, h)

  pub of_reply_inversion :
      {A B : Type 0} (o : Reply A) (f : A → Action D B) (w w' : World D) (b : B)
      → (of_reply o >>= f) w ≡ (ok b, w')
      → (a : A) × (f a w ≡ (ok b, w'))
  of_reply_inversion (failed m) f w w' b h = absurd (ground (arith, ap (λ q. q.0) h))
  of_reply_inversion (replied a) f w w' b h = (a, h)

  pub transaction_inversion :
      {A : Type 0} (m : Action D A) (w w' : World D) (a : A)
      → with_transaction m w ≡ (ok a, w')
      → m w ≡ (ok a, w')
  unfolding with_transaction
  transaction_inversion {A} m w w' a h = go (m w).0 (m w).1 h
    where
      go :
          (r : Result D A) (v : World D)
          → in_transaction w (r, v) ≡ (ok a, w')
          → Path (Result D A × World D) (r, v) (ok a, w')
      go (ok x) v h = h
      go (err e) v h = absurd (ground (arith, ap (λ q. q.0) h))

  pub record Keeps {X : Type 0} (π : World D → X) {A : Type 0} (m : Action D A) : Type 0 where
    pub kept : (w : World D) → π (m w).1 ≡ π w

  module _ {X : Type 0} (π : World D → X) where
    pub >>=-Keeps :
        {A B : Type 0} (m : Action D A) (f : A → Action D B)
        → Keeps π m
        → ((a : A) → Keeps π (f a))
        → Keeps π (m >>= f)
    >>=-Keeps m f h g = record {
      kept = λ w. elim (bind_cases m f w) [
        | inl (a, done, same) ↦ ap (λ q. π q.1) same ∙ (g a).kept (m w).1 ∙ h.kept w
        | inr (e, thrown, same) ↦ ap (λ q. π q.1) same ∙ h.kept w
      ];
    }

    pub pure-Keeps : {A : Type 0} (a : A) → Keeps π (pure a)
    pure-Keeps a = record { kept = λ w. refl }

    pub throw-Keeps : {A : Type 0} (e : Error D) → Keeps π {A = A} (throw e)
    throw-Keeps e = record { kept = λ w. refl }

    pub gets-Keeps : {A : Type 0} (f : World D → A) → Keeps π (gets f)
    gets-Keeps f = record { kept = λ w. refl }

    pub throw_if-Keeps : (b : Bool) (e : Error D) → Keeps π (throw_if b e)
    throw_if-Keeps b e = record { kept = λ w. refl }

    pub row-Keeps : {A : Type 0} (o : Option A) → Keeps π {A = A} (row o)
    row-Keeps none = record { kept = λ w. refl }
    row-Keeps (some a) = record { kept = λ w. refl }

    pub or_throw-Keeps : {A : Type 0} (o : Option A) (e : Error D) → Keeps π {A = A} (or_throw o e)
    or_throw-Keeps none e = record { kept = λ w. refl }
    or_throw-Keeps (some a) e = record { kept = λ w. refl }

    pub ite-Keeps :
        {A : Type 0} (b : Bool) (m n : Action D A)
        → Keeps π m
        → Keeps π n
        → Keeps π (if b then m else n)
    ite-Keeps true m n h g = h
    ite-Keeps false m n h g = g

    pub of_reply-Keeps : {A : Type 0} (r : Reply A) → Keeps π {A = A} (of_reply r)
    of_reply-Keeps (replied a) = record { kept = λ w. refl }
    of_reply-Keeps (failed m) = record { kept = λ w. refl }

    pub modify_db-Keeps :
        (f : Db D → Db D)
        → ((w : World D) → π (record w { db = f w.db }) ≡ π w)
        → Keeps π (modify_db f)
    modify_db-Keeps f h = record { kept = λ w. h w }

    pub insert-Keeps :
        {A : Type 0} (f : ℕ → ℕ → A) (g : A → Db D → Db D)
        → ((a : A) (w : World D) (n : ℕ)
            → π (record w { db = g a (record (w.db) { next_id = n }) }) ≡ π w)
        → Keeps π (insert f g)
    insert-Keeps f g h = record { kept = λ w. h _ w _ }
