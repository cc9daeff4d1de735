-- ===== src/Store/Bind.antt =====
-- Inversion of a bind: what a workflow that ends well has done first, and what comes of one that
-- throws. A transaction keeps the calls to the broker, and the tables when it ends well.
use mt5_ai_trading.Prelude.{◌≡◌, refl, ap, ◌⊎◌, inl, inr, arith}
use mt5_ai_trading.Numeric.{Decimal}
use mt5_ai_trading.Store.State.{World, Action, Result, Error, ok, err, with_transaction, ◌>>=◌}

module _ {D : Decimal} where
  -- How the first part of a bind has ended, and what the whole is then.
  pub bind_cases :
      {A B : Type 0} (m : Action D A) (f : A → Action D B) (w : World D)
      → ((a : A) × ((m w).0 ≡ ok a) × ((m >>= f) w ≡ f a (m w).1))
        ⊎ ((e : Error D) × ((m w).0 ≡ err e) × ((m >>= f) w ≡ (err e, (m w).1)))
  bind_cases {A} {B} m f w = go (m w).0 (m w).1 refl
    where
      cont : Result D A → World D → Result D B × World D
      cont r w' = elim r [ ok a ↦ f a w' | err e ↦ (err e, w') ]

      go :
          (r : Result D A) (w' : World D)
          → (m w).0 ≡ r
          → ((a : A) × ((m w).0 ≡ ok a) × (cont r w' ≡ f a w'))
            ⊎ ((e : Error D) × ((m w).0 ≡ err e) × (cont r w' ≡ (err e, w')))
      go (ok a) w' e = inl (a, e, refl)
      go (err x) w' e = inr (x, e, refl)

  pub with_transaction-calls :
      {A : Type 0} (m : Action D A) (w : World D) → (with_transaction m w).1.calls ≡ (m w).1.calls
  unfolding with_transaction
  with_transaction-calls {A} m w = go (m w).0 (m w).1
    where
      go :
          (r : Result D A) (w' : World D)
          → (let q : Result D A × World D = elim r [
            | ok a ↦ (ok a, w')
            | err e ↦ (err e, record w' { db = w.db })
          ] in
              q.1.calls ≡ w'.calls)
      go (ok a) w' = refl
      go (err e) w' = refl

  pub with_transaction-ok :
      {A : Type 0} (m : Action D A) (w : World D) (a : A)
      → (m w).0 ≡ ok a
      → with_transaction m w ≡ (ok a, (m w).1)
  unfolding with_transaction
  with_transaction-ok m w a h = ground arith

  pub with_transaction-err :
      {A : Type 0} (m : Action D A) (w : World D) (e : Error D)
      → (m w).0 ≡ err e
      → with_transaction m w ≡ (err e, record ((m w).1) { db = w.db })
  unfolding with_transaction
  with_transaction-err m w e h = ground arith

  -- A bind goes on from where its first part has ended.
  pub >>=-ok :
      {A B : Type 0} (m : Action D A) (f : A → Action D B) (w : World D) {a : A} {w' : World D}
      → m w ≡ (ok a, w')
      → (m >>= f) w ≡ f a w'
  >>=-ok {A} {B} m f w h = ap cont h
    where
      cont : Result D A × World D → Result D B × World D
      cont q = elim q.0 [ ok a ↦ f a q.1 | err e ↦ (err e, q.1) ]

  pub >>=-err :
      {A B : Type 0} (m : Action D A) (f : A → Action D B) (w : World D) {e : Error D}
      {w' : World D}
      → m w ≡ (err e, w')
      → (m >>= f) w ≡ (err e, w')
  >>=-err {A} {B} m f w h = ap cont h
    where
      cont : Result D A × World D → Result D B × World D
      cont q = elim q.0 [ ok a ↦ f a q.1 | err e ↦ (err e, q.1) ]
