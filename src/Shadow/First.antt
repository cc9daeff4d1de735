-- ===== src/Shadow/First.antt =====
-- Which candle decides an entered trade.
use mt5_ai_trading.Prelude.{
  ◌≡◌, ◌≢◌, ◌≤◌, Bool-cases, refl, ap, ◌⊎◌, inl, inr, true, false, Option, none, some, List, [],
  ◌∷◌, ◌++◌, All, arith, ◌<◌, or_default,
}
use mathlib.Core.Path.{subst}
use mt5_ai_trading.Numeric.{Decimal}
use mt5_ai_trading.Shadow.{
  SimpleBar, Outcome, closes, running, Watch, ShadowExit, opens_at, hits_stop, hits_target,
  both_touched, better, worse, decide_bar, evaluate_bars,
}

module _ {D : Decimal} where
  -- A candle that touches neither level and opens before the deadline.
  pub record IsPassed (x : Watch D) (b : SimpleBar D) : Type 0 where
    pub no_stop : hits_stop D x.side x.stop b ≡ false
    pub no_target : hits_target D x.side x.target b ≡ false
    pub in_time : opens_at D b < x.deadline

  decide_bar-IsPassed : (x : Watch D) (b : SimpleBar D) → decide_bar D x b ≡ none → IsPassed x b
  unfolding decide_bar
  decide_bar-IsPassed x b h = ground arith

  -- The reason for which a candle that is not passed closes the trade.
  abbrev pub Decides : Watch D → SimpleBar D → ShadowExit → Type 0
  Decides x b ShadowExit.stop_loss =
      (hits_stop D x.side x.stop b ≡ true)
      × ((hits_target D x.side x.target b ≡ false) ⊎ (x.resolve b ≡ some ShadowExit.stop_loss))
  Decides x b ShadowExit.take_profit =
      (hits_target D x.side x.target b ≡ true)
      × ((hits_stop D x.side x.stop b ≡ false) ⊎ (x.resolve b ≡ some ShadowExit.take_profit))
  Decides x b ShadowExit.ambiguous_outcome =
      (hits_stop D x.side x.stop b ≡ true)
      × (hits_target D x.side x.target b ≡ true)
      × (x.resolve b ≢ some ShadowExit.stop_loss)
      × (x.resolve b ≢ some ShadowExit.take_profit)
  Decides x b ShadowExit.time_exit =
      (hits_stop D x.side x.stop b ≡ false)
      × (hits_target D x.side x.target b ≡ false)
      × (x.deadline ≤ opens_at D b)

  -- The price at which it closes.
  abbrev pub exit_price : Watch D → SimpleBar D → ShadowExit → Option D.Value
  exit_price x b ShadowExit.stop_loss = some x.stop
  exit_price x b ShadowExit.take_profit = some x.target
  exit_price x b ShadowExit.ambiguous_outcome = none
  exit_price x b ShadowExit.time_exit = some b.close

  -- The outcome is that of this candle.
  abbrev pub IsOutcome : Watch D → SimpleBar D → Outcome D → Type 0
  IsOutcome x b o =
      (reason : ShadowExit) × Decides x b reason
      × (o ≡ closes reason (exit_price x b reason) (opens_at D b))

  both_touched-IsOutcome :
      (x : Watch D) (b : SimpleBar D) (r : Option ShadowExit)
      → x.resolve b ≡ r
      → hits_stop D x.side x.stop b ≡ true
      → hits_target D x.side x.target b ≡ true
      → IsOutcome x b (both_touched D x b r)
  both_touched-IsOutcome x b none e s t =
      (ShadowExit.ambiguous_outcome, (s, t, λ h. absurd cc, λ h. absurd cc), refl)
  both_touched-IsOutcome x b (some ShadowExit.stop_loss) e s t =
      (ShadowExit.stop_loss, (s, inr e), refl)
  both_touched-IsOutcome x b (some ShadowExit.take_profit) e s t =
      (ShadowExit.take_profit, (t, inr e), refl)
  both_touched-IsOutcome x b (some ShadowExit.time_exit) e s t =
      (ShadowExit.ambiguous_outcome, (s, t, λ h. absurd cc, λ h. absurd cc), refl)
  both_touched-IsOutcome x b (some ShadowExit.ambiguous_outcome) e s t =
      (ShadowExit.ambiguous_outcome, (s, t, λ h. absurd cc, λ h. absurd cc), refl)

  decide_bar-IsOutcome :
      (x : Watch D) (b : SimpleBar D) (o : Outcome D) → decide_bar D x b ≡ some o → IsOutcome x b o
  unfolding decide_bar
  decide_bar-IsOutcome x b o h = elim (Bool-cases (hits_stop D x.side x.stop b)) [
    | inl s ↦ elim (Bool-cases (hits_target D x.side x.target b)) [
      | inl t ↦
          subst (IsOutcome x b) (ground (arith, h, s, t))
            (both_touched-IsOutcome x b (x.resolve b) refl s t)
      | inr t ↦ (ShadowExit.stop_loss, (s, inl t), ground (arith, h, s, t))
    ]
    | inr s ↦ elim (Bool-cases (hits_target D x.side x.target b)) [
      | inl t ↦ (ShadowExit.take_profit, (t, inl s), ground (arith, h, s, t))
      | inr t ↦ (ShadowExit.time_exit, (s, t, ground (arith, h, s, t)), ground (arith, h, s, t))
    ]
  ]

  -- What the loop over the candles says: all of them are passed and the trade is still open, or the
  -- first one that is not passed decides.
  abbrev pub IsVerdict : Watch D → List (SimpleBar D) → Outcome D → Type 0
  IsVerdict x bars o =
      (All (IsPassed x) bars × ((best : D.Value) × (worst : D.Value) × (o ≡ running best worst)))
      ⊎ ((before : List (SimpleBar D)) × (b : SimpleBar D) × (after : List (SimpleBar D)) × (bars
            ≡ before ++ b ∷ after)
          × All (IsPassed x) before
          × IsOutcome x b o)

  -- An entered trade stays open while every candle is passed, that is, touches neither its stop nor
  -- its target and opens before the deadline; otherwise the first candle that is not passed closes it,
  -- for the reason and at the price that this candle decides.
  pub evaluate_bars-IsVerdict :
      (x : Watch D) (bars : List (SimpleBar D)) (best worst : D.Value)
      → IsVerdict x bars (evaluate_bars D x bars best worst)
  unfolding evaluate_bars
  evaluate_bars-IsVerdict x [] best worst = inl (tt, (_, _, refl))
  evaluate_bars-IsVerdict x (b ∷ bs) best worst =
      go (decide_bar D x b) refl (λ p q. evaluate_bars-IsVerdict x bs p q)
    where
      go :
          (o : Option (Outcome D))
          → decide_bar D x b ≡ o
          → ((p q : D.Value) → IsVerdict x bs (evaluate_bars D x bs p q))
          → IsVerdict x (b ∷ bs) (
              or_default o (evaluate_bars D x bs (better D x.side best b) (worse D x.side worst b)))
      go (some o) e rest = inr ([], b, bs, refl, tt, decide_bar-IsOutcome x b o e)
      go none e rest = elim (rest (better D x.side best b) (worse D x.side worst b)) [
        | inl (passed, open_still) ↦ inl ((decide_bar-IsPassed x b e, passed), open_still)
        | inr (before, c, after, split, passed, outcome) ↦ inr (
          b ∷ before,
          c,
          after,
          ap (λ l. b ∷ l) split,
          (decide_bar-IsPassed x b e, passed),
          outcome,
        )
      ]
