-- ===== src/AiPlans/Broker.antt =====
-- What MT5 answers (apps/api/src/services/mt5-client.ts, an HTTP client of the trading engine), and
-- `planComment` with `findMt5EvidenceForPlan`.
use Prim.Native.String.{◌++◌ as str_append}
use Prim.Native.Char.{code}
use text.Mathlib.Text.{◌==◌ as str_eq}
use mt5_ai_trading.Prelude.{
  ℕ, zero, suc, Bool, ◌&&◌, ◌==◌, Option, List, String, find, or_default, if◌then◌else◌,
}
use mt5_ai_trading.Numeric.{Decimal}
use mt5_ai_trading.Store.{Reply}
use mt5_ai_trading.AiPlans.Plans.{AiTradePlan}

pub record Mt5Order : Type 0 where
  pub ticket : Option String
  pub symbol : String
  pub comment : Option String

module _ (D : Decimal) where
  -- `price_open` is there when it converts to a finite number.
  pub record Mt5Position : Type 0 where
    pub ticket : Option String
    pub symbol : String
    pub comment : Option String
    pub price_open : Option D.Value
    pub volume : Option D.Value

  -- Each answer may depend on the tickets that have been cancelled so far.
  pub record Mt5 : Type 0 where
    pub list_pending_orders : List String → Reply (List Mt5Order)
    pub list_positions : List String → Reply (List Mt5Position)
    pub cancel_pending_order : List String → String → Reply (Unit {0})

-- `replace(/-/g, '')`
abbrev without_dashes : String → String
without_dashes String.[] = String.[]
without_dashes (String.◌∷◌ c s) =
    let rest = without_dashes s in if code c == 45 then rest else String.◌∷◌ c rest

-- `slice(0, n)`
abbrev first_chars : ℕ → String → String
first_chars zero s = String.[]
first_chars (suc n) String.[] = String.[]
first_chars (suc n) (String.◌∷◌ c s) = String.◌∷◌ c (first_chars n s)

-- `planComment`
unfoldable pub plan_comment : String → String
plan_comment id = str_append "AIV3" (first_chars 12 (without_dashes id))

module _ {D : Decimal} where
  unfoldable pub is_order_of : AiTradePlan D → Mt5Order → Bool
  unfolding plan_comment
  is_order_of p o = str_eq o.symbol p.symbol && str_eq (or_default o.comment "") (plan_comment p.id)

  unfoldable pub is_position_of : AiTradePlan D → Mt5Position D → Bool
  unfolding plan_comment
  is_position_of p o =
      str_eq o.symbol p.symbol && str_eq (or_default o.comment "") (plan_comment p.id)

  -- `findMt5EvidenceForPlan`
  unfoldable pub find_mt5_evidence_for_plan :
      AiTradePlan D
      → List Mt5Order
      → List (Mt5Position D)
      → Option Mt5Order × Option (Mt5Position D)
  unfolding is_order_of is_position_of
  find_mt5_evidence_for_plan p orders positions =
      (find (is_order_of p) orders, find (is_position_of p) positions)
