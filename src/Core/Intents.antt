-- ===== src/Core/Intents.antt =====
-- librae/core/strategy.py: what a strategy returns. `F` is the type of prices, quantities and
-- weights; nothing here computes with them.
use librae.Base.{
  String, Bool, true, false, Option, none, some, List, [], map, if◌then◌else◌, ◌==◌, nat_eq,
  string_eq, Dict, ◌≡◌, refl, lookup, contains,
}

pub data PositionSide : Type 0 where
  long short : PositionSide

pub data OrderAction : Type 0 where
  long short close : OrderAction

pub data TimeInForce : Type 0 where
  day gtc ioc fok : TimeInForce

-- `RESTING_TIME_IN_FORCE`, as a test.
abbrev pub is_resting : Option TimeInForce → Bool
is_resting (some day) = true
is_resting (some gtc) = true
is_resting _ = false

pub record OrderIntent (F : Type 0) : Type 0 where
  pub action : OrderAction
  pub symbol : String
  pub quantity : Option F
  pub reason : String
  pub limit_price : Option F
  pub stop_price : Option F
  pub take_profit_price : Option F
  pub group_id : Option String
  pub time_in_force : Option TimeInForce

pub record PortfolioWeights (F : Type 0) : Type 0 where
  pub weights : Dict String F
  pub reason : String

-- `StrategyDecision`
pub data Decision (F : Type 0) : Type 0 where
  intents : List (OrderIntent F) → Decision F
  portfolio : PortfolioWeights F → Decision F

-- `not decision`: an empty list is false, and a `PortfolioWeights` is always true.
abbrev pub is_empty : {F : Type 0} → Decision F → Bool
is_empty (intents []) = true
is_empty _ = false

abbrev pub intents_of : {F : Type 0} → Decision F → List (OrderIntent F)
intents_of (intents l) = l
intents_of (portfolio _) = []

-- `intent.symbol or primary_symbol`
unfoldable pub symbol_or : String → String → String
symbol_or symbol primary = if symbol == "" then primary else symbol

module _ {F : Type 0} (primary : String) where
  abbrev pub symbol_of : OrderIntent F → String
  symbol_of intent = symbol_or intent.symbol primary

  abbrev pub symbols_of : List (OrderIntent F) → List String
  symbols_of = map symbol_of

abbrev pub is_some {ℓ} : {A : Type ℓ} → Option A → Bool
is_some none = false
is_some (some _) = true

pub contains-eq :
    {V : Type 0} (k : String) (d : Dict String V) → contains k d ≡ is_some (lookup k d)
unfolding contains
contains-eq {V = V} k d = of (lookup k d)
  where
    of :
        (o : Option V)
        → Path Bool (elim o as (λ _. Bool) [ none ↦ false | some _ ↦ true ]) (is_some o)
    of none = refl
    of (some n) = refl
