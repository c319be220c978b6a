-- ===== src/Core/Decisions/Tests.antt =====
-- A pair of intents that fills at once, of which one trades at an exchange, beside an order that rests.
use librae.Base.{
  refl, String, ◌≡◌, true, Bool, Option, some, none, List, [], ◌∷◌, if◌then◌else◌, ◌==◌, string_eq,
  mem, All, Distinct, ok,
}
use librae.Core.Intents.{
  OrderIntent, TimeInForce, is_some, symbol_or, symbol_of, symbols_of, intents,
}
use librae.Core.Number.Int.{ℤ, int_number}
use librae.Core.Orders.Sample.{buy_btc, sell_ada, buy_eth}
use librae.Core.Decisions.{validate_strategy_decision, venue_accepts}
use librae.Core.Decisions.Admitted.{Sound, IsLeg, MayShort, validate_strategy_decision-Admits}

abbrev decision : List (OrderIntent ℤ)
decision =
    record buy_btc { time_in_force = some TimeInForce.ioc }
    ∷ record sell_ada { time_in_force = some TimeInForce.ioc }
    ∷ buy_eth
    ∷ []

abbrev traded : List String
traded = "ETH" ∷ "BTC" ∷ "ADA" ∷ []

abbrev quoted : List String
quoted = "ADA" ∷ "BTC" ∷ []

abbrev venues : Option (String → Option String)
venues = some (λ s. if s == "ADA" then some "crypto" else none)

abbrev shortable : Option (String → Bool)
shortable = some (λ s. s == "ADA")

admitted :
    validate_strategy_decision "BTC" traded quoted [] venues shortable (intents decision) ≡ ok tt
unfolding validate_strategy_decision venue_accepts mem symbol_or
admitted = refl

validate_strategy_decision-Admits_example :
    Distinct (symbols_of "BTC" decision)
    × All (λ i. mem (symbol_of "BTC" i) traded ≡ true) decision
    × All (Sound "BTC" venues) decision
    × All (λ i. is_some i.group_id ≡ true → IsLeg "BTC" quoted i) decision
    × All (MayShort "BTC" shortable) decision
validate_strategy_decision-Admits_example =
    validate_strategy_decision-Admits "BTC" traded quoted [] venues shortable decision admitted
