-- ===== src/Core/Decisions.antt =====
-- librae/core/executor.py: `validate_strategy_decision`, with `validate_broker_time_in_force` of
-- librae/brokers/capabilities.py and the tables of the adapters. The types exclude its `TypeError`s.
pub mod Checks
pub mod Admitted
mod Tests
use librae.Base.{
  sorted_set, String, Bool, true, false, not, ◌&&◌, ◌||◌, Option, none, some, List, [], ◌∷◌, ◌++◌,
  map, nat_beq, if◌then◌else◌, ◌==◌, nat_eq, string_eq, Dict, Result, ok, err, ◌>>◌, raise_if,
  is_nil, length, select, mem,
}
use librae.Base.{
  length, nat_beq, String, Bool, true, false, not, ◌&&◌, ◌||◌, Option, none, some, List, [], ◌∷◌,
  ◌++◌, map, if◌then◌else◌, ◌==◌, string_eq, Dict, Result, ok, err, ◌>>◌, raise_if, is_nil, select,
  mem, sorted_set,
}
use librae.Core.Intents.{
  OrderIntent, OrderAction, PortfolioWeights, Decision, intents, portfolio, TimeInForce, is_resting,
  is_some, symbol_of, symbols_of,
}
use librae.Core.Number.{Number, ◌<◌, abs, neg, epsilon}

-- The `ValueError`s, by their messages.
pub data DecisionError : Type 0 where
  weights_without_bars unknown_symbols shorts : List String → DecisionError
  repeated_symbol : DecisionError
  fok_without_quantity : String → DecisionError
  unsupported : String → TimeInForce → DecisionError
  resting_leg : String → DecisionError
  group_without_quantity : DecisionError
  group_without_bars : List String → DecisionError

-- `SUPPORTED_TIME_IN_FORCE` of an adapter, for a limit order or else a market order.
abbrev pub crypto_accepts : Bool → TimeInForce → Bool
crypto_accepts true _ = true
crypto_accepts false TimeInForce.ioc = true
crypto_accepts false _ = false

abbrev pub shioaji_accepts : Bool → TimeInForce → Bool
shioaji_accepts true TimeInForce.gtc = false
shioaji_accepts true _ = true
shioaji_accepts false TimeInForce.ioc = true
shioaji_accepts false TimeInForce.fok = true
shioaji_accepts false _ = false

-- `time_in_force in accepted`; the table of "ibkr" takes every lifetime, and a name without a table is not
-- checked.
unfoldable pub venue_accepts : String → Bool → TimeInForce → Bool
venue_accepts broker is_limit tif =
    if broker == "binance" || broker == "crypto"
    then crypto_accepts is_limit tif
    else if broker == "shioaji"
    then shioaji_accepts is_limit tif
    else true

abbrev pub is_fok : Option TimeInForce → Bool
is_fok (some TimeInForce.fok) = true
is_fok _ = false

abbrev pub is_close : OrderAction → Bool
is_close OrderAction.close = true
is_close _ = false

abbrev pub is_short : OrderAction → Bool
is_short OrderAction.short = true
is_short _ = false

-- The elements of a list, once each.
unfoldable pub distinct_of : List String → List String
distinct_of [] = []
distinct_of (s ∷ rest) = let later = distinct_of rest in if mem s later then later else s ∷ later

-- The texts that a test keeps, raised where there is one.
abbrev pub none_of :
    (List String → DecisionError) → (String → Bool) → List String → Result DecisionError (Unit {0})
none_of raised test symbols =
    let found = select test symbols in raise_if (not (is_nil found)) (raised (sorted_set found))

abbrev pub absent_from : List String → String → Bool
absent_from known symbol = not (mem symbol known)

-- The venue of a symbol, where the run has brokers.
abbrev pub venue_at : Option (String → Option String) → String → Option String
venue_at none symbol = none
venue_at (some broker_for) symbol = broker_for symbol

-- `validate_broker_time_in_force`
abbrev pub taken_by : Option String → Bool → Option TimeInForce → Result DecisionError (Unit {0})
taken_by (some broker) is_limit (some tif) =
    raise_if (not (venue_accepts broker is_limit tif)) (unsupported broker tif)
taken_by _ is_limit _ = ok tt

module _ {F : Type 0} (primary : String) where
  abbrev pub needs_quantity : OrderIntent F → Bool
  needs_quantity intent = not (is_some intent.quantity) && not (is_close intent.action)

  abbrev pub check_venue :
      Option (String → Option String) → OrderIntent F → Result DecisionError (Unit {0})
  check_venue broker_for intent =
      taken_by (venue_at broker_for (symbol_of primary intent)) (is_some intent.limit_price)
        intent.time_in_force

  unfoldable pub check_intent :
      Option (String → Option String) → OrderIntent F → Result DecisionError (Unit {0})
  check_intent broker_for intent =
      raise_if (is_fok intent.time_in_force && needs_quantity intent)
        (fok_without_quantity (symbol_of primary intent))
      >> (check_venue broker_for intent
          >> raise_if (is_resting intent.time_in_force && is_some intent.group_id)
              (resting_leg (symbol_of primary intent)))

  unfoldable pub check_intents :
      Option (String → Option String) → List (OrderIntent F) → Result DecisionError (Unit {0})
  unfolding check_intent
  check_intents broker_for [] = ok tt
  check_intents broker_for (intent ∷ rest) =
      check_intent broker_for intent >> check_intents broker_for rest

  -- `groups.setdefault(group_id, []).append(intent)`
  abbrev pub with_member :
      String
      → OrderIntent F
      → Dict String (List (OrderIntent F))
      → Dict String (List (OrderIntent F))
  with_member g intent [] = (g, intent ∷ []) ∷ []
  with_member g intent ((h, members) ∷ rest) =
      let later = with_member g intent rest in
      if h == g then (h, members ++ intent ∷ []) ∷ rest else (h, members) ∷ later

  abbrev pub with_leg :
      Option String
      → OrderIntent F
      → Dict String (List (OrderIntent F))
      → Dict String (List (OrderIntent F))
  with_leg none intent groups = groups
  with_leg (some g) intent groups = with_member g intent groups

  unfoldable pub groups_from :
      Dict String (List (OrderIntent F)) → List (OrderIntent F) → Dict String (List (OrderIntent F))
  groups_from groups [] = groups
  groups_from groups (intent ∷ rest) = groups_from (with_leg intent.group_id intent groups) rest

  unfoldable pub check_groups :
      List String → Dict String (List (OrderIntent F)) → Result DecisionError (Unit {0})
  check_groups bars [] = ok tt
  check_groups bars ((_, members) ∷ rest) =
      raise_if (not (is_nil (select needs_quantity members))) group_without_quantity
      >> (none_of group_without_bars (absent_from bars) (symbols_of primary members)
          >> check_groups bars rest)

module _ {R : Type 0} ⦃num : Number R⦄ (primary : String) where
  abbrev pub weights_where : (R → Bool) → Dict String R → List String
  weights_where test [] = []
  weights_where test ((symbol, weight) ∷ rest) =
      let later = weights_where test rest in if test weight then symbol ∷ later else later

  -- `shorted` of `refused_short_symbols`
  abbrev pub shorted : Decision R → List String
  shorted (portfolio targets) = weights_where (λ weight. weight < neg epsilon) targets.weights
  shorted (intents decision) =
      symbols_of primary (select (λ (i : OrderIntent R). is_short i.action) decision)

  abbrev pub check_shorts : Option (String → Bool) → Decision R → Result DecisionError (Unit {0})
  check_shorts none decision = ok tt
  check_shorts (some can_short) decision =
      none_of shorts (λ symbol. not (can_short symbol)) (shorted decision)

  abbrev pub check_body :
      List String
      → List String
      → Option (String → Option String)
      → Decision R
      → Result DecisionError (Unit {0})
  check_body bars held broker_for (portfolio targets) =
      none_of weights_without_bars (absent_from bars)
        (held ++ weights_where (λ weight. epsilon < abs weight) targets.weights)
  check_body bars held broker_for (intents decision) =
      raise_if
        (not (
          nat_beq (length (symbols_of primary decision))
            (length (distinct_of (symbols_of primary decision)))))
        repeated_symbol
      >> (check_intents primary broker_for decision
          >> check_groups primary bars (groups_from primary [] decision))

  abbrev pub decided_symbols : Decision R → List String
  decided_symbols (portfolio targets) = weights_where (λ _. true) targets.weights
  decided_symbols (intents decision) = symbols_of primary decision

  -- `bars` and `held` are the keys of the bars and of the positions.
  unfoldable pub validate_strategy_decision :
      List String
      → List String
      → List String
      → Option (String → Option String)
      → Option (String → Bool)
      → Decision R
      → Result DecisionError (Unit {0})
  unfolding check_intents check_groups groups_from distinct_of
  validate_strategy_decision universe bars held broker_for can_short decision =
      check_body bars held broker_for decision
      >> (none_of unknown_symbols (absent_from universe) (decided_symbols decision)
          >> check_shorts can_short decision)
