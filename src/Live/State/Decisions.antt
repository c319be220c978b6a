-- ===== src/Live/State/Decisions.antt =====
-- `_pending_decision_to_dict` and `_pending_decision_from_dict` of librae/live/state.py, and the checks of
-- `OrderIntent` and `PortfolioWeights` in librae/core/strategy.py that the second runs.
use librae.Base.{
  String, Bool, true, false, not, ◌&&◌, ◌||◌, Option, none, some, List, [], ◌∷◌, if◌then◌else◌,
  ◌==◌, nat_eq, string_eq, Result, ok, err, ◌>>=◌,
}
use librae.Core.Intents.{
  OrderAction, long, short, close, TimeInForce, day, gtc, ioc, fok, OrderIntent, PortfolioWeights,
  Decision, intents, portfolio, is_some,
}
use librae.Core.Number.{Number, ◌≤◌, zero, is_finite}
use librae.Live.State.Json.{
  Json, null, integer, float, text, array, object, Items, nil, item, Members, end, member,
  StateError, value_error, type_error, Python, get, at, keys_within, keys_are, or_null, members_of,
  items_of, read_object,
}

abbrev pub action_text : OrderAction → String
action_text long = "long"
action_text short = "short"
action_text close = "close"

abbrev pub lifetime_text : TimeInForce → String
lifetime_text day = "day"
lifetime_text gtc = "gtc"
lifetime_text ioc = "ioc"
lifetime_text fok = "fok"

-- `asdict` of an intent
unfoldable pub intent_to_dict : {R : Type 0} → OrderIntent R → Members R
intent_to_dict intent = member "action" (text (action_text intent.action)) (
    member "symbol" (text intent.symbol) (
      member "quantity" (or_null float intent.quantity) (
        member "reason" (text intent.reason) (
          member "limit_price" (or_null float intent.limit_price) (
            member "stop_price" (or_null float intent.stop_price) (
              member "take_profit_price" (or_null float intent.take_profit_price) (
                member "group_id" (or_null text intent.group_id) (
                  member "time_in_force"
                    (or_null (λ t. text (lifetime_text t)) intent.time_in_force) end))))))))

-- `_pending_decision_to_dict`
unfoldable pub pending_decision_to_dict : {R : Type 0} → Decision R → Members R
unfolding intent_to_dict
pending_decision_to_dict (portfolio p) =
    member "type" (text "portfolio_weights")
      (member "weights" (object (members_of float p.weights)) (member "reason" (text p.reason) end))
pending_decision_to_dict (intents l) =
    member "type" (text "order_intents")
      (member "intents" (array (items_of (λ i. object (intent_to_dict i)) l)) end)

abbrev pub action_of : String → Result StateError OrderAction
action_of s =
    if s == "long"
    then ok long
    else if s == "short"
    then ok short
    else if s == "close"
    then ok close
    else err (value_error "action")

abbrev pub lifetime_of : String → Result StateError (Option TimeInForce)
lifetime_of s =
    if s == "day"
    then ok (some day)
    else if s == "gtc"
    then ok (some gtc)
    else if s == "ioc"
    then ok (some ioc)
    else if s == "fok"
    then ok (some fok)
    else err (value_error "time_in_force")

abbrev pub read_action : {R : Type 0} → Option (Json R) → Result StateError OrderAction
read_action (some (text s)) = action_of s
read_action (some _) = err (value_error "action")
read_action none = err (type_error "action")

-- A text field that is "" where it is not given.
abbrev pub read_text : {R : Type 0} → String → Option (Json R) → Result StateError String
read_text name none = ok ""
read_text name (some (text s)) = ok s
read_text name (some _) = err (type_error name)

abbrev pub read_group : {R : Type 0} → Option (Json R) → Result StateError (Option String)
read_group none = ok none
read_group (some null) = ok none
read_group (some (text s)) = ok (some s)
read_group (some _) = err (type_error "group_id")

abbrev pub read_lifetime : {R : Type 0} → Option (Json R) → Result StateError (Option TimeInForce)
read_lifetime none = ok none
read_lifetime (some null) = ok none
read_lifetime (some (text s)) = lifetime_of s
read_lifetime (some _) = err (value_error "time_in_force")

abbrev pub is_close : OrderAction → Bool
is_close OrderAction.close = true
is_close _ = false

abbrev pub closes_with_protection : {R : Type 0} → OrderAction → Option R → Option R → Bool
closes_with_protection action stop target = is_close action && (is_some stop || is_some target)

unfoldable pub all_objects : {R : Type 0} → Items R → Bool
all_objects nil = true
all_objects (item (object _) rest) = all_objects rest
all_objects (item _ rest) = false

abbrev pub is_object : {R : Type 0} → Json R → Bool
is_object (object _) = true
is_object _ = false

module _ {R : Type 0} ⦃num : Number R⦄ (python : Python R) where
  -- `_validate_positive_finite_number`
  abbrev pub positive : String → R → Result StateError (Option R)
  positive name x = if not (is_finite x) || x ≤ zero then err (value_error name) else ok (some x)

  abbrev pub read_positive : String → Option (Json R) → Result StateError (Option R)
  read_positive name none = ok none
  read_positive name (some null) = ok none
  read_positive name (some (float x)) = positive name x
  read_positive name (some (integer n)) = positive name (python.of_int n)
  read_positive name (some _) = err (value_error name)

  -- `OrderIntent(**item)`, with the checks of `__post_init__` in their order.
  unfoldable pub intent_from : Members R → Result StateError (OrderIntent R)
  intent_from raw =
      if not (
        keys_within
          ("action" ∷ "symbol" ∷ "quantity" ∷ "reason" ∷ "limit_price" ∷ "stop_price"
            ∷ "take_profit_price" ∷ "group_id" ∷ "time_in_force" ∷ [])
          raw)
      then err (type_error "unexpected")
      else (read_action (get "action" raw) >>= λ action.
          read_text "symbol" (get "symbol" raw) >>= λ symbol.
          read_text "reason" (get "reason" raw) >>= λ reason.
          read_group (get "group_id" raw) >>= λ group_id.
          read_lifetime (get "time_in_force" raw) >>= λ time_in_force.
          read_positive "quantity" (get "quantity" raw) >>= λ quantity.
          read_positive "limit_price" (get "limit_price" raw) >>= λ limit_price.
          read_positive "stop_price" (get "stop_price" raw) >>= λ stop_price.
          read_positive "take_profit_price" (get "take_profit_price" raw) >>= λ take_profit_price.
          if closes_with_protection action stop_price take_profit_price
          then err (value_error "close")
          else ok (record {
            action = action;
            symbol = symbol;
            quantity = quantity;
            reason = reason;
            limit_price = limit_price;
            stop_price = stop_price;
            take_profit_price = take_profit_price;
            group_id = group_id;
            time_in_force = time_in_force;
          }))

  abbrev pub finite_weight : R → Result StateError R
  finite_weight x = if is_finite x then ok x else err (value_error "weight")

  abbrev pub weight_of : Json R → Result StateError R
  weight_of (float x) = finite_weight x
  weight_of (integer n) = finite_weight (python.of_int n)
  weight_of _ = err (type_error "weight")

  abbrev pub read_weight : String → Json R → Result StateError R
  read_weight symbol value = if symbol == "" then err (value_error "symbol") else weight_of value

  -- `PortfolioWeights(weights=..., reason=...)`, whose `__post_init__` looks at the reason first.
  unfoldable pub weights_from : Json R → Option (Json R) → Result StateError (PortfolioWeights R)
  weights_from raw_weights raw_reason = read_text "reason" raw_reason >>= λ reason.
      read_object read_weight raw_weights >>= λ weights.
      ok (record { weights = weights; reason = reason })

  -- `[OrderIntent(**item) for item in intents]`, of objects.
  unfoldable pub intents_from : Items R → Result StateError (List (OrderIntent R))
  unfolding intent_from
  intents_from nil = ok []
  intents_from (item (object raw) rest) =
      intent_from raw >>= λ intent. intents_from rest >>= λ later. ok (intent ∷ later)
  intents_from (item _ rest) = err (type_error "intents")

  abbrev pub read_intents : Json R → Result StateError (Decision R)
  read_intents (array l) =
      if all_objects l
      then (intents_from l >>= λ read. ok (intents read))
      else err (type_error "intents")
  read_intents _ = err (type_error "intents")

  abbrev pub read_portfolio : Members R → Json R → Result StateError (Decision R)
  read_portfolio raw raw_weights =
      if is_object raw_weights
      then (weights_from raw_weights (get "reason" raw) >>= λ p. ok (portfolio p))
      else err (type_error "weights")

  abbrev pub tagged : Members R → Option (Json R) → Result StateError (Decision R)
  tagged raw (some (text tag)) =
      if tag == "order_intents"
      then (if keys_are ("type" ∷ "intents" ∷ []) raw
          then at "intents" raw >>= read_intents
          else err (value_error "order_intents"))
      else if tag == "portfolio_weights"
      then (if keys_are ("type" ∷ "weights" ∷ "reason" ∷ []) raw
          then at "weights" raw >>= read_portfolio raw
          else err (value_error "portfolio_weights"))
      else err (value_error "type")
  tagged raw _ = err (value_error "type")

  -- `_pending_decision_from_dict`
  unfoldable pub pending_decision_from_dict : Json R → Result StateError (Decision R)
  unfolding intents_from all_objects weights_from
  pending_decision_from_dict (object raw) = tagged raw (get "type" raw)
  pending_decision_from_dict _ = err (type_error "pending_decision")
