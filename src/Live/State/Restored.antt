-- ===== src/Live/State/Restored.antt =====
-- A decision that waits is restored from what was saved of it.
use librae.Base.{
  refl, String, ◌≡◌, refl, true, false, Option, none, some, List, [], ◌∷◌, ◌==◌, nat_eq, string_eq,
  Dict, ok, All, mem,
}
use librae.Core.Intents.{
  OrderAction, long, short, close, TimeInForce, day, gtc, ioc, fok, OrderIntent, PortfolioWeights,
  Decision, intents, portfolio,
}
use librae.Core.Number.{Number, ◌≤◌, zero, is_finite}
use librae.Live.State.Json.{
  float, text, object, Python, or_null, members_of, items_of, read-members_of, get, keys_within,
  Items,
}
use librae.Live.State.Decisions.{
  action_text, lifetime_text, intent_to_dict, pending_decision_to_dict, action_of, read_group,
  read_lifetime, read_positive, closes_with_protection, intent_from, read_weight, weights_from,
  all_objects, intents_from, pending_decision_from_dict,
}

module _ {R : Type 0} ⦃num : Number R⦄ where
  -- A number that is given is finite and positive.
  abbrev pub Positive : Option R → Type 0
  Positive none = Unit
  Positive (some x) = (is_finite x ≡ true) × ((x ≤ zero) ≡ false)

  -- An intent that `__post_init__` has checked.
  abbrev pub IsIntent : OrderIntent R → Type 0
  IsIntent intent =
      Positive intent.quantity
      × Positive intent.limit_price
      × Positive intent.stop_price
      × Positive intent.take_profit_price
      × (closes_with_protection intent.action intent.stop_price intent.take_profit_price ≡ false)

  -- Weights that `__post_init__` has checked.
  abbrev pub IsWeights : Dict String R → Type 0
  IsWeights = All (λ (e : String × R). ((e.0 == "") ≡ false) × (is_finite e.1 ≡ true))

  abbrev pub IsDecision : Decision R → Type 0
  IsDecision (intents l) = All IsIntent l
  IsDecision (portfolio p) = IsWeights p.weights

  module _ (python : Python R) where
    float-Positive :
        (name : String) (x : Option R)
        → Positive x
        → read_positive python name (some (or_null float x)) ≡ ok x
    float-Positive name none h = refl
    float-Positive name (some x) (finite, above) = rw (finite, above)

    action-text : (a : OrderAction) → action_of (action_text a) ≡ ok a
    action-text long = refl
    action-text short = refl
    action-text close = refl

    group-text : (g : Option String) → read_group {R = R} (some (or_null text g)) ≡ ok g
    group-text none = refl
    group-text (some g) = refl

    lifetime-text :
        (t : Option TimeInForce)
        → read_lifetime {R = R} (some (or_null (λ (f : TimeInForce). text (lifetime_text f)) t))
          ≡ ok t
    lifetime-text none = refl
    lifetime-text (some day) = refl
    lifetime-text (some gtc) = refl
    lifetime-text (some ioc) = refl
    lifetime-text (some fok) = refl

    intent-restored :
        (intent : OrderIntent R)
        → IsIntent intent
        → intent_from python (intent_to_dict intent) ≡ ok intent
    unfolding intent_from intent_to_dict get keys_within mem
    intent-restored intent (quantity, limit, stop, target, protection) = rw (
      action-text intent.action,
      group-text intent.group_id,
      lifetime-text intent.time_in_force,
      float-Positive "quantity" intent.quantity quantity,
      float-Positive "limit_price" intent.limit_price limit,
      float-Positive "stop_price" intent.stop_price stop,
      float-Positive "take_profit_price" intent.take_profit_price target,
      protection,
    )

    abbrev written : List (OrderIntent R) → Items R
    written = items_of (λ (i : OrderIntent R). object (intent_to_dict i))

    all-written : (l : List (OrderIntent R)) → all_objects (written l) ≡ true
    unfolding all_objects
    all-written [] = refl
    all-written (i ∷ rest) = all-written rest

    intents-restored :
        (l : List (OrderIntent R)) → All IsIntent l → intents_from python (written l) ≡ ok l
    unfolding intents_from
    intents-restored [] h = refl
    intents-restored (i ∷ rest) (h, later) = rw (intent-restored i h, intents-restored rest later)

    weights-read :
        (d : Dict String R)
        → IsWeights d
        → All (λ (e : String × R). read_weight python e.0 (float e.1) ≡ ok e.1) d
    weights-read [] h = tt
    weights-read ((k, w) ∷ rest) ((named, finite), later) =
        (rw (named, finite), weights-read rest later)

    pub weights-restored :
        (p : PortfolioWeights R)
        → IsWeights p.weights
        → weights_from python (object (members_of float p.weights)) (some (text p.reason)) ≡ ok p
    unfolding weights_from
    weights-restored p h =
        rw (read-members_of (read_weight python) float p.weights (weights-read p.weights h))

  -- A decision of intents or weights that the checks of their construction have passed: what is restored
  -- of the document that is saved of it is the decision itself.
  pub pending_decision-restored :
      (python : Python R) (decision : Decision R)
      → IsDecision decision
      → pending_decision_from_dict python (object (pending_decision_to_dict decision)) ≡ ok decision
  unfolding pending_decision_from_dict pending_decision_to_dict get keys_within mem
  pending_decision-restored python (intents l) h =
      rw (all-written python l, intents-restored python l h)
  pending_decision-restored python (portfolio p) h = rw (weights-restored python p h)
