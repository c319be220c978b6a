-- ===== src/Backtest/Envelopes/Tests.antt =====
-- Two envelopes of resting orders, of which one is a day order of an earlier session.
use librae.Base.{
  false, Bool, Eq, ◌↔◌, Bool-cases, inl, inr, ℕ, ◌/◌, String, ◌≡◌, refl, true, Option, none, some,
  List, [], ◌∷◌, map, if◌then◌else◌, ◌==◌, nat_eq, string_eq, lookup, Result, ok, err, mem,
  Distinct,
}
use librae.Core.Intents.{
  OrderIntent, OrderAction, intents, day, gtc, TimeInForce, symbol_of, symbol_or,
}
use librae.Live.Resting.{replace_resting_intents as replace_live}
use librae.Backtest.Envelopes.Replacing.{replaced_events, replace-mirror}
use native.Mathlib.Decide.{ℕ_discrete}
use librae.Live.Resting.{RestingSince, expire_resting_day_intents}
use librae.Backtest.Envelopes.{replace_resting_intents, Envelope, expire_day_intents, Decision}
use librae.Backtest.Envelopes.Expiry.{flat, pendings, flat_result, expiry, expire_day_intents-eq}
use librae.Backtest.Envelopes.Mirror.{erase_all, Agrees, Mirrors, expire-mirror}

abbrev limit_order : String → TimeInForce → OrderIntent ℕ
limit_order symbol lifetime = record {
  action = OrderAction.long;
  symbol = symbol;
  quantity = some 1;
  reason = "";
  limit_price = some 90;
  stop_price = none;
  take_profit_price = none;
  group_id = none;
  time_in_force = some lifetime;
}

abbrev since : ℕ → OrderIntent ℕ → Envelope ℕ
since ts intent = record {
  decision = intents (intent ∷ []);
  decision_at = some ts;
  resting_since = some ts;
}

abbrev two_envelopes : List (Envelope ℕ)
two_envelopes = since 10 (limit_order "AAPL" day) ∷ since 10 (limit_order "MSFT" gtc) ∷ []

-- A session of each hundred, and none for an unknown symbol.
abbrev session : String → ℕ → Result String ℕ
session symbol ts = if symbol == "?" then err "no calendar" else ok (ts / 100)

expire_day_intents-eq_example :
    flat_result (expire_day_intents "AAPL" session ("AAPL" ∷ "MSFT" ∷ []) 120 two_envelopes)
    ≡ expiry "AAPL" session ("AAPL" ∷ "MSFT" ∷ []) 120 (pendings two_envelopes)
expire_day_intents-eq_example =
    expire_day_intents-eq "AAPL" session ("AAPL" ∷ "MSFT" ∷ []) 120 two_envelopes

expires_one :
    expire_day_intents "AAPL" session ("AAPL" ∷ "MSFT" ∷ []) 120 two_envelopes
    ≡ ok (since 10 (limit_order "MSFT" gtc) ∷ [], "AAPL" ∷ [])
unfolding expire_day_intents mem symbol_or
expires_one = refl

abbrev resting : RestingSince
resting = ("AAPL", 10) ∷ ("MSFT", 10) ∷ []

apart :
    Distinct (map (λ (p : OrderIntent ℕ × Option ℕ). symbol_of "AAPL" p.0) (pendings two_envelopes))
unfolding mem symbol_or
apart = (refl, (refl, tt))

agrees : Agrees "AAPL" resting (pendings two_envelopes)
unfolding lookup symbol_or
agrees = (refl, (refl, tt))

expire-mirror_example :
    Mirrors 120 resting
      (expire_day_intents "AAPL" session ("AAPL" ∷ "MSFT" ∷ []) 120 two_envelopes)
      (expire_resting_day_intents "AAPL" session
        (intents (flat two_envelopes))
        120
        ("AAPL" ∷ "MSFT" ∷ [])
        resting
        true)
expire-mirror_example =
    expire-mirror "AAPL" session ("AAPL" ∷ "MSFT" ∷ []) 120 two_envelopes resting apart agrees

String-Discrete : Discrete String
String-Discrete a b = elim (Bool-cases (a == b)) [
  | inl h ↦ yes ((string_eq.beq_iff a b).0 h)
  | inr h ↦ no (λ p. absurd (cc ((string_eq.beq_iff a b).1 p, h)))
]

intent-Discrete : Discrete (OrderIntent ℕ)
intent-Discrete = hlevel (ℕ_discrete, String-Discrete)

-- `==` of the intents, by the decision.
abbrev decided : (a b : OrderIntent ℕ) → Dec (a ≡ b) → Bool
decided a b (yes p) = true
decided a b (no p) = false

decided_iff : (a b : OrderIntent ℕ) (d : Dec (a ≡ b)) → (decided a b d ≡ true) ↔ (a ≡ b)
decided_iff a b (yes p) = (λ _. p, λ _. refl)
decided_iff a b (no p) = (λ h. absurd cc, λ q. absurd (p q))

instance abbrev intent_eq : Eq (OrderIntent ℕ)
intent_eq = record {
  beq = λ a b. decided a b (intent-Discrete a b);
  beq_iff = λ a b. decided_iff a b (intent-Discrete a b);
}

abbrev newer : Decision ℕ
newer = intents (limit_order "AAPL" gtc ∷ [])

replace-mirror_example :
    let w = replace_live "AAPL" (intents (flat two_envelopes)) newer 120 resting true in
    let (kept, replaced) = replace_resting_intents "AAPL" two_envelopes newer in
    (w.result ≡ intents (flat kept))
    × (w.resting_since ≡ erase_all replaced resting)
    × (w.offered ≡ replaced_events 120 replaced)
replace-mirror_example = replace-mirror "AAPL" two_envelopes newer 120 resting refl apart agrees
