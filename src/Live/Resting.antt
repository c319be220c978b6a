-- ===== src/Live/Resting.antt =====
-- librae/live/resting_orders.py: the lifetime of a live intent that outlives the event which emitted
-- it. Each function returns what it changes beside its result: the instants since when an intent
-- has rested, by symbol, and the runtime events that it offers.
use librae.Base.{
  ℕ, String, Bool, true, false, not, ◌&&◌, Option, none, some, List, [], ◌∷◌, ◌++◌, if◌then◌else◌,
  Eq, ◌==◌, nat_eq, string_eq, Dict, lookup, contains, insert, erase, Result, ok, err, ◌>>=◌, ◌>>◌,
  select, mem,
}
use librae.Core.Events.{RuntimeEvent, skipped}
use librae.Core.Intents.{
  OrderIntent, Decision, intents, portfolio, is_empty, symbol_of, symbols_of, is_some, TimeInForce,
  day,
}

abbrev pub RestingSince : Type 0
RestingSince = Dict String ℕ

-- What a walk over the pending intents leaves: the instants, the events and its result.
pub record Walked (A : Type 0) : Type 0 where
  pub resting_since : RestingSince
  pub offered : List RuntimeEvent
  pub result : A

-- `if on_runtime_event: on_runtime_event(...)`
unfoldable pub offer : Bool → RuntimeEvent → List RuntimeEvent → List RuntimeEvent
offer listening event offered = if listening then offered ++ event ∷ [] else offered

-- `time_in_force == "day" and limit_price is not None`
unfoldable pub is_day : Option TimeInForce → Bool
is_day (some day) = true
is_day _ = false

-- The `ValueError`s and the `KeyError` of `validate_resting_sessions`.
pub data SessionError : Type 0 where
  unknown_instrument no_session : String → SessionError

-- `replacing is None or symbol in replacing`
unfoldable pub is_replaced : Option (List String) → String → Bool
is_replaced none symbol = true
is_replaced (some replacing) symbol = mem symbol replacing

-- `has_session` is `require_resting_session_support` of the run's timeframe, by calendar.
unfoldable pub check_session :
    (String → Bool) → String → Option String → Result SessionError (Unit {0})
check_session has_session symbol none = err (unknown_instrument symbol)
check_session has_session symbol (some calendar) =
    if has_session calendar then ok tt else err (no_session symbol)

module _ {F : Type 0} (primary : String) where
  -- The loop of `record_resting_since`; `setdefault` keeps the first instant.
  unfoldable pub record_all : List (OrderIntent F) → ℕ → RestingSince → RestingSince
  record_all [] ts resting = resting
  record_all (i ∷ rest) ts resting = record_all rest ts (
      if contains (symbol_of primary i) resting
      then resting
      else insert (symbol_of primary i) ts resting)

  unfoldable pub record_resting_since : Decision F → ℕ → RestingSince → RestingSince
  unfolding record_all
  record_resting_since (portfolio _) ts resting = resting
  record_resting_since (intents l) ts resting = record_all l ts resting

  unfoldable pub replace_walk :
      Option (List String)
      → ℕ
      → Bool
      → List (OrderIntent F)
      → RestingSince
      → List RuntimeEvent
      → Walked (List (OrderIntent F))
  unfolding offer is_replaced
  replace_walk replacing ts listening [] resting offered = record {
    resting_since = resting;
    offered = offered;
    result = [];
  }
  replace_walk replacing ts listening (i ∷ rest) resting offered =
      let symbol = symbol_of primary i in
      let dropped =
        replace_walk replacing ts listening rest (erase symbol resting)
          (offer listening (skipped ts "resting_order_replaced" (some symbol)) offered) in
      let kept = replace_walk replacing ts listening rest resting offered in
      if contains symbol resting && is_replaced replacing symbol
      then dropped
      else record kept { result = i ∷ kept.result }

  abbrev pub replacing_of : Decision F → Option (List String)
  replacing_of (portfolio _) = none
  replacing_of (intents l) = some (symbols_of primary l)

  abbrev as_decision : Walked (List (OrderIntent F)) → Walked (Decision F)
  as_decision w = record {
    resting_since = w.resting_since;
    offered = w.offered;
    result = intents w.result;
  }

  unfoldable pub replace_resting_intents :
      Decision F → Decision F → ℕ → RestingSince → Bool → Walked (Decision F)
  unfolding replace_walk
  replace_resting_intents (portfolio w) new ts resting listening = record {
    resting_since = resting;
    offered = [];
    result = portfolio w;
  }
  replace_resting_intents (intents l) new ts resting listening =
      if is_empty new
      then record { resting_since = resting; offered = []; result = intents l }
      else as_decision (replace_walk (replacing_of new) ts listening l resting [])

  unfoldable pub validate_sessions :
      (String → Bool) → Dict String String → List (OrderIntent F) → Result SessionError (Unit {0})
  unfolding check_session is_day
  validate_sessions has_session calendars [] = ok tt
  validate_sessions has_session calendars (i ∷ rest) =
      (if is_day i.time_in_force && is_some i.limit_price
        then check_session has_session (symbol_of primary i)
            (lookup (symbol_of primary i) calendars)
        else ok tt)
      >> validate_sessions has_session calendars rest

  unfoldable pub validate_resting_sessions :
      (String → Bool) → Dict String String → Decision F → Result SessionError (Unit {0})
  unfolding validate_sessions
  validate_resting_sessions has_session calendars (portfolio _) = ok tt
  validate_resting_sessions has_session calendars (intents l) =
      validate_sessions has_session calendars l

  unfoldable pub prune_pending_submissions : Decision F → RestingSince → RestingSince
  prune_pending_submissions (portfolio _) resting = []
  prune_pending_submissions (intents l) resting =
      select (λ (entry : String × ℕ). mem entry.0 (symbols_of primary l)) resting

module _ {E S : Type 0} ⦃label : Eq S⦄ (session_of : String → ℕ → Result E S) where
  -- Whether the session of `ts` is another than that of `submitted_at`, both labelled in turn.
  unfoldable pub session_ended : String → ℕ → ℕ → Result E Bool
  session_ended symbol ts submitted_at = session_of symbol ts >>= λ now.
      session_of symbol submitted_at >>= λ then_. ok (not (now == then_))

module _ {F E : Type 0} where
  -- What follows the condition of the loop: a raise, the drop of the intent, or its keeping.
  abbrev pub after_test :
      OrderIntent F
      → RestingSince
      → List RuntimeEvent
      → Result E Bool
      → Walked (Result E (List (OrderIntent F)))
      → Walked (Result E (List (OrderIntent F)))
      → Walked (Result E (List (OrderIntent F)))
  after_test i resting offered (err e) dropped kept = record {
    resting_since = resting;
    offered = offered;
    result = err e;
  }
  after_test i resting offered (ok true) dropped kept = dropped
  after_test i resting offered (ok false) dropped kept = record kept {
    result = kept.result >>= λ l. ok (i ∷ l);
  }

module _ {F E S : Type 0} ⦃label : Eq S⦄ (primary : String)
    (session_of : String → ℕ → Result E S) where
  -- The condition of the loop of `expire_resting_day_intents`.
  unfoldable pub is_expired : List String → ℕ → OrderIntent F → Option ℕ → Result E Bool
  unfolding is_day session_ended
  is_expired priced ts i none = ok false
  is_expired priced ts i (some submitted_at) =
      if is_day i.time_in_force && is_some i.limit_price && mem (symbol_of primary i) priced
      then session_ended session_of (symbol_of primary i) ts submitted_at
      else ok false

  unfoldable pub expire_walk :
      List String
      → ℕ
      → Bool
      → List (OrderIntent F)
      → RestingSince
      → List RuntimeEvent
      → Walked (Result E (List (OrderIntent F)))
  unfolding is_expired offer
  expire_walk priced ts listening [] resting offered = record {
    resting_since = resting;
    offered = offered;
    result = ok [];
  }
  expire_walk priced ts listening (i ∷ rest) resting offered =
      let symbol = symbol_of primary i in
      let dropped =
        expire_walk priced ts listening rest (erase symbol resting)
          (offer listening (skipped ts "day_order_expired" (some symbol)) offered) in
      let kept = expire_walk priced ts listening rest resting offered in
      after_test i resting offered (is_expired priced ts i (lookup symbol resting)) dropped kept

  -- A raise leaves the instants and the events as they stand then.
  unfoldable pub expire_resting_day_intents :
      Decision F → ℕ → List String → RestingSince → Bool → Walked (Result E (Decision F))
  unfolding expire_walk
  expire_resting_day_intents (portfolio w) ts priced resting listening = record {
    resting_since = resting;
    offered = [];
    result = ok (portfolio w);
  }
  expire_resting_day_intents (intents l) ts priced resting listening =
      let w = expire_walk priced ts listening l resting [] in
      record {
        resting_since = w.resting_since;
        offered = w.offered;
        result = w.result >>= λ live. ok (intents live);
      }
