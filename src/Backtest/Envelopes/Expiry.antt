-- ===== src/Backtest/Envelopes/Expiry.antt =====
-- Which resting day orders end, as one specification of the backtest and the live runtime, and that
-- `expire_day_intents` implements it.
use librae.Base.{
  true, false, ℕ, String, ◌≡◌, refl, Bool, false, ◌&&◌, Option, none, some, List, [], ◌∷◌, ◌++◌,
  if◌then◌else◌, Eq, Result, ok, ◌>>=◌, mem, string_eq, ◌||◌, arith, Bool-cases, ◌∙◌, inl, inr,
}
use mathlib.Core.List.{append-nil, append_assoc}
use librae.Core.Intents.{
  OrderIntent, Decision, intents, portfolio, symbol_of, is_some, intents_of, day, gtc, ioc, fok,
  TimeInForce,
}
use librae.Live.Resting.{is_day, is_expired, session_ended}
use librae.Backtest.Envelopes.{
  Envelope, rests, rests_day, any_rests, keep_live, expire_intents, expire_envelope,
  expire_day_intents, sessions_differ, intents_of, err,
}

module _ {F : Type 0} where
  -- The intents of the envelopes, in order; a whole-book target has none.
  abbrev pub flat : List (Envelope F) → List (OrderIntent F)
  flat [] = []
  flat (envelope ∷ rest) = intents_of envelope.decision ++ flat rest

  abbrev pub since_each : Option ℕ → List (OrderIntent F) → List (OrderIntent F × Option ℕ)
  since_each since [] = []
  since_each since (i ∷ l) = (i, since) ∷ since_each since l

  -- Each intent with the instant since when it rests.
  abbrev pub pendings : List (Envelope F) → List (OrderIntent F × Option ℕ)
  pendings [] = []
  pendings (envelope ∷ rest) =
      since_each envelope.resting_since (intents_of envelope.decision) ++ pendings rest

ors : (a b : Bool) → (a || b) ≡ false → (a ≡ false) × (b ≡ false)
ors a b h = ground arith

rests_day-eq :
    (t : Option TimeInForce) (limited : Bool) → rests_day t limited ≡ (is_day t && limited)
unfolding rests_day is_day
rests_day-eq none limited = refl
rests_day-eq (some day) limited = refl
rests_day-eq (some gtc) limited = refl
rests_day-eq (some ioc) limited = refl
rests_day-eq (some fok) limited = refl

module _ {A E : Type 0} where
  abbrev both :
      Result E (List A × List String)
      → Result E (List A × List String)
      → Result E (List A × List String)
  both r q = r >>= λ a. q >>= λ b. ok (a.0 ++ b.0, a.1 ++ b.1)

  -- An expired intent leaves its symbol, any other stays.
  abbrev pub step :
      A → String → Result E Bool → Result E (List A × List String) → Result E (List A × List String)
  step i s t r = t >>= λ gone.
      r >>= λ others. ok (if gone then (others.0, s ∷ others.1) else (i ∷ others.0, others.1))

  both-nil : (r : Result E (List A × List String)) → r ≡ both (ok ([], [])) r
  both-nil (ok (a, b)) = refl
  both-nil (err e) = refl

  both-step :
      (i : A) (s : String) (t : Result E Bool) (r q : Result E (List A × List String))
      → step i s t (both r q) ≡ both (step i s t r) q
  both-step i s (err e) r q = refl
  both-step i s (ok gone) (err e) q = refl
  both-step i s (ok true) (ok a) (err e) = refl
  both-step i s (ok false) (ok a) (err e) = refl
  both-step i s (ok true) (ok a) (ok b) = refl
  both-step i s (ok false) (ok a) (ok b) = refl

module _ {F E : Type 0} where
  abbrev pub flat_result :
      Result E (List (Envelope F) × List String) → Result E (List (OrderIntent F) × List String)
  flat_result r = r >>= λ a. ok (flat a.0, a.1)

module _ {F E S : Type 0} ⦃label : Eq S⦄ (primary : String) (session_of : String → ℕ → Result E S)
    (priced : List String) (ts : ℕ) where
  -- The specification of both: which intents live on, and the symbols of those that do not.
  unfoldable pub expiry :
      List (OrderIntent F × Option ℕ) → Result E (List (OrderIntent F) × List String)
  expiry [] = ok ([], [])
  expiry ((i, since) ∷ rest) =
      step i (symbol_of primary i) (is_expired primary session_of priced ts i since) (expiry rest)

  test-eq :
      (i : OrderIntent F) (since : ℕ)
      → (if rests i && mem (symbol_of primary i) priced
          then sessions_differ session_of (symbol_of primary i) ts since
          else ok false)
        ≡ is_expired primary session_of priced ts i (some since)
  unfolding sessions_differ is_expired session_ended
  test-eq i since = rw (rests_day-eq i.time_in_force (is_some i.limit_price))

  expire_intents-eq :
      (since : ℕ) (l : List (OrderIntent F))
      → expire_intents primary session_of priced ts since l ≡ expiry (since_each (some since) l)
  unfolding expire_intents expiry
  expire_intents-eq since [] = refl
  expire_intents-eq since (i ∷ l) = rw (test-eq i since, expire_intents-eq since l)

  expiry-append :
      (xs ys : List (OrderIntent F × Option ℕ)) → expiry (xs ++ ys) ≡ both (expiry xs) (expiry ys)
  unfolding expiry
  expiry-append [] ys = both-nil (expiry ys)
  expiry-append ((i, since) ∷ xs) ys = rw (expiry-append xs ys) (
      both-step i (symbol_of primary i) (is_expired primary session_of priced ts i since)
        (expiry xs) (expiry ys))

  -- An intent that does not rest for a day, or not yet, never expires.
  expiry-none : (l : List (OrderIntent F)) → expiry (since_each none l) ≡ ok (l, [])
  unfolding expiry is_expired
  expiry-none [] = refl
  expiry-none (i ∷ l) = rw (expiry-none l)

  expiry-any :
      (since : ℕ) (l : List (OrderIntent F))
      → any_rests l ≡ false
      → expiry (since_each (some since) l) ≡ ok (l, [])
  unfolding expiry
  expiry-any since [] h = refl
  expiry-any since (i ∷ l) h =
      let (first, rest) = ors (rests i) (any_rests l) h in
      rw (expiry-any since l rest, ← test-eq i since) (rw first)

  expire_envelope-eq :
      (v : Envelope F) (d : Decision F) (since : Option ℕ)
      → v.decision ≡ d
      → flat_result (expire_envelope primary session_of priced ts v d since)
        ≡ expiry (since_each since (intents_of d))
  unfolding expire_envelope expiry
  expire_envelope-eq v (portfolio w) since e = rw e
  expire_envelope-eq v (intents l) none e = rw (e, append-nil, expiry-none l)
  expire_envelope-eq v (intents l) (some since) e = elim (Bool-cases (any_rests l)) [
    | inl rest ↦
        rw (rest, ← expire_intents-eq since l)
          (kept (expire_intents primary session_of priced ts since l))
    | inr none_rest ↦ rw (none_rest, expiry-any since l none_rest, e, append-nil)
  ]
    where
      filled : (live : List (OrderIntent F)) → flat (keep_live v live) ≡ live
      filled [] = refl
      filled (i ∷ rest) = append-nil (i ∷ rest)

      kept :
          (r : Result E (List (OrderIntent F) × List String))
          → flat_result (r >>= λ a. ok (keep_live v a.0, a.1)) ≡ r
      kept (ok (live, expired)) = rw (filled live)
      kept (err e) = refl

  flat-append : (xs ys : List (Envelope F)) → flat (xs ++ ys) ≡ flat xs ++ flat ys
  flat-append [] ys = refl
  flat-append (v ∷ xs) ys = rw (flat-append xs ys, append_assoc)

  flat-both :
      (r q : Result E (List (Envelope F) × List String))
      → flat_result (r >>= λ first. q >>= λ others. ok (first.0 ++ others.0, first.1 ++ others.1))
        ≡ both (flat_result r) (flat_result q)
  flat-both (err e) q = refl
  flat-both (ok a) (err e) = refl
  flat-both (ok a) (ok b) = rw (flat-append a.0 b.0)

  -- The backtest's expiry of its envelopes raises what the specification `expiry` of their intents
  -- raises, or leaves the intents and the expired symbols that it gives, in order.
  pub expire_day_intents-eq :
      (envelopes : List (Envelope F))
      → flat_result (expire_day_intents primary session_of priced ts envelopes)
        ≡ expiry (pendings envelopes)
  unfolding expire_day_intents
  expire_day_intents-eq [] = unfold expiry in refl
  expire_day_intents-eq (v ∷ envelopes) =
      flat-both (expire_envelope primary session_of priced ts v v.decision v.resting_since)
        (expire_day_intents primary session_of priced ts envelopes)
      ∙ rw (
        expire_envelope-eq v v.decision v.resting_since refl,
        expire_day_intents-eq envelopes,
        expiry-append (since_each v.resting_since (intents_of v.decision)) (pendings envelopes),
      )
