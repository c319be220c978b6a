-- ===== src/Backtest/Envelopes/Mirror.antt =====
-- The live runtime and the backtest drop the same resting orders. A backtest keeps each decision in
-- an envelope of its own; live keeps one list of intents, and the instants by symbol.
use librae.Base.{
  ℕ, String, ◌≡◌, refl, sym, ◌∙◌, Bool, true, false, Option, some, List, [], ◌∷◌, ◌++◌, map, arith,
  Eq, ◌==◌, nat_eq, string_eq, lookup, erase, lookup-erase, Result, ok, err, ◌>>=◌, All, mem,
  Distinct,
}
use mathlib.Core.List.{append-nil, append_assoc, map-append}
use mathlib.Core.Path.{subst}
use librae.Core.Events.{RuntimeEvent, skipped}
use librae.Core.Intents.{OrderIntent, symbol_of, intents_of}
use librae.Live.Resting.{
  after_test, Walked, RestingSince, expire_walk, is_expired, expire_resting_day_intents,
}
use librae.Backtest.Envelopes.{Envelope, Decision, intents, expire_day_intents}
use librae.Backtest.Envelopes.Expiry.{
  flat, pendings, since_each, expiry, step, flat_result, expire_day_intents-eq,
}

module _ {F : Type 0} where
  -- The instants by symbol are those of the envelopes.
  abbrev pub Agrees : String → RestingSince → List (OrderIntent F × Option ℕ) → Type 0
  Agrees primary resting =
      All (λ (p : OrderIntent F × Option ℕ). lookup (symbol_of primary p.0) resting ≡ p.1)

abbrev pub expired_events : ℕ → List String → List RuntimeEvent
expired_events ts [] = []
expired_events ts (s ∷ l) = skipped ts "day_order_expired" (some s) ∷ expired_events ts l

unfoldable pub erase_all : List String → RestingSince → RestingSince
erase_all [] resting = resting
erase_all (s ∷ l) resting = erase_all l (erase s resting)

module _ {F : Type 0} (primary : String) where
  pub Agrees-erase :
      (s : String) (resting : RestingSince) (ps : List (OrderIntent F × Option ℕ))
      → mem s (map (λ (p : OrderIntent F × Option ℕ). symbol_of primary p.0) ps) ≡ false
      → Agrees primary resting ps
      → Agrees primary (erase s resting) ps
  unfolding mem
  Agrees-erase s resting [] h a = tt
  Agrees-erase s resting ((i, since) ∷ ps) h a =
      let apart : ((s == symbol_of primary i) ≡ false)
          × (mem s (map (λ (p : OrderIntent F × Option ℕ). symbol_of primary p.0) ps) ≡ false) =
        ground (
          arith,
          string_eq.beq_iff s (symbol_of primary i),
          string_eq.beq_iff (symbol_of primary i) s,
        ) in
      (
        rw (lookup-erase s (symbol_of primary i) resting, apart.0) a.0,
        Agrees-erase s resting ps apart.1 a.1,
      )

module _ {F E : Type 0} (ts : ℕ) where
  -- What live has made, where the specification gives a result.
  abbrev Same :
      RestingSince
      → List RuntimeEvent
      → Result E (List (OrderIntent F) × List String)
      → Walked (Result E (List (OrderIntent F)))
      → Type 0
  Same resting offered (ok (live, expired)) w =
      (w.result ≡ ok live)
      × (w.resting_since ≡ erase_all expired resting)
      × (w.offered ≡ offered ++ expired_events ts expired)
  Same resting offered (err e) w = w.result ≡ err e

module _ {F E S : Type 0} ⦃label : Eq S⦄ (primary : String) (session_of : String → ℕ → Result E S)
    (priced : List String) (ts : ℕ) where
  Same-gone :
      (s : String) (resting : RestingSince) (offered : List RuntimeEvent) (i : OrderIntent F)
      (r : Result E (List (OrderIntent F) × List String))
      (w : Walked (Result E (List (OrderIntent F))))
      → Same ts (erase s resting) (offered ++ skipped ts "day_order_expired" (some s) ∷ []) r w
      → Same ts resting offered (step i s (ok true) r) w
  unfolding erase_all
  Same-gone s resting offered i (err e) w h = h
  Same-gone s resting offered i (ok (live, expired)) w h =
      (h.0, h.1, h.2 ∙ append_assoc offered _ _)

  Same-kept :
      (s : String) (resting : RestingSince) (offered : List RuntimeEvent) (i : OrderIntent F)
      (r : Result E (List (OrderIntent F) × List String))
      (w : Walked (Result E (List (OrderIntent F))))
      → Same ts resting offered r w
      → Same ts resting offered
          (step i s (ok false) r)
          (record w { result = w.result >>= λ l. ok (i ∷ l) })
  Same-kept s resting offered i (err e) w h = rw h
  Same-kept s resting offered i (ok (live, expired)) w h = (rw (h.0), h.1, h.2)

  Same-test :
      (resting : RestingSince) (offered : List RuntimeEvent) (i : OrderIntent F)
      (r : Result E (List (OrderIntent F) × List String))
      (dropped kept : Walked (Result E (List (OrderIntent F)))) (t : Result E Bool)
      → Same ts
          (erase (symbol_of primary i) resting)
          (offered ++ skipped ts "day_order_expired" (some (symbol_of primary i)) ∷ [])
          r
          dropped
      → Same ts resting offered r kept
      → Same ts resting offered
          (step i (symbol_of primary i) t r)
          (after_test i resting offered t dropped kept)
  Same-test resting offered i r dropped kept (err e) gone stays = refl
  Same-test resting offered i r dropped kept (ok true) gone stays =
      Same-gone (symbol_of primary i) resting offered i r dropped gone
  Same-test resting offered i r dropped kept (ok false) gone stays =
      Same-kept (symbol_of primary i) resting offered i r kept stays

  expire_walk-Same :
      (ps : List (OrderIntent F × Option ℕ)) (resting : RestingSince) (offered : List RuntimeEvent)
      → Distinct (map (λ (p : OrderIntent F × Option ℕ). symbol_of primary p.0) ps)
      → Agrees primary resting ps
      → Same ts resting offered (expiry primary session_of priced ts ps) (
          expire_walk primary session_of priced ts true
            (map (λ (p : OrderIntent F × Option ℕ). p.0) ps)
            resting
            offered)
  unfolding expiry expire_walk erase_all
  expire_walk-Same [] resting offered d a = (refl, refl, sym (append-nil offered))
  expire_walk-Same ((i, since) ∷ ps) resting offered d a =
      subst
        (λ o.
          Same ts resting offered
            (step i (symbol_of primary i) (is_expired primary session_of priced ts i since)
              (expiry primary session_of priced ts ps))
            (after_test i resting offered (is_expired primary session_of priced ts i o) dropped
              kept))
        (sym (a.0))
        (Same-test resting offered i (expiry primary session_of priced ts ps) dropped kept
          (is_expired primary session_of priced ts i since)
          (expire_walk-Same ps _ _ (d.1)
            (Agrees-erase primary (symbol_of primary i) resting ps (d.0) (a.1)))
          (expire_walk-Same ps _ _ (d.1) (a.1)))
    where
      walk : RestingSince → List RuntimeEvent → Walked (Result E (List (OrderIntent F)))
      walk =
          expire_walk primary session_of priced ts true
            (map (λ (p : OrderIntent F × Option ℕ). p.0) ps)

      dropped : Walked (Result E (List (OrderIntent F)))
      dropped =
          walk (erase (symbol_of primary i) resting)
            (offered ++ skipped ts "day_order_expired" (some (symbol_of primary i)) ∷ [])

      kept : Walked (Result E (List (OrderIntent F)))
      kept = walk resting offered

module _ {F : Type 0} where
  map-since_each :
      (since : Option ℕ) (l : List (OrderIntent F))
      → map (λ (p : OrderIntent F × Option ℕ). p.0) (since_each since l) ≡ l
  map-since_each since [] = refl
  map-since_each since (i ∷ l) = rw (map-since_each since l)

  pub map-pendings :
      (envelopes : List (Envelope F))
      → map (λ (p : OrderIntent F × Option ℕ). p.0) (pendings envelopes) ≡ flat envelopes
  map-pendings [] = refl
  map-pendings (envelope ∷ rest) = rw (
    map-append,
    map-since_each envelope.resting_since (intents_of envelope.decision),
    map-pendings rest,
  )

module _ {F E : Type 0} where
  -- Live has made what the backtest has: the intents that live on, the instants of those alone, and
  -- an event for each that expired; or it has raised the same.
  abbrev pub Mirrors :
      ℕ
      → RestingSince
      → Result E (List (Envelope F) × List String)
      → Walked (Result E (Decision F))
      → Type 0
  Mirrors ts resting (ok (kept, expired)) w =
      (w.result ≡ ok (intents (flat kept)))
      × (w.resting_since ≡ erase_all expired resting)
      × (w.offered ≡ expired_events ts expired)
  Mirrors ts resting (err e) w = w.result ≡ err e

module _ {F E : Type 0} (ts : ℕ) where
  Same-Mirrors :
      (resting : RestingSince) (r : Result E (List (Envelope F) × List String))
      (w : Walked (Result E (List (OrderIntent F))))
      → Same ts resting [] (flat_result r) w
      → Mirrors ts resting r (record {
        resting_since = w.resting_since;
        offered = w.offered;
        result = w.result >>= λ live. ok (intents live);
      })
  Same-Mirrors resting (err e) w h = rw h
  Same-Mirrors resting (ok (kept, expired)) w h = (rw (h.0), h.1, h.2)

module _ {F E S : Type 0} ⦃label : Eq S⦄ (primary : String) (session_of : String → ℕ → Result E S)
    (priced : List String) (ts : ℕ) where
  -- Live's pending intents are those of the backtest's envelopes, on different instruments, and the
  -- instants agree. Then the two walks of expiry agree: they raise the same, or keep the same
  -- intents, and live forgets the instants of, and offers an event for, exactly the symbols that
  -- the backtest returns as expired.
  pub expire-mirror :
      (envelopes : List (Envelope F)) (resting : RestingSince)
      → Distinct
          (map (λ (p : OrderIntent F × Option ℕ). symbol_of primary p.0) (pendings envelopes))
      → Agrees primary resting (pendings envelopes)
      → Mirrors ts resting (expire_day_intents primary session_of priced ts envelopes) (
          expire_resting_day_intents primary session_of
            (intents (flat envelopes))
            ts
            priced
            resting
            true)
  unfolding expire_resting_day_intents
  expire-mirror envelopes resting d a =
      Same-Mirrors ts resting (expire_day_intents primary session_of priced ts envelopes)
        (expire_walk primary session_of priced ts true (flat envelopes) resting [])
        (rw (expire_day_intents-eq primary session_of priced ts envelopes, ← map-pendings envelopes)
          (expire_walk-Same primary session_of priced ts (pendings envelopes) resting [] d a))
