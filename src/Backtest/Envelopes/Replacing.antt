-- ===== src/Backtest/Envelopes/Replacing.antt =====
-- The live walk over the pending intents replaces what the specification `replacement` says, and so
-- what the backtest replaces.

use mathlib.Core.Path.{subst}
use librae.Base.{
  false, true, ℕ, String, ◌≡◌, refl, sym, ap, ◌∙◌, inl, inr, true, false, ◌&&◌, Option, none, some,
  List, [], ◌∷◌, ◌++◌, map, Bool-cases, Eq, lookup, contains, erase, Distinct, string_eq,
}
use librae.Core.Events.{RuntimeEvent, skipped}
use librae.Core.Intents.{
  OrderIntent, Decision, intents, portfolio, symbol_of, symbols_of, is_empty, contains-eq,
}
use librae.Live.Resting.{Walked, RestingSince, replace_walk, is_replaced}
use librae.Live.Resting.{replace_resting_intents as replace_live}
use librae.Backtest.Envelopes.{Envelope, replace_from, replace_resting_intents}
use librae.Backtest.Envelopes.Expiry.{flat, pendings}
use librae.Backtest.Envelopes.Mirror.{Agrees, erase_all, Agrees-erase, map-pendings}
use librae.Backtest.Envelopes.Replaced.{is_gone, replacement, replace_from-eq}
use mathlib.Core.List.{append-nil, append_assoc}

abbrev pub replaced_events : ℕ → List String → List RuntimeEvent
replaced_events ts [] = []
replaced_events ts (s ∷ l) = skipped ts "resting_order_replaced" (some s) ∷ replaced_events ts l

module _ {F : Type 0} (ts : ℕ) where
  -- What the live walk makes, where the specification gives a pair.
  abbrev Follows :
      RestingSince
      → List RuntimeEvent
      → List (OrderIntent F) × List String
      → Walked (List (OrderIntent F))
      → Type 0
  Follows resting offered (kept, gone) w =
      (w.result ≡ kept)
      × (w.resting_since ≡ erase_all gone resting)
      × (w.offered ≡ offered ++ replaced_events ts gone)

module _ {F : Type 0} (primary : String) (replacing : Option (List String)) (ts : ℕ) where
  gone-eq :
      (i : OrderIntent F) (since : Option ℕ) (resting : RestingSince)
      → lookup (symbol_of primary i) resting ≡ since
      → (contains (symbol_of primary i) resting && is_replaced replacing (symbol_of primary i))
        ≡ is_gone primary replacing i since
  gone-eq i none resting found = rw (contains-eq (symbol_of primary i) resting, found)
  gone-eq i (some t) resting found = rw (contains-eq (symbol_of primary i) resting, found)

  replace_walk-Follows :
      (ps : List (OrderIntent F × Option ℕ)) (resting : RestingSince) (offered : List RuntimeEvent)
      → Distinct (map (λ (p : OrderIntent F × Option ℕ). symbol_of primary p.0) ps)
      → Agrees primary resting ps
      → Follows ts resting offered (replacement primary replacing ps) (
          replace_walk primary replacing ts true
            (map (λ (p : OrderIntent F × Option ℕ). p.0) ps)
            resting
            offered)
  unfolding replacement replace_walk erase_all
  replace_walk-Follows [] resting offered d a = (refl, refl, sym (append-nil offered))
  replace_walk-Follows ((i, since) ∷ ps) resting offered d a =
      elim (Bool-cases (is_gone primary replacing i since)) [
        | inl gone ↦
            let (kept, instants, events) =
              replace_walk-Follows ps (erase (symbol_of primary i) resting)
                (offered ++ skipped ts "resting_order_replaced" (some (symbol_of primary i)) ∷ [])
                (d.1) (Agrees-erase primary (symbol_of primary i) resting ps (d.0) (a.1)) in
            rw (gone-eq i since resting (a.0), gone)
              (kept, instants, events ∙ append_assoc offered _ _)
        | inr stays ↦
            let (kept, instants, events) = replace_walk-Follows ps resting offered (d.1) (a.1) in
            rw (gone-eq i since resting (a.0), stays) (ap (λ l. i ∷ l) kept, instants, events)
      ]

module _ {F : Type 0} ⦃same : Eq (OrderIntent F)⦄ where
  walked :
      (primary : String) (replacing : Option (List String)) (envelopes : List (Envelope F)) (ts : ℕ)
      (resting : RestingSince)
      → Distinct
          (map (λ (p : OrderIntent F × Option ℕ). symbol_of primary p.0) (pendings envelopes))
      → Agrees primary resting (pendings envelopes)
      → Follows ts resting []
          (
            flat (replace_from primary replacing envelopes).0,
            (replace_from primary replacing envelopes).1,
          )
          (replace_walk primary replacing ts true (flat envelopes) resting [])
  walked primary replacing envelopes ts resting d a =
      subst
        (λ p.
          Follows ts resting [] p
            (replace_walk primary replacing ts true (flat envelopes) resting []))
        (sym (replace_from-eq primary replacing envelopes))
        (subst
          (λ l.
            Follows ts resting [] (replacement primary replacing (pendings envelopes))
              (replace_walk primary replacing ts true l resting []))
          (map-pendings envelopes)
          (replace_walk-Follows primary replacing ts (pendings envelopes) resting [] d a))

  -- Live's pending intents are those of the backtest's envelopes, on different instruments, the
  -- instants agree, and a decision arrives that is not empty. Then live keeps the intents that the
  -- backtest keeps, and forgets the instants of, and offers an event for, exactly the symbols that
  -- the backtest returns as replaced.
  pub replace-mirror :
      (primary : String) (envelopes : List (Envelope F)) (new : Decision F) (ts : ℕ)
      (resting : RestingSince)
      → is_empty new ≡ false
      → Distinct
          (map (λ (p : OrderIntent F × Option ℕ). symbol_of primary p.0) (pendings envelopes))
      → Agrees primary resting (pendings envelopes)
      → let w = replace_live primary (intents (flat envelopes)) new ts resting true in
        let (kept, replaced) = replace_resting_intents primary envelopes new in
        (w.result ≡ intents (flat kept))
        × (w.resting_since ≡ erase_all replaced resting)
        × (w.offered ≡ replaced_events ts replaced)
  unfolding replace_live replace_resting_intents
  replace-mirror primary envelopes (portfolio w) ts resting nonempty d a =
      let (kept, instants, events) = walked primary none envelopes ts resting d a in
      (ap intents kept, instants, events)
  replace-mirror primary envelopes (intents []) ts resting nonempty d a = absurd cc
  replace-mirror primary envelopes (intents (x ∷ l)) ts resting nonempty d a =
      let (kept, instants, events) =
        walked primary (some (symbols_of primary (x ∷ l))) envelopes ts resting d a in
      (ap intents kept, instants, events)
