-- ===== src/Core/Orders/Whole.antt =====
-- The book and the cash over the whole of `execute_order_intents`.
use librae.Base.{
  true, false, refl, some-none, String, ◌≡◌, refl, sym, ap, ◌∙◌, inl, inr, Option, none, some, List,
  [], ◌∷◌, Bool-cases, Dict, Result, ok, err, false, Bool, if◌then◌else◌, ◌&&◌,
}
use mathlib.Core.Path.{subst}
use librae.Core.Intents.{OrderIntent}
use librae.Core.Events.{RuntimeEvent}
use librae.Core.Number.{Number, ◌+◌, zero}
use librae.Core.Positions.{PositionState}
use librae.Core.Fills.Book.{replay_cash}
use librae.Core.Stops.Steps.{IsBook, size}
use librae.Core.Orders.{Plan, Run, Outcome, OrderError, started_run, then_run-returns}
use librae.Core.Orders.Normalize.{Normal}
use librae.Core.Orders.Execute.{
  Pricing, price_all, check_pricing, executed, execute_normalized, execute_prepared, execute_plain,
  prepare, priced_by, when_clear, execute_priced,
}
use librae.Core.Orders.Groups.{
  OrderUnit, Leg, priced_by_identity, fully_filled, commit, committed, committed_group, unfillable,
  run_unit, run_units, run_preflighted, alone, run_validated, execute_groups, staged, run_prepared,
  intents_in, preflight, units_from, execute_order_intents, any_grouped, validate_prices,
}
use librae.Core.Orders.Ledger.{Accounts, Tells, replay_size, replay_size-append}
use librae.Core.Orders.Told.{IsMachine, execute_priced-Accounts}

module _ {R : Type 0} ⦃num : Number R⦄ (exact : IsMachine num) (plan : Plan R) where
  executed-Accounts :
      (before : Dict String (PositionState R)) (cash : R) (run : Run R)
      (priced : Result OrderError (List (OrderIntent R × Option R)))
      → Accounts before run
      → Accounts before (executed plan cash run priced).0
  executed-Accounts before cash run (err e) accounts = accounts
  executed-Accounts before cash run (ok priced) accounts =
      clear (execute_priced plan cash priced run) (check_pricing priced priced)
        (execute_priced-Accounts exact plan before cash priced run accounts)
    where
      clear :
          (next : Outcome R) (lost : Option OrderError)
          → Accounts before next.0
          → Accounts before (when_clear run lost next).0
      clear next none later = later
      clear next (some e) later = accounts

  normalized-Accounts :
      (before : Dict String (PositionState R)) (pricing : Pricing R) (cash : R)
      (normals : List (Normal R)) (run : Run R)
      → Accounts before run
      → Accounts before (execute_normalized plan pricing cash normals run).0
  unfolding execute_normalized
  normalized-Accounts before pricing cash normals run accounts =
      executed-Accounts before cash run (price_all pricing normals) accounts

  pub plain-Accounts :
      (pricing : Pricing R) (cash : R) (intents : List (OrderIntent R))
      (positions : Dict String (PositionState R)) (volume adv : Dict String R)
      → IsBook positions
      → Accounts positions (execute_plain plan pricing cash intents positions volume adv).0
  unfolding execute_plain
  plain-Accounts pricing cash intents positions volume adv book =
      prepared (prepare plan positions intents)
    where
      prepared :
          (p : Result OrderError (List (Normal R) × List RuntimeEvent))
          → Accounts positions
              (execute_prepared plan pricing cash (started_run positions volume adv []) p).0
      prepared (err e) = ((book, λ k. refl), refl)
      prepared (ok (normals, notes)) =
          normalized-Accounts positions pricing cash normals _ ((book, λ k. refl), refl)

  module _ (before : Dict String (PositionState R)) where
    -- The events of a unit follow those before it.
    pub commit-Tells :
        (run result : Run R)
        → Tells before run
        → Tells run.positions result
        → Tells before (commit run result)
    unfolding commit
    commit-Tells run result (book, held) (later, held_later) = (
      later,
      λ k.
          held_later k
          ∙ ap (λ q. replay_size k q result.events) (held k)
          ∙ sym (replay_size-append k (size k before) run.events result.events),
    )

    committed-Tells :
        (run after : Run R) (o : Outcome R)
        → Tells before run
        → Tells run.positions o.0
        → committed run o ≡ (after, none)
        → Tells before after
    committed-Tells run after (result, none) told later h =
        subst (λ (p : Outcome R). Tells before p.0) h (commit-Tells run result told later)
    committed-Tells run after (result, some e) told later h =
        absurd (some-none (ap (λ (p : Outcome R). p.1) h))

    group-Tells :
        (g : String) (legs : List (Leg R)) (run after : Run R) (o : Outcome R)
        → Tells before run
        → Tells run.positions o.0
        → committed_group plan g legs run o ≡ (after, none)
        → Tells before after
    unfolding unfillable
    group-Tells g legs run after (result, some e) told later h =
        absurd (some-none (ap (λ (p : Outcome R). p.1) h))
    group-Tells g legs run after (result, none) told later h =
        elim (Bool-cases (fully_filled plan legs result.events)) [
          | inl full ↦
              subst (λ (p : Outcome R). Tells before p.0) (rw full at h)
                (commit-Tells run result told later)
          | inr partial_ ↦ subst (λ (p : Outcome R). Tells before p.0) (rw partial_ at h) told
        ]

    unit-Tells :
        (cash : R) (u : OrderUnit R × List (Leg R)) (run after : Run R)
        → Tells before run
        → run_unit plan cash u run ≡ (after, none)
        → Tells before after
    unfolding run_unit
    unit-Tells cash ((none, members), legs) run after told h =
        committed-Tells run after (alone plan cash members run) told
          (plain-Accounts (priced_by plan) (cash + run.cash_delta) members run.positions
            run.volume_consumed run.adv_consumed told.0).0
          h
    unit-Tells cash ((some g, members), legs) run after told h =
        group-Tells g legs run after (staged plan cash members run) told
          (plain-Accounts (priced_by_identity plan) (cash + run.cash_delta) members run.positions
            run.volume_consumed run.adv_consumed told.0).0
          h

    units-Tells :
        (cash : R) (units : List (OrderUnit R × List (Leg R))) (run after : Run R)
        → Tells before run
        → run_units plan cash units run ≡ (after, none)
        → Tells before after
    unfolding run_units
    units-Tells cash [] run after told h = subst (λ (p : Outcome R). Tells before p.0) h told
    units-Tells cash (u ∷ rest) run after told h =
        let (next, step, later) =
          then_run-returns (run_unit plan cash u run) (run_units plan cash rest) h in
        units-Tells cash rest next after (unit-Tells cash u run next told step) later

    groups-Tells :
        (cash : R) (run after : Run R)
        (units : Result OrderError (List (OrderUnit R × List (Leg R))))
        → Tells before run
        → run_preflighted plan cash run units ≡ (after, none)
        → Tells before after
    groups-Tells cash run after (err e) told h = absurd (some-none (ap (λ (p : Outcome R). p.1) h))
    groups-Tells cash run after (ok units) told h = units-Tells cash units run after told h

  whole-Accounts :
      (cash : R) (intents : List (OrderIntent R)) (positions : Dict String (PositionState R))
      (volume adv : Dict String R) (invalid : Option OrderError)
      → IsBook positions
      → Accounts positions
          (run_validated plan false cash intents (started_run positions volume adv []) invalid).0
  whole-Accounts cash intents positions volume adv (some e) book = ((book, λ k. refl), refl)
  whole-Accounts cash intents positions volume adv none book =
      prepared (prepare plan positions intents)
    where
      prepared :
          (p : Result OrderError (List (Normal R) × List RuntimeEvent))
          → Accounts positions
              (run_prepared plan false cash (started_run positions volume adv []) p).0
      prepared (err e) = ((book, λ k. refl), refl)
      prepared (ok (normals, notes)) =
          normalized-Accounts positions (priced_by plan) cash normals _ ((book, λ k. refl), refl)

  whole-Tells :
      (atomic_groups : Bool) (cash : R) (intents : List (OrderIntent R))
      (positions : Dict String (PositionState R)) (volume adv : Dict String R)
      (invalid : Option OrderError) (after : Run R)
      → IsBook positions
      → run_validated plan atomic_groups cash intents (started_run positions volume adv []) invalid
        ≡ (after, none)
      → Tells positions after
  unfolding execute_groups
  whole-Tells atomic_groups cash intents positions volume adv (some e) after book h =
      absurd (some-none (ap (λ (p : Outcome R). p.1) h))
  whole-Tells atomic_groups cash intents positions volume adv none after book h =
      prepared (prepare plan positions intents) h
    where
      routed :
          (grouped : Bool) (normals : List (Normal R)) (run : Run R)
          → Accounts positions run
          → (if grouped
              then execute_groups plan cash (intents_in normals) run
              else execute_normalized plan (priced_by plan) cash normals run)
            ≡ (after, none)
          → Tells positions after
      routed true normals run accounts g =
          groups-Tells positions cash run after
            (preflight plan run.positions (units_from (intents_in normals) [])) accounts.0 g
      routed false normals run accounts g =
          subst (λ (p : Outcome R). Tells positions p.0) g
            (normalized-Accounts positions (priced_by plan) cash normals run accounts).0

      prepared :
          (p : Result OrderError (List (Normal R) × List RuntimeEvent))
          → run_prepared plan atomic_groups cash (started_run positions volume adv []) p
            ≡ (after, none)
          → Tells positions after
      prepared (err e) g = absurd (some-none (ap (λ (p : Outcome R). p.1) g))
      prepared (ok (normals, notes)) g =
          routed (atomic_groups && any_grouped normals) normals
            (record (started_run positions volume adv []) { runtime_events = notes })
            ((book, λ k. refl), refl) g

-- A call without groups that fill as one, over a book whose positions stand under their symbols with
-- positive quantities, where the arithmetic has the facts of `IsMachine`, whether it returns or
-- raises: the book that it leaves is such a book again; its events, replayed over the book before,
-- where a reduction to a positive quantity within the tolerance changes nothing, give every open
-- quantity, counted not below zero; and the cash flows of its events, added up in order from zero,
-- give its change of the cash.
pub execute_order_intents-Accounts :
    {R : Type 0} ⦃num : Number R⦄ (exact : IsMachine num) (plan : Plan R) (cash : R)
    (intents : List (OrderIntent R)) (positions : Dict String (PositionState R))
    (volume adv : Dict String R)
    → IsBook positions
    → let run = (execute_order_intents plan false cash intents positions volume adv).0 in
      IsBook run.positions
      × ((k : String) → size k run.positions ≡ replay_size k (size k positions) run.events)
      × (run.cash_delta ≡ replay_cash zero run.events)
unfolding execute_order_intents
execute_order_intents-Accounts exact plan cash intents positions volume adv book =
    let ((book_after, held), paid) =
      whole-Accounts exact plan cash intents positions volume adv
        (validate_prices plan.validate_intent_prices plan.primary_symbol intents) book in
    (book_after, held, paid)

-- A call that returns, with or without groups that fill as one, over a book whose positions stand
-- under their symbols with positive quantities, where the arithmetic has the facts of `IsMachine`:
-- the book that it leaves is such a book again, and its events, with none of a group that is
-- dropped, replayed over the book before, where a reduction to a positive quantity within the
-- tolerance changes nothing, give every open quantity, counted not below zero.
pub execute_order_intents-Tells :
    {R : Type 0} ⦃num : Number R⦄ (exact : IsMachine num) (plan : Plan R) (atomic_groups : Bool)
    (cash : R) (intents : List (OrderIntent R)) (positions : Dict String (PositionState R))
    (volume adv : Dict String R) (run : Run R)
    → IsBook positions
    → execute_order_intents plan atomic_groups cash intents positions volume adv ≡ (run, none)
    → IsBook run.positions
      × ((k : String) → size k run.positions ≡ replay_size k (size k positions) run.events)
unfolding execute_order_intents
execute_order_intents-Tells exact plan atomic_groups cash intents positions volume adv run book h =
    whole-Tells exact plan atomic_groups cash intents positions volume adv
      (validate_prices plan.validate_intent_prices plan.primary_symbol intents) run book h
