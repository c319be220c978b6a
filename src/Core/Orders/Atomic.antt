-- ===== src/Core/Orders/Atomic.antt =====
-- A group fills as one.
use librae.Base.{
  refl, some-none, String, ◌≡◌, refl, ◌≢◌, ◌⊎◌, inl, inr, true, false, none, some, List, [], ◌∷◌,
  ◌++◌, Bool-cases, ◌==◌, nat_eq, string_eq,
}
use librae.Core.Intents.{OrderIntent}
use librae.Core.Events.{RuntimeEvent}
use librae.Core.Number.{Number, zero, epsilon}
use librae.Core.Positions.{PositionEvent}
use librae.Core.Orders.{Plan, Run, Outcome}
use librae.Core.Orders.Groups.{
  Leg, fully_filled, commit, committed_group, unfillable, staged, run_unit,
}

false-true : false ≢ true
false-true h = absurd cc

module _ {R : Type 0} ⦃num : Number R⦄ where
  -- Each leg is filled in full, by one event of its symbol, in order.
  abbrev pub AllFill : Plan R → List (Leg R) → List (PositionEvent R) → Type 0
  AllFill plan [] [] = Unit
  AllFill plan ((symbol, expected) ∷ legs) (e ∷ events) =
      (e.symbol ≡ symbol)
      × (plan.isclose zero epsilon e.fill_quantity expected ≡ true)
      × AllFill plan legs events
  AllFill plan [] (_ ∷ _) = ⊥
  AllFill plan (_ ∷ _) [] = ⊥

  -- The run but for the operational events.
  abbrev pub without_notes : Run R → Run R
  without_notes run = record run { runtime_events = [] }

  fully_filled-AllFill :
      (plan : Plan R) (legs : List (Leg R)) (events : List (PositionEvent R))
      → fully_filled plan legs events ≡ true
      → AllFill plan legs events
  unfolding fully_filled
  fully_filled-AllFill plan [] [] h = tt
  fully_filled-AllFill plan [] (e ∷ events) h = absurd cc
  fully_filled-AllFill plan (leg ∷ legs) [] h = absurd cc
  fully_filled-AllFill plan ((symbol, expected) ∷ legs) (e ∷ events) h =
      elim (Bool-cases (e.symbol == symbol)) [
        | inl same ↦ elim (Bool-cases (plan.isclose zero epsilon e.fill_quantity expected)) [
          | inl close ↦ (
            (string_eq.beq_iff e.symbol symbol).0 same,
            close,
            fully_filled-AllFill plan legs events (rw (same, close) at h),
          )
          | inr far ↦ absurd (false-true (rw (same, far) at h))
        ]
        | inr other ↦ absurd (false-true (rw other at h))
      ]

  -- The run raises and changes nothing; or it returns, adds one operational event and changes nothing
  -- else; or it returns with events that fill every leg.
  abbrev pub AllOrNothing : Plan R → List (Leg R) → Run R → Outcome R → Type 0
  AllOrNothing plan legs run (after, raised) =
      ((raised ≢ none) × (after ≡ run))
      ⊎ ((raised ≡ none)
          × (without_notes after ≡ without_notes run)
          × ((e : RuntimeEvent) × (after.runtime_events ≡ run.runtime_events ++ e ∷ [])))
      ⊎ ((raised ≡ none)
          × ((filled : List (PositionEvent R)) × (after.events ≡ run.events ++ filled)
              × AllFill plan legs filled))

  committed_group-AllOrNothing :
      (plan : Plan R) (g : String) (legs : List (Leg R)) (run : Run R) (o : Outcome R)
      → AllOrNothing plan legs run (committed_group plan g legs run o)
  unfolding commit unfillable
  committed_group-AllOrNothing plan g legs run (result, some e) = inl (some-none, refl)
  committed_group-AllOrNothing plan g legs run (result, none) =
      elim (Bool-cases (fully_filled plan legs result.events)) [
        | inl full ↦ rw full (
            inr (
              inr (refl, (result.events, refl, fully_filled-AllFill plan legs result.events full))))
        | inr partial_ ↦ rw partial_ (inr (inl (refl, refl, (_, refl))))
      ]

  -- The run of a group over staged copies: it raises and leaves the run as it was; or it returns with
  -- one more operational event and the positions, the liquidity used, the trades, the events, the cash
  -- and the resting intents as they were; or it returns with events added that fill each leg in full,
  -- one event of its symbol for each leg in order.
  pub run_unit-AllOrNothing :
      (plan : Plan R) (cash : R) (g : String) (members : List (OrderIntent R)) (legs : List (Leg R))
      (run : Run R)
      → AllOrNothing plan legs run (run_unit plan cash ((some g, members), legs) run)
  unfolding run_unit
  run_unit-AllOrNothing plan cash g members legs run =
      committed_group-AllOrNothing plan g legs run (staged plan cash members run)
