-- ===== src/Core/Orders/Rests.antt =====
-- Which intents a call leaves resting for the next event.
use librae.Base.{
  refl, String, ◌≡◌, refl, sym, ap, ◌∙◌, inl, inr, Bool, ◌&&◌, Option, none, some, List, [], ◌∷◌,
  ◌++◌, map, Bool-cases, lookup, Result, ok, err, select, string_eq,
}
use mathlib.Core.List.{append-nil, append_assoc}
use librae.Core.Intents.{OrderIntent, OrderAction, PositionSide, is_resting, symbol_of}
use librae.Core.Number.{Number, ◌≤◌, zero, epsilon}
use librae.Core.Positions.{PositionState, PositionEventType, Fill}
use librae.Core.Fills.{side_eq}
use librae.Core.Liquidity.{impact_volume_unavailable}
use librae.Core.Stops.{asked}
use librae.Core.Orders.{Plan, Run, Outcome, then_run-returns}
use librae.Core.Orders.Entry.{order_is_too_large, fok_falls_short}
use librae.Core.Orders.Opening.{book_fill, booked, add_to, enter_step}
use librae.Core.Orders.Closing.{is_zero_close, close_sized, close_step, closed_now}
use librae.Core.Orders.Execute.{unpriced, act, act_at, execute_priced}

module _ {R : Type 0} ⦃num : Number R⦄ (plan : Plan R) where
  -- An intent that has no price and a lifetime beyond one event.
  abbrev pub rests : OrderIntent R × Option R → Bool
  rests (intent, price) = unpriced price && is_resting intent.time_in_force

  -- The resting intents of a step, which are those of the run.
  abbrev Keeps : Run R → Run R → Type 0
  Keeps run after = after.resting_intents ≡ run.resting_intents

  module _ (cash : R) (intent : OrderIntent R) (symbol : String) (price : R) (run : Run R) where
    book_fill-Keeps :
        (t : PositionEventType) (position_after : Fill R → PositionState R)
        (filled : Result String (Fill R × R))
        → Keeps run (book_fill plan t intent symbol price position_after run filled).0
    unfolding book_fill booked
    book_fill-Keeps t position_after (err reason) = refl
    book_fill-Keeps t position_after (ok (fill, outlay)) =
        elim (Bool-cases
          (order_is_too_large fill (plan.get_cost_model symbol) plan.max_order_notional)) [
            | inl over ↦ rw over refl
            | inr within ↦ rw within refl
          ]

    add_to-Keeps :
        (position : PositionState R) (quantity : Option R)
        → Keeps run (add_to plan cash intent symbol price position run quantity).0
    add_to-Keeps position none = refl
    add_to-Keeps position (some quantity) = book_fill-Keeps _ _ _

    enter_step-Keeps :
        (side : PositionSide) (position : Option (PositionState R))
        → Keeps run (enter_step plan cash intent symbol price side run position).0
    unfolding enter_step
    enter_step-Keeps side none = book_fill-Keeps _ _ _
    enter_step-Keeps side (some position) = elim (Bool-cases (side_eq position.side side)) [
      | inl same ↦ rw same (add_to-Keeps position intent.quantity)
      | inr other ↦ rw other refl
    ]

    close_sized-Keeps :
        (position : PositionState R) (intended requested : R)
        → Keeps run (close_sized plan intent symbol price position intended requested run)
    unfolding close_sized closed_now
    close_sized-Keeps position intended requested = elim (Bool-cases (requested ≤ epsilon)) [
      | inl nothing ↦ rw nothing refl
      | inr beyond ↦
          elim (Bool-cases (fok_falls_short intent.time_in_force (some intended) requested)) [
            | inl short ↦ rw (beyond, short) refl
            | inr whole ↦ rw (beyond, whole) refl
          ]
    ]

    close_step-Keeps :
        (position : Option (PositionState R))
        → Keeps run (close_step plan intent symbol price run position)
    unfolding close_step
    close_step-Keeps none = refl
    close_step-Keeps (some position) = elim (Bool-cases (is_zero_close intent.quantity)) [
      | inl nothing ↦ rw nothing refl
      | inr some_ ↦
          elim (Bool-cases (
            impact_volume_unavailable (plan.get_cost_model symbol)
              (asked plan.get_volume symbol))) [
                | inl missing ↦ rw (some_, missing) refl
                | inr usable ↦ rw (some_, usable) (close_sized-Keeps position _ _)
              ]
    ]

    act-Keeps : (action : OrderAction) → Keeps run (act plan cash intent symbol price run action).0
    act-Keeps OrderAction.long = enter_step-Keeps PositionSide.long (lookup symbol run.positions)
    act-Keeps OrderAction.short = enter_step-Keeps PositionSide.short (lookup symbol run.positions)
    act-Keeps OrderAction.close = close_step-Keeps (lookup symbol run.positions)

  abbrev pub resting_of : List (OrderIntent R × Option R) → List (OrderIntent R)
  resting_of priced = map (λ (p : OrderIntent R × Option R). p.0) (select rests priced)

  act_at-resting :
      (cash : R) (intent : OrderIntent R) (run : Run R) (price : Option R)
      → (act_at plan cash intent run price).0.resting_intents
        ≡ run.resting_intents ++ resting_of ((intent, price) ∷ [])
  act_at-resting cash intent run none = elim (Bool-cases (is_resting intent.time_in_force)) [
    | inl h ↦ rw h refl
    | inr h ↦ rw h (sym (append-nil run.resting_intents))
  ]
  act_at-resting cash intent run (some price) = elim (Bool-cases (price ≤ zero)) [
    | inl unpriced_ ↦ elim (Bool-cases (is_resting intent.time_in_force)) [
      | inl h ↦ rw (unpriced_, h) refl
      | inr h ↦ rw (unpriced_, h) (sym (append-nil run.resting_intents))
    ]
    | inr priced ↦ rw priced (
        act-Keeps cash intent (symbol_of plan.primary_symbol intent) price run intent.action
        ∙ sym (append-nil run.resting_intents))
  ]

  resting_of-cons :
      (p : OrderIntent R × Option R) (rest : List (OrderIntent R × Option R))
      → resting_of (p ∷ rest) ≡ resting_of (p ∷ []) ++ resting_of rest
  resting_of-cons p rest = elim (Bool-cases (rests p)) [ inl h ↦ rw h refl | inr h ↦ rw h refl ]

  pub execute_priced-resting :
      (cash : R) (priced : List (OrderIntent R × Option R)) (run after : Run R)
      → execute_priced plan cash priced run ≡ (after, none)
      → after.resting_intents ≡ run.resting_intents ++ resting_of priced
  unfolding execute_priced
  execute_priced-resting cash [] run after h =
      sym (ap (λ (o : Outcome R). o.0.resting_intents) h) ∙ sym (append-nil run.resting_intents)
  execute_priced-resting cash ((intent, price) ∷ rest) run after h =
      let (next, step, later) =
        then_run-returns (act_at plan cash intent run price) (execute_priced plan cash rest) h in
      execute_priced-resting cash rest next after later
      ∙ ap (λ l. l ++ resting_of rest)
          (sym (ap (λ (o : Outcome R). o.0.resting_intents) step)
            ∙ act_at-resting cash intent run price)
      ∙ append_assoc run.resting_intents (resting_of ((intent, price) ∷ [])) (resting_of rest)
      ∙ ap (λ l. run.resting_intents ++ l) (sym (resting_of-cons (intent, price) rest))
