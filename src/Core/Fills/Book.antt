-- ===== src/Core/Fills/Book.antt =====
-- The position events of a run of confirmed executions tell the book and the cash that it leaves.
use mathlib.Core.Path.{subst}
use librae.Base.{
  String, ◌≡◌, refl, ◌∙◌, inl, inr, Bool, true, false, Option, none, some, List, [], ◌∷◌, ◌++◌,
  if◌then◌else◌, Bool-cases, ◌==◌, nat_eq, string_eq, Dict, lookup, insert, erase, lookup-insert,
  lookup-erase, ok, ap, ok_inj, ◌&&◌, sym,
}
use librae.Core.Number.{Number, ◌<◌, ◌≤◌, ◌+◌, ◌-◌, zero, epsilon}
use librae.Core.Intents.{PositionSide}
use librae.Core.Costs.{CostModel}
use librae.Core.Positions.{
  Fill, PositionState, PositionEvent, ExecutionResult, PositionEventType, open_, add_, reduce_,
  close_, reduce_position, scale_into_position,
}
use librae.Core.Fills.{
  OrderSide, Context, Applied, side_eq, entry_side_of, is_full, closed_quantity, opened_position,
  outlay_of, entry_event, exit_event, enter, leave, settle, is_valid_fill, apply_execution_fill,
}

-- Two facts of IEEE 754: a difference is the sum with the negation; and where `q` less the tolerance is
-- not within `c`, what `c` leaves of `q` is positive if it is within the tolerance, since a difference of
-- two numbers that differ is never rounded to zero.
pub record IsFloat {R : Type 0} (num : Number R) : Type 0 where
  pub sub_neg : (a b : R) → num.sub a b ≡ num.add a (num.neg b)
  pub apart :
      (q c : R)
      → num.le (num.sub q num.epsilon) c ≡ false
      → num.le (num.sub q c) num.epsilon ≡ true
      → num.lt num.zero (num.sub q c) ≡ true

abbrev pub is_reduce : PositionEventType → Bool
is_reduce reduce_ = true
is_reduce _ = false

abbrev pub is_close : PositionEventType → Bool
is_close close_ = true
is_close _ = false

module _ {R : Type 0} ⦃num : Number R⦄ where
  abbrev pub quantity_of : Option (PositionState R) → Option R
  quantity_of none = none
  quantity_of (some p) = some p.quantity

  -- The open quantity of an instrument.
  abbrev pub held : String → Dict String (PositionState R) → Option R
  held k positions = quantity_of (lookup k positions)

  -- A reduction to a positive quantity within the tolerance: `reduce_position` leaves it undone.
  abbrev pub is_spared : PositionEvent R → Bool
  is_spared e =
      is_reduce e.event_type && (e.remaining_quantity ≤ epsilon && zero < e.remaining_quantity)

  -- What an event tells of the open quantity of an instrument, and of the cash.
  abbrev pub told : String → PositionEvent R → Option R → Option R
  told k e before =
      if e.symbol == k
      then (if is_close e.event_type
          then none
          else if is_spared e
          then before
          else some e.remaining_quantity)
      else before

  abbrev pub paid : R → Option R → R
  paid cash none = cash
  paid cash (some flow) = cash + flow

  abbrev pub replay_held : String → Option R → List (PositionEvent R) → Option R
  replay_held k before [] = before
  replay_held k before (e ∷ events) = replay_held k (told k e before) events

  abbrev pub replay_cash : R → List (PositionEvent R) → R
  replay_cash cash [] = cash
  replay_cash cash (e ∷ events) = replay_cash (paid cash e.cash_flow) events

  -- The executions that an account accepts, one after the other, with the events that they emit.
  pub data Accepts (m : String → CostModel R)
      : Dict String (PositionState R)
        → R
        → List (PositionEvent R)
        → Dict String (PositionState R)
        → R
        → Type 0 where
    done :
        (positions : Dict String (PositionState R)) (cash : R)
        → Accepts m positions cash [] positions cash
    next :
        {positions after final : Dict String (PositionState R)} {cash cash_after cash_final : R}
        {events : List (PositionEvent R)} (result : ExecutionResult R) (fill : Fill R)
        (order_side : OrderSide) (c : Context)
        → apply_execution_fill positions cash fill order_side c (m fill.symbol)
          ≡ ok (after, cash_after, result)
        → Accepts m after cash_after events final cash_final
        → Accepts m positions cash (result.events ++ events) final cash_final

  -- One event, which tells what a step has done.
  abbrev Told : Dict String (PositionState R) → R → Applied R → Type 0
  Told positions cash (after, cash_after, result) =
      (e : PositionEvent R) × (result.events ≡ e ∷ [])
      × ((k : String) → held k after ≡ told k e (held k positions))
      × (cash_after ≡ paid cash e.cash_flow)

  held-insert :
      (k s : String) (p : PositionState R) (positions : Dict String (PositionState R))
      → held k (insert s p positions) ≡ (if s == k then some p.quantity else held k positions)
  held-insert k s p positions =
      ap quantity_of (lookup-insert s k p positions)
      ∙ (elim (Bool-cases (s == k)) [ inl h ↦ rw h | inr h ↦ rw h ])

  held-erase :
      (k s : String) (positions : Dict String (PositionState R))
      → held k (erase s positions) ≡ (if s == k then none else held k positions)
  held-erase k s positions =
      ap quantity_of (lookup-erase s k positions)
      ∙ (elim (Bool-cases (s == k)) [ inl h ↦ rw h | inr h ↦ rw h ])

  module _ (float : IsFloat num) (positions : Dict String (PositionState R)) (cash : R)
      (fill : Fill R) (order_side : OrderSide) (c : Context) (m : CostModel R) where
    enter-Told :
        (t : PositionEventType) (p : PositionState R) (side : PositionSide)
        → is_close t ≡ false
        → is_reduce t ≡ false
        → Told positions cash (enter positions cash t p fill side c m)
    unfolding enter entry_event
    enter-Told t p side h enters = (
      entry_event t p fill side c m,
      refl,
      λ k. rw (h, enters) (held-insert k fill.symbol p positions),
      float.sub_neg cash (outlay_of fill side m),
    )

    -- What a partial exit leaves, where it is within the tolerance and where it is not.
    spare-held :
        (p : PositionState R) (k : String)
        → lookup fill.symbol positions ≡ some p
        → (p.quantity - closed_quantity p fill ≤ epsilon) ≡ true
        → held k (insert fill.symbol (reduce_position p (closed_quantity p fill)) positions)
          ≡ held k positions
    unfolding reduce_position
    spare-held p k found spared =
        held-insert k fill.symbol (reduce_position p (closed_quantity p fill)) positions
        ∙ elim (Bool-cases (fill.symbol == k)) [
          | inl here ↦
              rw (spared, here)
                (sym (ap quantity_of found)
                  ∙ ap (λ s. held s positions) ((string_eq.beq_iff fill.symbol k).0 here))
          | inr other ↦ rw other
        ]

    reduce-held :
        (p : PositionState R) (k : String)
        → (p.quantity - closed_quantity p fill ≤ epsilon) ≡ false
        → held k (insert fill.symbol (reduce_position p (closed_quantity p fill)) positions) ≡ (
            if fill.symbol == k
            then some (p.quantity - closed_quantity p fill)
            else held k positions)
    unfolding reduce_position
    reduce-held p k beyond =
        held-insert k fill.symbol (reduce_position p (closed_quantity p fill)) positions ∙ rw beyond

    part-Told :
        (p : PositionState R)
        → lookup fill.symbol positions ≡ some p
        → is_full p fill ≡ false
        → Told positions cash (leave positions cash p fill c m)
    unfolding leave exit_event
    part-Told p found part = elim (Bool-cases (p.quantity - closed_quantity p fill ≤ epsilon)) [
      | inl spared ↦ (
        exit_event p fill c m,
        refl,
        λ k.
            rw (part, spared, float.apart p.quantity (closed_quantity p fill) part spared)
              (spare-held p k found spared
                ∙ elim (Bool-cases (fill.symbol == k)) [ inl h ↦ rw h | inr h ↦ rw h ]),
        refl,
      )
      | inr beyond ↦
          (exit_event p fill c m, refl, λ k. rw (part, beyond) (reduce-held p k beyond), refl)
    ]

    leave-Told :
        (p : PositionState R)
        → lookup fill.symbol positions ≡ some p
        → Told positions cash (leave positions cash p fill c m)
    unfolding leave exit_event
    leave-Told p found = elim (Bool-cases (is_full p fill)) [
      | inl full ↦
          (exit_event p fill c m, refl, λ k. rw full (held-erase k fill.symbol positions), refl)
      | inr part ↦ part-Told p found part
    ]

    settle-Told :
        (found : Option (PositionState R)) (a : Applied R)
        → lookup fill.symbol positions ≡ found
        → settle positions cash fill order_side c m found ≡ ok a
        → Told positions cash a
    unfolding settle
    settle-Told none a at_symbol h = subst (Told positions cash) (ok_inj h) (
        enter-Told open_ (opened_position fill (entry_side_of order_side) c m)
          (entry_side_of order_side) refl refl)
    settle-Told (some p) a at_symbol h =
        elim (Bool-cases (side_eq p.side (entry_side_of order_side))) [
          | inl same ↦
              subst (Told positions cash) (ok_inj (rw same at h)) (
                enter-Told add_ (scale_into_position p fill m) (entry_side_of order_side) refl refl)
          | inr other ↦ elim (Bool-cases (p.quantity + epsilon < fill.quantity)) [
            | inl over ↦ absurd cc
            | inr within ↦
                subst (Told positions cash) (ok_inj (rw (other, within) at h))
                  (leave-Told p at_symbol)
          ]
        ]

    apply-Told :
        (a : Applied R)
        → apply_execution_fill positions cash fill order_side c m ≡ ok a
        → Told positions cash a
    unfolding apply_execution_fill
    apply-Told a h = elim (Bool-cases (is_valid_fill fill)) [
      | inl valid ↦ settle-Told (lookup fill.symbol positions) a refl (rw valid at h)
      | inr bad ↦ absurd cc
    ]

  -- Executions that an account accepts, where the arithmetic has the facts of `IsFloat`: its events,
  -- replayed in order over the book and the cash it began with, where a reduction to a positive
  -- quantity within the tolerance changes nothing, give every open quantity and the cash that it
  -- ends with.
  pub Accepts-replay :
      (float : IsFloat num) (m : String → CostModel R)
      {positions final : Dict String (PositionState R)} {cash cash_final : R}
      {events : List (PositionEvent R)}
      → Accepts m positions cash events final cash_final
      → ((k : String) → held k final ≡ replay_held k (held k positions) events)
        × (cash_final ≡ replay_cash cash events)
  Accepts-replay float m (done positions cash) = (λ k. refl, refl)
  Accepts-replay float m
        (next {positions = positions} {cash = cash} {events = later} result fill order_side c h
          rest) =
      let (e, events-eq, held-eq, cash-eq) =
        apply-Told float positions cash fill order_side c (m fill.symbol) _ h in
      let (held-rest, cash-rest) = Accepts-replay float m rest in
      rw (events-eq) (
        λ k. held-rest k ∙ ap (λ q. replay_held k q later) (held-eq k),
        cash-rest ∙ ap (λ q. replay_cash q later) cash-eq,
      )
