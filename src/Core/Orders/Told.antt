-- ===== src/Core/Orders/Told.antt =====
-- Over the loop of `execute_order_intents`.
use librae.Base.{
  refl, String, ◌≡◌, refl, ap, inl, inr, false, Option, none, some, List, [], ◌∷◌, Bool-cases, Dict,
  lookup, Result, ok, err, string_eq, ◌++◌,
}
use librae.Core.Intents.{OrderIntent, PositionSide, OrderAction, is_resting, symbol_of}
use librae.Core.Number.{Number, ◌≤◌, zero, epsilon}
use librae.Core.Positions.{PositionState, PositionEventType, Fill, scale_into_position, open_, add_}
use librae.Core.Fills.{side_eq}
use librae.Core.Fills.Book.{IsFloat, is_close, is_reduce}
use librae.Core.Liquidity.{fill_side_of, impact_volume_unavailable}
use librae.Core.Stops.{asked}
use librae.Core.Stops.Steps.{IsTolerance, book-found}
use librae.Core.Orders.{Plan, Run, Outcome, then_run}
use librae.Core.Orders.Entry.{ioc_remainder_event, order_is_too_large, fok_falls_short}
use librae.Core.Orders.Opening.{
  with_remainder, attempt, opened, scaled, book_fill, add_to, enter_step,
}
use librae.Core.Orders.Closing.{is_zero_close, close_sized, close_step}
use librae.Core.Orders.Execute.{rested, act, act_at, execute_priced}
use librae.Core.Orders.Accepted.{try_fill-Accepted}
use librae.Core.Orders.Ledger.{Accounts, booked-Accounts, closed_now-Accounts}

-- The facts of IEEE 754 that a run of fills needs: those of one fill, those on the tolerance, and that
-- two numbers that are not below or at zero have a sum that is not.
pub record IsMachine {R : Type 0} (num : Number R) : Type 0 where
  pub float : IsFloat num
  pub tolerance : IsTolerance num
  pub sum :
      (a b : R)
      → num.le a num.zero ≡ false
      → num.le b num.zero ≡ false
      → num.le (num.add a b) num.zero ≡ false

module _ {R : Type 0} ⦃num : Number R⦄ (exact : IsMachine num) (plan : Plan R)
    (before : Dict String (PositionState R)) where
  module _ (cash : R) (intent : OrderIntent R) (symbol : String) (price : R) where
    book_fill-Accounts :
        (t : PositionEventType) (position_after : Fill R → PositionState R) (run : Run R)
        (filled : Result String (Fill R × R))
        → is_close t ≡ false
        → is_reduce t ≡ false
        → ((fill : Fill R) (outlay : R)
            → filled ≡ ok (fill, outlay)
            → ((position_after fill).symbol ≡ symbol)
              × (((position_after fill).quantity ≤ zero) ≡ false))
        → Accounts before run
        → Accounts before (book_fill plan t intent symbol price position_after run filled).0
    unfolding book_fill
    book_fill-Accounts t position_after run (err reason) opens enters sound accounts = accounts
    book_fill-Accounts t position_after run (ok (fill, outlay)) opens enters sound accounts =
        let (same, positive) = sound fill outlay refl in
        elim (Bool-cases
          (order_is_too_large fill (plan.get_cost_model symbol) plan.max_order_notional)) [
            | inl over ↦ rw over accounts
            | inr within ↦ rw within (
                booked-Accounts exact.float plan t intent symbol price fill outlay
                  (position_after fill) before (with_remainder plan intent symbol fill.quantity run)
                  opens enters same positive accounts)
          ]

    filled-positive :
        (side : PositionSide) (existing : R) (run : Run R) (fill : Fill R) (outlay : R)
        → fill_side_of intent.action ≡ some side
        → attempt plan cash intent symbol price existing run ≡ ok (fill, outlay)
        → (fill.quantity ≤ zero) ≡ false
    unfolding attempt
    filled-positive side existing run fill outlay sided h =
        (try_fill-Accepted exact.tolerance.tiny side intent price _ _ _ _ _ _ _ _ fill outlay sided
          h).0

    open-Accounts :
        (side : PositionSide) (run : Run R)
        → fill_side_of intent.action ≡ some side
        → Accounts before run
        → Accounts before (enter_step plan cash intent symbol price side run none).0
    unfolding enter_step opened
    open-Accounts side run sided accounts =
        book_fill-Accounts open_ (opened plan intent symbol price) run
          (attempt plan cash intent symbol price zero run) refl refl
          (λ fill outlay h. (refl, filled-positive side zero run fill outlay sided h)) accounts

    add-Accounts :
        (side : PositionSide) (position : PositionState R) (run : Run R) (quantity : Option R)
        → fill_side_of intent.action ≡ some side
        → lookup symbol run.positions ≡ some position
        → Accounts before run
        → Accounts before (add_to plan cash intent symbol price position run quantity).0
    unfolding scaled scale_into_position
    add-Accounts side position run none sided found accounts = accounts
    add-Accounts side position run (some quantity) sided found accounts =
        let (same, positive) = book-found symbol position run.positions accounts.0.0 found in
        book_fill-Accounts add_ (λ fill. scaled plan intent symbol fill position) run
          (attempt plan cash intent symbol price position.quantity run) refl refl
          (λ fill outlay h. (
            same,
            exact.sum position.quantity fill.quantity positive
                (filled-positive side position.quantity run fill outlay sided h),
          ))
          accounts

    enter_step-Accounts :
        (side : PositionSide) (run : Run R) (position : Option (PositionState R))
        → fill_side_of intent.action ≡ some side
        → lookup symbol run.positions ≡ position
        → Accounts before run
        → Accounts before (enter_step plan cash intent symbol price side run position).0
    unfolding enter_step
    enter_step-Accounts side run none sided found accounts = open-Accounts side run sided accounts
    enter_step-Accounts side run (some position) sided found accounts =
        elim (Bool-cases (side_eq position.side side)) [
          | inl same ↦ rw same (add-Accounts side position run intent.quantity sided found accounts)
          | inr other ↦ rw other accounts
        ]

    close_sized-Accounts :
        (position : PositionState R) (intended requested : R) (run : Run R)
        → lookup symbol run.positions ≡ some position
        → Accounts before run
        → Accounts before (close_sized plan intent symbol price position intended requested run)
    unfolding close_sized
    close_sized-Accounts position intended requested run found accounts =
        elim (Bool-cases (requested ≤ epsilon)) [
          | inl nothing ↦ rw nothing accounts
          | inr beyond ↦
              elim (Bool-cases (fok_falls_short intent.time_in_force (some intended) requested)) [
                | inl short ↦ rw (beyond, short) accounts
                | inr whole ↦
                    rw (beyond, whole)
                      (closed_now-Accounts exact.tolerance plan intent symbol price requested
                        position
                        (record run {
                          runtime_events =
                              run.runtime_events
                              ++ ioc_remainder_event plan.as_value plan.ts symbol
                                  intent.time_in_force (some intended) requested;
                        })
                        before found beyond accounts)
              ]
        ]

    close_step-Accounts :
        (run : Run R) (position : Option (PositionState R))
        → lookup symbol run.positions ≡ position
        → Accounts before run
        → Accounts before (close_step plan intent symbol price run position)
    unfolding close_step
    close_step-Accounts run none found accounts = accounts
    close_step-Accounts run (some position) found accounts =
        elim (Bool-cases (is_zero_close intent.quantity)) [
          | inl nothing ↦ rw nothing accounts
          | inr some_ ↦
              elim (Bool-cases (
                impact_volume_unavailable (plan.get_cost_model symbol)
                  (asked plan.get_volume symbol))) [
                    | inl missing ↦ rw (some_, missing) accounts
                    | inr usable ↦
                        rw (some_, usable) (close_sized-Accounts position _ _ run found accounts)
                  ]
        ]

    act-Accounts :
        (run : Run R) (action : OrderAction)
        → intent.action ≡ action
        → Accounts before run
        → Accounts before (act plan cash intent symbol price run action).0
    act-Accounts run OrderAction.long acts accounts =
        enter_step-Accounts PositionSide.long run (lookup symbol run.positions)
          (ap fill_side_of acts) refl accounts
    act-Accounts run OrderAction.short acts accounts =
        enter_step-Accounts PositionSide.short run (lookup symbol run.positions)
          (ap fill_side_of acts) refl accounts
    act-Accounts run OrderAction.close acts accounts =
        close_step-Accounts run (lookup symbol run.positions) refl accounts

  rested-Accounts :
      (intent : OrderIntent R) (run : Run R)
      → Accounts before run
      → Accounts before (rested intent run)
  rested-Accounts intent run accounts = elim (Bool-cases (is_resting intent.time_in_force)) [
    | inl h ↦ rw h accounts
    | inr h ↦ rw h accounts
  ]

  act_at-Accounts :
      (cash : R) (intent : OrderIntent R) (run : Run R) (price : Option R)
      → Accounts before run
      → Accounts before (act_at plan cash intent run price).0
  act_at-Accounts cash intent run none accounts = rested-Accounts intent run accounts
  act_at-Accounts cash intent run (some price) accounts = elim (Bool-cases (price ≤ zero)) [
    | inl unpriced_ ↦ rw unpriced_ (rested-Accounts intent run accounts)
    | inr priced ↦ rw priced (
        act-Accounts cash intent (symbol_of plan.primary_symbol intent) price run intent.action refl
          accounts)
  ]

  then_run-Accounts :
      (o : Outcome R) (next : Run R → Outcome R)
      → Accounts before o.0
      → ((run : Run R) → Accounts before run → Accounts before (next run).0)
      → Accounts before (then_run o next).0
  then_run-Accounts (run, none) next accounts later = later run accounts
  then_run-Accounts (run, some e) next accounts later = accounts

  pub execute_priced-Accounts :
      (cash : R) (priced : List (OrderIntent R × Option R)) (run : Run R)
      → Accounts before run
      → Accounts before (execute_priced plan cash priced run).0
  unfolding execute_priced
  execute_priced-Accounts cash [] run accounts = accounts
  execute_priced-Accounts cash ((intent, price) ∷ rest) run accounts =
      then_run-Accounts (act_at plan cash intent run price) (execute_priced plan cash rest)
        (act_at-Accounts cash intent run price accounts)
        (λ next told. execute_priced-Accounts cash rest next told)
