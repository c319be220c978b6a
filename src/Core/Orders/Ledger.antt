-- ===== src/Core/Orders/Ledger.antt =====
-- What the events of a run of intents tell of the book and of the cash.
use librae.Base.{
  refl, String, ◌≡◌, refl, sym, ap, ◌∙◌, inl, inr, false, Option, none, some, List, [], ◌∷◌, ◌++◌,
  if◌then◌else◌, Bool-cases, ◌==◌, nat_eq, string_eq, Dict, Bool, true, lookup, insert,
}
use librae.Core.Intents.{OrderIntent}
use librae.Core.Number.{Number, ◌-◌, ◌<◌, ◌≤◌, min, max, zero, epsilon}
use librae.Core.Positions.{
  build_trade_result, PositionState, PositionEvent, PositionEventType, Fill, reduce_position,
  close_position,
}
use librae.Core.Positions.Close.{build_close_event}
use librae.Core.Fills.Book.{is_close, is_reduce, is_spared, paid, replay_cash, IsFloat}
use librae.Core.Stops.{asked}
use librae.Core.Stops.Steps.{
  IsTolerance, size, IsBook, size-insert, size-erase, IsBook-insert, IsBook-erase, book-found,
  close-full, min-positive, spared-max, same_either, beyond-max, size-spared, size-left,
  rest-positive, replay_cash-append, symbol-reduce,
}
use librae.Core.Orders.{Plan, Run}
use librae.Core.Orders.Opening.{booked}
use librae.Core.Orders.Closing.{closed_now}

module _ {R : Type 0} ⦃num : Number R⦄ where
  -- What an event tells of the open quantity of an instrument, not below zero.
  abbrev pub told_size : String → PositionEvent R → Option R → Option R
  told_size k e before =
      if e.symbol == k
      then (if is_close e.event_type
          then none
          else if is_spared e
          then before
          else some (max zero e.remaining_quantity))
      else before

  abbrev pub replay_size : String → Option R → List (PositionEvent R) → Option R
  replay_size k before [] = before
  replay_size k before (e ∷ events) = replay_size k (told_size k e before) events

  pub replay_size-append :
      (k : String) (q : Option R) (xs ys : List (PositionEvent R))
      → replay_size k q (xs ++ ys) ≡ replay_size k (replay_size k q xs) ys
  replay_size-append k q [] ys = refl
  replay_size-append k q (x ∷ xs) ys = replay_size-append k (told_size k x q) xs ys

  -- The events since `before` tell the book.
  abbrev pub Tells : Dict String (PositionState R) → Run R → Type 0
  Tells before run =
      IsBook run.positions
      × ((k : String) → size k run.positions ≡ replay_size k (size k before) run.events)

  -- They tell the cash too.
  abbrev pub Accounts : Dict String (PositionState R) → Run R → Type 0
  Accounts before run = Tells before run × (run.cash_delta ≡ replay_cash zero run.events)

  max_again : (x : R) → max zero (max zero x) ≡ max zero x
  max_again x = elim (Bool-cases (zero < x)) [
    | inl h ↦ rw (h, h)
    | inr h ↦ rw h (elim (Bool-cases (num.lt num.zero num.zero)) [ inl z ↦ rw z | inr z ↦ rw z ])
  ]

  -- A step that adds one event, which tells what it does.
  next-Accounts :
      (before : Dict String (PositionState R)) (run after : Run R) (e : PositionEvent R)
      → after.events ≡ run.events ++ e ∷ []
      → IsBook after.positions
      → ((k : String) → size k after.positions ≡ told_size k e (size k run.positions))
      → after.cash_delta ≡ paid run.cash_delta e.cash_flow
      → Accounts before run
      → Accounts before after
  next-Accounts before run after e grown book tells cash_next ((_, held), cash) = rw grown (
    (
      book,
      λ k.
          tells k
          ∙ ap (told_size k e) (held k)
          ∙ sym (replay_size-append k (size k before) run.events (e ∷ [])),
    ),
    cash_next ∙ ap (λ c. paid c e.cash_flow) cash ∙ sym (replay_cash-append zero run.events e),
  )

  -- A position that is booked under its symbol with a positive quantity.
  pub booked-Accounts :
      (float : IsFloat num) (plan : Plan R) (t : PositionEventType) (intent : OrderIntent R)
      (symbol : String) (price : R) (fill : Fill R) (outlay : R) (position : PositionState R)
      (before : Dict String (PositionState R)) (run : Run R)
      → is_close t ≡ false
      → is_reduce t ≡ false
      → position.symbol ≡ symbol
      → (position.quantity ≤ zero) ≡ false
      → Accounts before run
      → Accounts before (booked plan t intent symbol price fill outlay position run)
  unfolding booked
  booked-Accounts float plan t intent symbol price fill outlay position before run opens enters same
        positive ((book, held), cash) =
      next-Accounts before run (booked plan t intent symbol price fill outlay position run) _ refl
        (IsBook-insert symbol position run.positions same positive book)
        (λ k. rw (opens, enters) (size-insert k symbol position run.positions))
        (float.sub_neg run.cash_delta outlay) ((book, held), cash)

  module _ (tolerance : IsTolerance num) (plan : Plan R) (intent : OrderIntent R) (symbol : String)
      (price q : R) (position : PositionState R) (run : Run R) where
    -- What the close takes.
    abbrev taken : R
    taken = min q position.quantity

    abbrev is_all : Bool
    is_all =
        (close_position position price (plan.get_cost_model symbol) (some taken)
          (asked plan.get_volume symbol)).2

    abbrev event_of_close : PositionEvent R
    event_of_close =
        (build_close_event position plan.ts price (plan.get_cost_model symbol) intent.reason
          (some q) (asked plan.get_volume symbol) intent.time_in_force).1

    is_all-eq : (taken ≤ zero) ≡ false → is_all ≡ (position.quantity - epsilon ≤ taken)
    is_all-eq positive =
        close-full position price (plan.get_cost_model symbol) q (asked plan.get_volume symbol)
          positive

    close_all :
        (before : Dict String (PositionState R))
        → position.symbol ≡ symbol
        → is_all ≡ true
        → Accounts before run
        → Accounts before (closed_now plan intent symbol price q position run)
    unfolding closed_now build_close_event
    close_all before same all ((book, held), cash) =
        next-Accounts before run (closed_now plan intent symbol price q position run) event_of_close
          refl (rw all (IsBook-erase symbol run.positions book))
          (λ k. rw (all, same) (size-erase k symbol run.positions)) refl ((book, held), cash)

    tells_part :
        (k : String)
        → lookup symbol run.positions ≡ some position
        → position.symbol ≡ symbol
        → is_all ≡ false
        → (position.quantity - epsilon ≤ taken) ≡ false
        → size k (insert symbol (reduce_position position taken) run.positions)
          ≡ told_size k event_of_close (size k run.positions)
    unfolding build_close_event build_trade_result
    tells_part k found same rest part = elim (Bool-cases (position.quantity - taken ≤ epsilon)) [
      | inl within ↦
          let positive = tolerance.apart position.quantity taken part within in
          size-spared k symbol none position taken run.positions found within
          ∙ rw (rest, same, spared-max (position.quantity - taken) positive within)
              (same_either (symbol == k) (size k run.positions))
      | inr beyond ↦
          size-left k symbol none position taken run.positions beyond
          ∙ rw (
            rest,
            same,
            beyond-max tolerance (position.quantity - taken) beyond,
            max_again (position.quantity - taken),
          )
    ]

    after_part :
        (k : String)
        → is_all ≡ false
        → size k (closed_now plan intent symbol price q position run).positions
          ≡ size k (insert symbol (reduce_position position taken) run.positions)
    unfolding closed_now build_close_event build_trade_result
    after_part k rest = rw rest

    close_part :
        (before : Dict String (PositionState R))
        → lookup symbol run.positions ≡ some position
        → (position.quantity ≤ zero) ≡ false
        → position.symbol ≡ symbol
        → is_all ≡ false
        → (position.quantity - epsilon ≤ taken) ≡ false
        → Accounts before run
        → Accounts before (closed_now plan intent symbol price q position run)
    unfolding closed_now build_close_event build_trade_result
    close_part before found positive same rest part ((book, held), cash) =
        next-Accounts before run (closed_now plan intent symbol price q position run) event_of_close
          refl
          (rw rest (
            IsBook-insert symbol (reduce_position position taken) run.positions
              (symbol-reduce none position taken ∙ same)
              (rest-positive tolerance none position taken positive) book))
          (λ k. after_part k rest ∙ tells_part k found same rest part) refl ((book, held), cash)

    -- A close of a quantity beyond the tolerance, of the position that stands under the symbol.
    pub closed_now-Accounts :
        (before : Dict String (PositionState R))
        → lookup symbol run.positions ≡ some position
        → (q ≤ epsilon) ≡ false
        → Accounts before run
        → Accounts before (closed_now plan intent symbol price q position run)
    closed_now-Accounts before found beyond ((book, held), cash) =
        let (same, positive) = book-found symbol position run.positions book found in
        let full =
          is_all-eq (min-positive q position.quantity (tolerance.tiny q beyond) positive) in
        elim (Bool-cases (position.quantity - epsilon ≤ taken)) [
          | inl all ↦ close_all before same (full ∙ all) ((book, held), cash)
          | inr part ↦ close_part before found positive same (full ∙ part) part ((book, held), cash)
        ]
