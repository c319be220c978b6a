-- ===== src/Core/Stops/Replay.antt =====
-- The events of the forced exits tell the book and the cash that they leave.
use librae.Base.{
  String, ◌≡◌, sym, ◌∙◌, true, false, Option, none, some, ap, Dict, lookup, ◌==◌, Bool-cases, inl,
  string_eq, inr,
}
use librae.Core.Number.{Number, ◌-◌, ◌≤◌, min, zero, epsilon}
use librae.Core.Positions.{PositionState, PositionEvent, close_position, reduce_position}
use librae.Core.Positions.Close.{build_close_event}
use librae.Core.Fills.Book.{told, paid}
use librae.Core.Stops.{Market, Exits, marked, close_now}
use librae.Core.Stops.Steps.{
  IsTolerance, size, IsBook, Explains, replay_held-append, replay_cash-append, size-erase,
  IsBook-insert, IsBook-erase, book-found, close-full, min-positive, min-part, spared-max,
  same_either, beyond-max, size-spared, size-left, rest-positive, symbol-reduce,
}

module _ {R : Type 0} ⦃num : Number R⦄ where
  -- The event of a close.
  abbrev event_of :
      Market R → PositionState R → R → String → Option R → R → String → PositionEvent R
  event_of market pos price reason bar_volume q sym =
      (build_close_event pos market.ts price (market.get_cost_model sym) reason (some q) bar_volume
        none).1

  module _ (tolerance : IsTolerance num) (market : Market R) (s : String) (pos : PositionState R)
      (price : R) (reason : String) (bar_volume : Option R) (q : R) (mark : Option String)
      (state : Exits R) where
    full-all :
        (q ≤ epsilon) ≡ false
        → (pos.quantity ≤ zero) ≡ false
        → (close_position pos price
            (market.get_cost_model s)
            (some (min q pos.quantity))
            bar_volume).2
          ≡ (pos.quantity - epsilon ≤ min q pos.quantity)
    full-all beyond positive =
        close-full pos price (market.get_cost_model s) q bar_volume
          (min-positive q pos.quantity (tolerance.tiny q beyond) positive)

    tells-all :
        (k : String)
        → pos.symbol ≡ s
        → (close_position pos price
            (market.get_cost_model s)
            (some (min q pos.quantity))
            bar_volume).2
          ≡ true
        → size k (close_now market s pos price reason bar_volume q mark state).positions
          ≡ told k (event_of market pos price reason bar_volume q s) (size k state.positions)
    unfolding close_now build_close_event
    tells-all k same all = rw (all, same) (size-erase k s state.positions)

    tells-part :
        (k : String)
        → lookup s state.positions ≡ some pos
        → pos.symbol ≡ s
        → (close_position pos price
            (market.get_cost_model s)
            (some (min q pos.quantity))
            bar_volume).2
          ≡ false
        → (pos.quantity - epsilon ≤ min q pos.quantity) ≡ false
        → size k (close_now market s pos price reason bar_volume q mark state).positions
          ≡ told k (event_of market pos price reason bar_volume q s) (size k state.positions)
    unfolding close_now build_close_event
    tells-part k found same rest part =
        let taken = min-part tolerance q pos.quantity part in
        elim (Bool-cases (pos.quantity - q ≤ epsilon)) [
          | inl within ↦
              let positive = tolerance.apart pos.quantity q (rw taken at part) within in
              rw rest (
                size-spared k s mark pos q state.positions found within
                ∙ rw (same, taken, spared-max (pos.quantity - q) positive within)
                    (same_either (s == k) (size k state.positions)))
          | inr beyond ↦ rw rest (
              size-left k s mark pos q state.positions beyond
              ∙ rw (same, taken, beyond-max tolerance (pos.quantity - q) beyond))
        ]

    positions-all :
        (close_position pos price
            (market.get_cost_model s)
            (some (min q pos.quantity))
            bar_volume).2
          ≡ true
        → IsBook state.positions
        → IsBook (close_now market s pos price reason bar_volume q mark state).positions
    unfolding close_now build_close_event
    positions-all all book = rw all (IsBook-erase s state.positions book)

    positions-part :
        pos.symbol ≡ s
        → (close_position pos price
            (market.get_cost_model s)
            (some (min q pos.quantity))
            bar_volume).2
          ≡ false
        → (pos.quantity ≤ zero) ≡ false
        → IsBook state.positions
        → IsBook (close_now market s pos price reason bar_volume q mark state).positions
    unfolding close_now build_close_event
    positions-part same rest positive book = rw rest (
        IsBook-insert s (reduce_position (marked mark pos) q) state.positions
          (symbol-reduce mark pos q ∙ same) (rest-positive tolerance mark pos q positive) book)

    -- A close that both loops make keeps the book, and its event tells it.
    pub close_now-Explains :
        (before : Dict String (PositionState R))
        → lookup s state.positions ≡ some pos
        → (q ≤ epsilon) ≡ false
        → Explains before state
        → Explains before (close_now market s pos price reason bar_volume q mark state)
    unfolding close_now build_close_event
    close_now-Explains before found beyond (book, held, cash) =
        let (same, positive) = book-found s pos state.positions book found in
        let full = full-all beyond positive in
        let e = event_of market pos price reason bar_volume q s in
        let tells =
          λ (k : String)
              (t : size k (close_now market s pos price reason bar_volume q mark state).positions
                ≡ told k e (size k state.positions)).
            t
            ∙ ap (told k e) (held k)
            ∙ sym (replay_held-append k (size k before) state.events e) in
        let cash_after =
          ap (λ c. paid c e.cash_flow) cash ∙ sym (replay_cash-append zero state.events e) in
        elim (Bool-cases (pos.quantity - epsilon ≤ min q pos.quantity)) [
          | inl all ↦ (
            positions-all (full ∙ all) book,
            λ k. tells k (tells-all k same (full ∙ all)),
            cash_after,
          )
          | inr part ↦ (
            positions-part same (full ∙ part) positive book,
            λ k. tells k (tells-part k found same (full ∙ part) part),
            cash_after,
          )
        ]
