-- ===== src/Core/Stops/Told.antt =====
-- Over the whole of `check_stop_targets` and `liquidate_all`.
use mathlib.Core.Path.{subst}
use librae.Base.{
  >>=-ok, String, ◌≡◌, refl, sym, ap, ◌∙◌, inl, inr, Bool, true, false, Option, none, some, List,
  [], ◌∷◌, Bool-cases, ◌==◌, nat_eq, string_eq, Dict, lookup, insert, ok, ok_inj,
}
use librae.Core.Number.{Number, ◌≤◌, zero, epsilon}
use librae.Core.Events.{Fields, field, text, end}
use librae.Core.Positions.{PositionState}
use librae.Core.Fills.Book.{replay_held, replay_cash}
use librae.Core.Liquidity.{impact_volume_unavailable}
use librae.Core.Bars.{Bar, order_side_is_tradable, close_side_of, resolve_stop_exit}
use librae.Core.Stops.{
  Market, Exits, marked, close_amount, defer, exit_step, stop_hit, stop_found, stop_step, stop_walk,
  is_eligible, keys, started, check_stop_targets,
}
use librae.Core.Stops.Steps.{
  IsTolerance, size, size_of, IsBook, Explains, size-insert, IsBook-insert, book-found,
}
use librae.Core.Stops.Replay.{close_now-Explains}

module _ {R : Type 0} ⦃num : Number R⦄ where
  size-same :
      (k s : String) (pos p : PositionState R) (positions : Dict String (PositionState R))
      → lookup s positions ≡ some pos
      → p.quantity ≡ pos.quantity
      → size k (insert s p positions) ≡ size k positions
  size-same k s pos p positions found same =
      size-insert k s p positions ∙ elim (Bool-cases (s == k)) [
        | inl h ↦
            let s≡k : s ≡ k = (string_eq.beq_iff s k).0 h in
            rw (h, same, ← s≡k) (sym (ap size_of found))
        | inr h ↦ rw h
      ]

  module _ (tolerance : IsTolerance num) (market : Market R)
      (before : Dict String (PositionState R)) where
    defer-Explains :
        (s : String) (pos : PositionState R) (mark : Option String) (context : Fields)
        (state : Exits R)
        → lookup s state.positions ≡ some pos
        → Explains before state
        → Explains before (defer market.ts s pos mark context state)
    unfolding defer
    defer-Explains s pos none context state found ex = ex
    defer-Explains s pos (some reason) context state found (book, held, cash) =
        let (same, positive) = book-found s pos state.positions book found in
        (
          IsBook-insert s (marked (some reason) pos) state.positions same positive book,
          λ k. size-same k s pos (marked (some reason) pos) state.positions found refl ∙ held k,
          cash,
        )

    exit_step-Explains :
        (s : String) (pos : PositionState R) (price : R) (reason : String) (bar_volume : Option R)
        (mark : Option String) (state : Exits R) (tradable : Bool)
        → lookup s state.positions ≡ some pos
        → Explains before state
        → Explains before (exit_step market s pos price reason bar_volume mark state tradable)
    unfolding exit_step
    exit_step-Explains s pos price reason bar_volume mark state false found ex =
        defer-Explains s pos mark (field "exit_reason" (text reason) end) state found ex
    exit_step-Explains s pos price reason bar_volume mark state true found ex =
        elim (Bool-cases (impact_volume_unavailable (market.get_cost_model s) bar_volume)) [
          | inl missing ↦ rw missing (
              defer-Explains s pos mark
                (field "exit_reason" (text reason) (field "unavailable" (text "volume") end)) state
                found ex)
          | inr usable ↦ elim (Bool-cases (close_amount market state s pos bar_volume ≤ epsilon)) [
            | inl nothing ↦
                rw (usable, nothing)
                  (defer-Explains s pos mark (field "exit_reason" (text reason) end) state found ex)
            | inr some_ ↦
                rw (usable, some_)
                  (close_now-Explains tolerance market s pos price reason bar_volume
                    (close_amount market state s pos bar_volume) mark state before found some_ ex)
          ]
        ]

    stop_hit-Explains :
        (s : String) (pos : PositionState R) (bar : Bar R) (state after : Exits R)
        (hit : Option (R × String))
        → lookup s state.positions ≡ some pos
        → Explains before state
        → stop_hit market s pos bar state hit ≡ ok after
        → Explains before after
    stop_hit-Explains s pos bar state after none found ex h = subst (Explains before) (ok_inj h) ex
    stop_hit-Explains s pos bar state after (some (price, reason)) found ex h =
        let (tradable, _, done) =
          >>=-ok (order_side_is_tradable bar (close_side_of pos.side)) _ h in
        subst (Explains before) (ok_inj done)
          (exit_step-Explains s pos price reason _ _ state tradable found ex)

    stop_found-Explains :
        (s : String) (state after : Exits R) (bar : Option (Bar R)) (pos : Option (PositionState R))
        → lookup s state.positions ≡ pos
        → Explains before state
        → stop_found market s state bar pos ≡ ok after
        → Explains before after
    stop_found-Explains s state after (some bar) (some pos) found ex h =
        stop_hit-Explains s pos bar state after
          (resolve_stop_exit pos bar (market.get_cost_model s)) found ex h
    stop_found-Explains s state after none pos found ex h = subst (Explains before) (ok_inj h) ex
    stop_found-Explains s state after (some bar) none found ex h =
        subst (Explains before) (ok_inj h) ex

    stop_step-Explains :
        (s : String) (state next : Exits R)
        → Explains before state
        → stop_step market s state ≡ ok next
        → Explains before next
    unfolding stop_step
    stop_step-Explains s state next ex step =
        elim (Bool-cases (is_eligible market.eligible_symbols s)) [
          | inl yes_ ↦
              stop_found-Explains s state next (lookup s market.bars) (lookup s state.positions)
                refl ex (rw yes_ at step)
          | inr no_ ↦ subst (Explains before) (ok_inj (rw no_ at step)) ex
        ]

    stop_walk-Explains :
        (symbols : List String) (state after : Exits R)
        → Explains before state
        → stop_walk market symbols state ≡ ok after
        → Explains before after
    unfolding stop_walk
    stop_walk-Explains [] state after ex h = subst (Explains before) (ok_inj h) ex
    stop_walk-Explains (s ∷ rest) state after ex h =
        let (next, step, later) = >>=-ok (stop_step market s state) _ h in
        stop_walk-Explains rest next after (stop_step-Explains s state next ex step) later

  -- A run of `check_stop_targets` over a book whose positions stand under their symbols with
  -- positive quantities, where the arithmetic has the facts of `IsTolerance`: the book left is such
  -- a book again; the events, replayed over the book before, where a reduction to a positive
  -- quantity within the tolerance changes nothing, give every open quantity, counted not below zero;
  -- and their cash flows, added up in order from zero, give the cash.
  pub check_stop_targets-Explains :
      (tolerance : IsTolerance num) (market : Market R) (positions : Dict String (PositionState R))
      (used_bar used_adv : Option (Dict String R)) (state : Exits R)
      → IsBook positions
      → check_stop_targets market positions used_bar used_adv ≡ ok state
      → IsBook state.positions
        × ((k : String) → size k state.positions ≡ replay_held k (size k positions) state.events)
        × (state.cash_delta ≡ replay_cash zero state.events)
  unfolding check_stop_targets
  check_stop_targets-Explains tolerance market positions used_bar used_adv state book h =
      stop_walk-Explains tolerance market positions (keys positions)
        (started positions used_bar used_adv) state (book, λ k. refl, refl) h
