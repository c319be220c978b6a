-- ===== src/Core/Stops/Residuals.antt =====
-- What `liquidate_all` leaves, and what it reports of it.
use mathlib.Core.Path.{subst}
use librae.Base.{
  >>=-ok, String, ◌≡◌, refl, inl, inr, Bool, true, false, Option, none, some, List, [], ◌∷◌,
  Bool-cases, nat_eq, string_eq, Dict, lookup, ok, ok_inj, map,
}
use librae.Core.Number.{Number, ◌≤◌, zero, epsilon}
use librae.Core.Positions.{PositionState}
use librae.Core.Fills.Book.{replay_held, replay_cash}
use librae.Core.Liquidity.{impact_volume_unavailable}
use librae.Core.Bars.{Bar, order_side_is_tradable, close_side_of, reached}
use librae.Core.Stops.Forced.{
  Residual, liquidate_open, liquidate_bar, liquidate_found, liquidate_walk, liquidate_all,
  residuals,
}
use librae.Core.Stops.{Market, Exits, close_amount, keys, started}
use librae.Core.Stops.Steps.{IsTolerance, size, IsBook, Explains}
use librae.Core.Stops.Replay.{close_now-Explains}

module _ {R : Type 0} ⦃num : Number R⦄ where
  module _ (tolerance : IsTolerance num) (market : Market R)
      (before : Dict String (PositionState R)) where
    liquidate_open-Explains :
        (s : String) (pos : PositionState R) (price : R) (reason : String) (bar_volume : Option R)
        (state : Exits R) (tradable : Bool)
        → lookup s state.positions ≡ some pos
        → Explains before state
        → Explains before (liquidate_open market s pos price reason bar_volume state tradable)
    unfolding liquidate_open
    liquidate_open-Explains s pos price reason bar_volume state false found ex = ex
    liquidate_open-Explains s pos price reason bar_volume state true found ex =
        elim (Bool-cases (impact_volume_unavailable (market.get_cost_model s) bar_volume)) [
          | inl missing ↦ rw missing ex
          | inr usable ↦ elim (Bool-cases (close_amount market state s pos bar_volume ≤ epsilon)) [
            | inl nothing ↦ rw (usable, nothing) ex
            | inr some_ ↦
                rw (usable, some_)
                  (close_now-Explains tolerance market s pos price reason bar_volume
                    (close_amount market state s pos bar_volume) none state before found some_ ex)
          ]
        ]

    liquidate_bar-Explains :
        (reason s : String) (pos : PositionState R) (state after : Exits R) (bar : Bar R)
        (price : Option R)
        → lookup s state.positions ≡ some pos
        → Explains before state
        → liquidate_bar market reason s pos state bar price ≡ ok after
        → Explains before after
    liquidate_bar-Explains reason s pos state after bar none found ex h =
        subst (Explains before) (ok_inj h) ex
    liquidate_bar-Explains reason s pos state after bar (some price) found ex h =
        let (tradable, _, done) =
          >>=-ok (order_side_is_tradable bar (close_side_of pos.side)) _ h in
        subst (Explains before) (ok_inj done)
          (liquidate_open-Explains s pos price reason bar.volume state tradable found ex)

    liquidate_found-Explains :
        (reason s : String) (state after : Exits R) (bar : Option (Bar R))
        (pos : Option (PositionState R))
        → lookup s state.positions ≡ pos
        → Explains before state
        → liquidate_found market reason s state bar pos ≡ ok after
        → Explains before after
    liquidate_found-Explains reason s state after bar none found ex h =
        subst (Explains before) (ok_inj h) ex
    liquidate_found-Explains reason s state after none (some pos) found ex h =
        subst (Explains before) (ok_inj h) ex
    liquidate_found-Explains reason s state after (some bar) (some pos) found ex h =
        liquidate_bar-Explains reason s pos state after bar bar.close_ found ex h

    liquidate_walk-Explains :
        (reason : String) (symbols : List String) (state after : Exits R)
        → Explains before state
        → liquidate_walk market reason symbols state ≡ ok after
        → Explains before after
    unfolding liquidate_walk
    liquidate_walk-Explains reason [] state after ex h = subst (Explains before) (ok_inj h) ex
    liquidate_walk-Explains reason (s ∷ rest) state after ex h =
        let (next, step, later) =
          >>=-ok
            (liquidate_found market reason s state (lookup s market.bars)
              (lookup s state.positions))
            _ h in
        liquidate_walk-Explains reason rest next after
          (liquidate_found-Explains reason s state next (lookup s market.bars)
            (lookup s state.positions) refl ex step)
          later

  abbrev pub left_of : Residual R → String × R
  left_of r = (r.symbol, r.remaining_quantity)

  abbrev pub open_of : String × PositionState R → String × R
  open_of entry = (entry.0, entry.1.quantity)

  left-residuals :
      (causes : Dict String String) (ps : Dict String (PositionState R))
      → map left_of (residuals causes ps) ≡ map open_of ps
  unfolding residuals
  left-residuals causes [] = refl
  left-residuals causes ((k, p) ∷ ps) = rw (left-residuals causes ps)

  -- A run of `liquidate_all` over a book whose positions stand under their symbols with positive
  -- quantities, where the arithmetic has the facts of `IsTolerance`: the book left is such a book
  -- again; the events, replayed over the book before, where a reduction to a positive quantity
  -- within the tolerance changes nothing, give every open quantity, counted not below zero; and
  -- their cash flows, added up in order from zero, give the cash; and it reports what every position
  -- that stays open has left, in the order of the book.
  pub liquidate_all-Explains :
      (tolerance : IsTolerance num) (market : Market R) (reason : String)
      (positions : Dict String (PositionState R)) (used_bar used_adv : Option (Dict String R))
      (state : Exits R) (left : List (Residual R))
      → IsBook positions
      → liquidate_all market reason positions used_bar used_adv ≡ ok (state, left)
      → IsBook state.positions
        × ((k : String) → size k state.positions ≡ replay_held k (size k positions) state.events)
        × (state.cash_delta ≡ replay_cash zero state.events)
        × (map left_of left ≡ map open_of state.positions)
  unfolding liquidate_all
  liquidate_all-Explains tolerance market reason positions used_bar used_adv state left book h =
      let (reached, walked, done) =
        >>=-ok (liquidate_walk market reason (keys positions) (started positions used_bar used_adv))
          _ h in
      let (book_after, held, cash) =
        liquidate_walk-Explains tolerance market positions reason (keys positions)
          (started positions used_bar used_adv) reached (book, λ k. refl, refl) walked in
      let pair = ok_inj done in
      subst
        (λ (r : Exits R × List (Residual R)).
          IsBook r.0.positions
          × ((k : String) → size k r.0.positions ≡ replay_held k (size k positions) r.0.events)
          × (r.0.cash_delta ≡ replay_cash zero r.0.events)
          × (map left_of r.1 ≡ map open_of r.0.positions))
        pair (book_after, held, cash, left-residuals reached.causes reached.positions)
