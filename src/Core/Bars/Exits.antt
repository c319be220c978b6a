-- ===== src/Core/Bars/Exits.antt =====
-- What `resolve_stop_exit` may fill at.
use mathlib.Core.Path.{subst}
use librae.Base.{
  String, ◌≡◌, refl, ap, ◌∙◌, ◌⊎◌, inl, inr, true, false, Option, none, some, Bool-cases,
}
use librae.Core.Intents.{PositionSide}
use librae.Core.Number.{Number, ◌<◌, ◌≤◌}
use librae.Core.Costs.{CostModel}
use librae.Core.Positions.{PositionState}
use librae.Core.Bars.{
  Bar, crossed_market_exit, meets, worse, target_exit, market_exit, exit_from, resolve_stop_exit,
}

-- Facts of IEEE 754 comparisons; a value that is compared truly is no NaN, and equal to itself.
pub record IsOrder {R : Type 0} (num : Number R) : Type 0 where
  pub irrefl : (a : R) → num.lt a a ≡ false
  pub asym : (a b : R) → num.lt a b ≡ true → num.lt b a ≡ false
  pub self : (a b : R) → num.le a b ≡ true → (num.le a a ≡ true) × (num.le b b ≡ true)

module _ {R : Type 0} ⦃num : Number R⦄ where
  -- A close of the position at `price` gains no more than one at `other`.
  abbrev pub NoBetter : PositionSide → R → R → Type 0
  NoBetter PositionSide.long price other = (other < price) ≡ false
  NoBetter PositionSide.short price other = (price < other) ≡ false

  -- An exit at a stop-market level that the range crosses, or at a target that is met.
  abbrev pub AtLevel : PositionState R → CostModel R → R → R → R → R × String → Type 0
  AtLevel pos m high low open_ (price, reason) =
      (level : R) × (crossed_market_exit pos high low m ≡ some (level, reason))
      × NoBetter pos.side price level
      × NoBetter pos.side price open_

  abbrev pub AtTarget : PositionState R → R × String → Type 0
  AtTarget pos (price, reason) =
      (reason ≡ "take_profit") × (meets pos.side price pos.take_profit_price ≡ true)

  worse-NoBetter :
      (order : IsOrder num) (side : PositionSide) (level open_ : R)
      → NoBetter side (worse side level open_) level × NoBetter side (worse side level open_) open_
  worse-NoBetter order PositionSide.long level open_ = elim (Bool-cases (open_ < level)) [
    | inl gap ↦ rw gap (order.asym open_ level gap, order.irrefl open_)
    | inr h ↦ rw h (order.irrefl level, h)
  ]
  worse-NoBetter order PositionSide.short level open_ = elim (Bool-cases (level < open_)) [
    | inl gap ↦ rw gap (order.asym level open_ gap, order.irrefl open_)
    | inr h ↦ rw h (order.irrefl level, h)
  ]

  target_exit-meets :
      (order : IsOrder num) (side : PositionSide) (high low : R) (target : Option R) (price : R)
      (reason : String)
      → target_exit side high low target ≡ some (price, reason)
      → (reason ≡ "take_profit") × (meets side price target ≡ true)
  target_exit-meets order side high low none price reason h = absurd cc
  target_exit-meets order PositionSide.long high low (some tp) price reason h =
      elim (Bool-cases (tp ≤ high)) [
        | inl hit ↦
            let at : Path (Option (R × String)) (some (tp, "take_profit")) (some (price, reason)) =
              rw hit at h in
            let tp≡price : tp ≡ price = cc in (cc, rw (← tp≡price) ((order.self tp high hit).0))
        | inr h' ↦ absurd cc
      ]
  target_exit-meets order PositionSide.short high low (some tp) price reason h =
      elim (Bool-cases (low ≤ tp)) [
        | inl hit ↦
            let at : Path (Option (R × String)) (some (tp, "take_profit")) (some (price, reason)) =
              rw hit at h in
            let tp≡price : tp ≡ price = cc in (cc, rw (← tp≡price) ((order.self low tp hit).1))
        | inr h' ↦ absurd cc
      ]

  market_exit-cases :
      (order : IsOrder num) (pos : PositionState R) (m : CostModel R) (high low open_ : R)
      (crossed : Option (R × String)) (found : R × String)
      → crossed_market_exit pos high low m ≡ crossed
      → market_exit pos.side open_ crossed (target_exit pos.side high low pos.take_profit_price)
        ≡ some found
      → AtTarget pos found ⊎ AtLevel pos m high low open_ found
  market_exit-cases order pos m high low open_ none (price, reason) crossing h =
      inl (target_exit-meets order pos.side high low pos.take_profit_price price reason h)
  market_exit-cases order pos m high low open_ (some (level, why)) (price, reason) crossing h =
      let price-eq : worse pos.side level open_ ≡ price = cc in
      let reason-eq : why ≡ reason = cc in
      let (at_level, at_open) = worse-NoBetter order pos.side level open_ in
      inr (
        level,
        crossing ∙ ap (λ r. some (level, r)) reason-eq,
        subst (λ p. NoBetter pos.side p level) price-eq at_level,
        subst (λ p. NoBetter pos.side p open_) price-eq at_open,
      )

  exit_from-cases :
      (order : IsOrder num) (pos : PositionState R) (m : CostModel R) (high low open_ : R)
      (found : R × String)
      → exit_from pos high low open_ m none ≡ some found
      → AtTarget pos found ⊎ AtLevel pos m high low open_ found
  unfolding exit_from
  exit_from-cases order pos m high low open_ (price, reason) h =
      elim (Bool-cases (meets pos.side open_ pos.take_profit_price)) [
        | inl met ↦
            let at : Path (Option (R × String)) (some (open_, "take_profit"))
                (some (price, reason)) =
              rw met at h in
            let open≡price : open_ ≡ price = cc in
            inl (cc, subst (λ p. meets pos.side p pos.take_profit_price ≡ true) open≡price met)
        | inr unmet ↦
            market_exit-cases order pos m high low open_ (crossed_market_exit pos high low m)
              (price, reason) refl (rw unmet at h)
      ]

  -- A bar with a range that ends a position without a pending market exit: the exit is a take-profit
  -- at a price that meets the target, or it is at the first stop-market level that the range
  -- crosses, for that level's reason, and gains no more than a fill at the level or at the open.
  pub resolve_stop_exit-cases :
      (order : IsOrder num) (pos : PositionState R) (bar : Bar R) (m : CostModel R)
      (high low open_ : R) (found : R × String)
      → pos.pending_market_exit_reason ≡ none
      → bar.high ≡ some high
      → bar.low ≡ some low
      → bar.open_ ≡ some open_
      → resolve_stop_exit pos bar m ≡ some found
      → AtTarget pos found ⊎ AtLevel pos m high low open_ found
  unfolding resolve_stop_exit
  resolve_stop_exit-cases order pos bar m high low open_ found idle at_high at_low at_open h =
      exit_from-cases order pos m high low open_ found (rw (at_high, at_low, at_open, idle) at h)
