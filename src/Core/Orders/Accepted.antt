-- ===== src/Core/Orders/Accepted.antt =====
-- What an entry that is filled has passed.
use librae.Base.{
  refl, String, ◌≡◌, ap, inl, inr, false, Option, none, some, Bool-cases, ok, ok_inj, >>=-ok,
  some_inj, err-ok,
}
use mathlib.Core.Path.{subst}
use librae.Core.Intents.{OrderIntent, PositionSide}
use librae.Core.Number.{Number, ◌-◌, ◌<◌, ◌≤◌, min, neg, zero, epsilon}
use librae.Core.Costs.{CostModel, estimate_entry_outlay}
use librae.Core.Positions.{Fill}
use librae.Core.Liquidity.{
  shrink_fill, cap_fill_to_notional, cap_fill_to_volume, simulate_fill, impact_volume_unavailable,
  fill_side_of, normalized, or_sized, size_position,
}
use librae.Core.Orders.Entry.{
  or_reason, positive_fill, renormalized, notional_capped, volume_capped, is_below_minimum,
  fok_falls_short, afforded, try_fill,
}

module _ {R : Type 0} ⦃num : Number R⦄
    (tiny : (x : R) → (x ≤ epsilon) ≡ false → (x ≤ zero) ≡ false) where
  -- A fill of a side for a quantity that is positive.
  abbrev pub Sound : PositionSide → Fill R → Type 0
  Sound side fill = ((fill.quantity ≤ zero) ≡ false) × (fill.side ≡ side)

  shrink-Sound :
      (side : PositionSide) (fill after : Fill R) (m : CostModel R) (target : R)
      (bar_volume : Option R)
      → Sound side fill
      → shrink_fill fill m target bar_volume ≡ some after
      → Sound side after
  unfolding shrink_fill
  shrink-Sound side fill after m target bar_volume (positive, same) h =
      elim (Bool-cases (target ≤ epsilon)) [
        | inl nothing ↦ absurd cc
        | inr beyond ↦ elim (Bool-cases (fill.quantity - epsilon ≤ target)) [
          | inl whole ↦ subst (Sound side) (some_inj (rw (beyond, whole) at h)) (positive, same)
          | inr part ↦
              subst (Sound side) (some_inj (rw (beyond, part) at h)) (tiny target beyond, same)
        ]
      ]

  or_reason-ok :
      {A : Type 0} (reason : String) (o : Option A) {a : A} → or_reason reason o ≡ ok a → o ≡ some a
  or_reason-ok reason none h = absurd cc
  or_reason-ok reason (some x) h = ap some (ok_inj h)

  renormalized-Sound :
      (side : PositionSide) (normalize : Option (R → R)) (m : CostModel R) (bar_volume : Option R)
      (reason : String) (fill after : Fill R)
      → Sound side fill
      → renormalized normalize m bar_volume reason fill ≡ ok after
      → Sound side after
  renormalized-Sound side none m bar_volume reason fill after sound h =
      subst (Sound side) (ok_inj h) sound
  renormalized-Sound side (some normalize) m bar_volume reason fill after sound h =
      shrink-Sound side fill after m (normalize fill.quantity) bar_volume sound
        (or_reason-ok reason _ h)

  notional-Sound :
      (side : PositionSide) (limit : Option R) (existing : R) (normalize : Option (R → R))
      (m : CostModel R) (bar_volume : Option R) (fill after : Fill R)
      → Sound side fill
      → notional_capped limit existing normalize m bar_volume fill ≡ ok after
      → Sound side after
  unfolding cap_fill_to_notional
  notional-Sound side none existing normalize m bar_volume fill after sound h =
      subst (Sound side) (ok_inj h) sound
  notional-Sound side (some limit) existing normalize m bar_volume fill after sound h =
      let (capped, cap, last) =
        >>=-ok (or_reason "notional_capped" (cap_fill_to_notional fill existing m limit bar_volume))
          _ h in
      let cut =
        or_reason-ok "notional_capped" (cap_fill_to_notional fill existing m limit bar_volume)
          cap in
      elim (Bool-cases (limit - num.mul existing (num.mul fill.price m.multiplier) ≤ epsilon)) [
        | inl full ↦ absurd cc
        | inr room ↦
            renormalized-Sound side normalize m bar_volume "notional_capped" capped after
              (shrink-Sound side fill capped m _ bar_volume sound (rw room at cut)) last
      ]

  volume-Sound :
      (side : PositionSide) (limit : Option R) (normalize : Option (R → R)) (m : CostModel R)
      (bar_volume : Option R) (fill after : Fill R)
      → Sound side fill
      → volume_capped limit normalize m bar_volume fill ≡ ok after
      → Sound side after
  unfolding cap_fill_to_volume
  volume-Sound side none normalize m bar_volume fill after sound h =
      subst (Sound side) (ok_inj h) sound
  volume-Sound side (some limit) normalize m bar_volume fill after sound h =
      let (capped, cap, last) =
        >>=-ok (or_reason "volume_capped" (cap_fill_to_volume fill m limit bar_volume)) _ h in
      renormalized-Sound side normalize m bar_volume "volume_capped" capped after
        (shrink-Sound side fill capped m (min fill.quantity limit) bar_volume sound
          (or_reason-ok "volume_capped" (cap_fill_to_volume fill m limit bar_volume) cap))
        last

  -- The tests after the caps, which keep the fill.
  afforded-ok :
      (intent : OrderIntent R) (price cash : R) (m : CostModel R)
      (bar_volume min_notional : Option R) (capped fill : Fill R) (outlay : R)
      → afforded intent price cash m bar_volume min_notional capped ≡ ok (fill, outlay)
      → (capped ≡ fill)
        × (outlay ≡ estimate_entry_outlay m price fill.quantity fill.side bar_volume)
        × ((cash - outlay < neg epsilon) ≡ false)
        × (fok_falls_short intent.time_in_force intent.quantity fill.quantity ≡ false)
        × (is_below_minimum min_notional price m fill.quantity ≡ false)
  unfolding afforded
  afforded-ok intent price cash m bar_volume min_notional capped fill outlay h =
      let paid = estimate_entry_outlay m price capped.quantity capped.side bar_volume in
      elim (Bool-cases (is_below_minimum min_notional price m capped.quantity)) [
        | inl below ↦ absurd (err-ok (rw below at h))
        | inr least ↦
            elim (Bool-cases
              (fok_falls_short intent.time_in_force intent.quantity capped.quantity)) [
                | inl short ↦ absurd (err-ok (rw (least, short) at h))
                | inr whole ↦ elim (Bool-cases (cash - paid < neg epsilon)) [
                  | inl poor ↦ absurd (err-ok (rw (least, whole, poor) at h))
                  | inr within ↦
                      let pair : (capped, paid) ≡ (fill, outlay) =
                        ok_inj (rw (least, whole, within) at h) in
                      subst
                        (λ (r : Fill R × R).
                          (capped ≡ r.0)
                          × (r.1 ≡ estimate_entry_outlay m price r.0.quantity r.0.side bar_volume)
                          × ((cash - r.1 < neg epsilon) ≡ false)
                          × (fok_falls_short intent.time_in_force intent.quantity r.0.quantity
                              ≡ false)
                          × (is_below_minimum min_notional price m r.0.quantity ≡ false))
                        pair (refl, refl, within, whole, least)
                ]
              ]
      ]

  simulate-Sound :
      (side : PositionSide) (intent : OrderIntent R) (price cash : R) (m : CostModel R)
      (bar_volume : Option R) (normalize : Option (R → R)) (fill : Fill R)
      → fill_side_of intent.action ≡ some side
      → positive_fill intent.quantity (simulate_fill intent price cash m bar_volume normalize)
        ≡ ok fill
      → Sound side fill
  unfolding simulate_fill
  simulate-Sound side intent price cash m bar_volume normalize fill sided h =
      let quantity =
        normalized normalize
          (or_sized intent.quantity (size_position m price cash side bar_volume)) in
      elim (Bool-cases (quantity ≤ zero)) [
        | inl nothing ↦ absurd (err-ok (rw (sided, nothing) at h))
        | inr positive ↦
            let made = ok_inj (rw (sided, positive, positive) at h) in
            (
              subst (λ f. (f.quantity ≤ zero) ≡ false) made positive,
              subst (λ f. f.side ≡ side) made refl,
            )
      ]

  -- A fill that `_try_fill` accepts for an entry on a side, where what is beyond the tolerance is
  -- positive: its quantity is positive and it is on that side; the outlay is the estimate for its
  -- quantity and leaves the cash not below the tolerance under zero; the quantity does not fall short
  -- of a fill-or-kill order and reaches the least notional; and the volume the impact needs is there.
  pub try_fill-Accepted :
      (side : PositionSide) (intent : OrderIntent R) (price cash : R) (m : CostModel R)
      (max_notional : Option R) (existing : R) (max_volume bar_volume : Option R)
      (normalize : Option (R → R)) (min_notional : Option R) (fill : Fill R) (outlay : R)
      → fill_side_of intent.action ≡ some side
      → try_fill intent price cash m max_notional existing max_volume bar_volume normalize
          min_notional
        ≡ ok (fill, outlay)
      → ((fill.quantity ≤ zero) ≡ false)
        × (fill.side ≡ side)
        × (outlay ≡ estimate_entry_outlay m price fill.quantity fill.side bar_volume)
        × ((cash - outlay < neg epsilon) ≡ false)
        × (fok_falls_short intent.time_in_force intent.quantity fill.quantity ≡ false)
        × (is_below_minimum min_notional price m fill.quantity ≡ false)
        × (impact_volume_unavailable m bar_volume ≡ false)
  unfolding try_fill
  try_fill-Accepted side intent price cash m max_notional existing max_volume bar_volume normalize
        min_notional fill outlay sided h =
      elim (Bool-cases (impact_volume_unavailable m bar_volume)) [
        | inl missing ↦ absurd (err-ok (rw missing at h))
        | inr usable ↦
            let (capped, caps, last) =
              >>=-ok _ (afforded intent price cash m bar_volume min_notional) (rw usable at h) in
            let (noted, before, volume) =
              >>=-ok _ (volume_capped max_volume normalize m bar_volume) caps in
            let (first, made, notional) =
              >>=-ok _ (notional_capped max_notional existing normalize m bar_volume) before in
            let sound =
              volume-Sound side max_volume normalize m bar_volume noted capped
                (notional-Sound side max_notional existing normalize m bar_volume first noted
                  (simulate-Sound side intent price cash m bar_volume normalize first sided made)
                  notional)
                volume in
            let (same, paid, within, whole, least) =
              afforded-ok intent price cash m bar_volume min_notional capped fill outlay last in
            (
              subst (λ f. (f.quantity ≤ zero) ≡ false) same sound.0,
              subst (λ f. f.side ≡ side) same sound.1,
              paid,
              within,
              whole,
              least,
              usable,
            )
      ]
