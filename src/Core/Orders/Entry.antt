-- ===== src/Core/Orders/Entry.antt =====
-- `_try_fill`, `_fok_falls_short`, `_ioc_remainder_event` and `_validate_entry_order_notional` of
-- librae/core/executor.py. A fill that is refused is an error of its skip reason.
use librae.Base.{
  ℕ, String, Bool, true, false, not, ◌&&◌, ◌||◌, Option, none, some, List, [], ◌∷◌, if◌then◌else◌,
  Result, ok, err, ◌>>=◌,
}
use librae.Core.Intents.{OrderIntent, TimeInForce, ioc, fok}
use librae.Core.Events.{RuntimeEvent, Value, skipped_with, field, end}
use librae.Core.Number.{Number, ◌+◌, ◌-◌, ◌*◌, ◌<◌, ◌≤◌, max, neg, zero, epsilon}
use librae.Core.Costs.{CostModel, estimate_entry_outlay}
use librae.Core.Positions.{Fill}
use librae.Core.Liquidity.{
  impact_volume_unavailable, simulate_fill, shrink_fill, cap_fill_to_notional, cap_fill_to_volume,
}

abbrev pub is_fok : Option TimeInForce → Bool
is_fok (some fok) = true
is_fok _ = false

abbrev pub is_ioc : Option TimeInForce → Bool
is_ioc (some ioc) = true
is_ioc _ = false

abbrev pub or_reason : {A : Type 0} → String → Option A → Result String A
or_reason reason none = err reason
or_reason reason (some a) = ok a

module _ {R : Type 0} ⦃num : Number R⦄ where
  -- `_fok_falls_short`
  unfoldable pub fok_falls_short : Option TimeInForce → Option R → R → Bool
  fok_falls_short time_in_force none fillable = false
  fok_falls_short time_in_force (some requested) fillable =
      is_fok time_in_force && (fillable < requested - epsilon)

  -- `_ioc_remainder_event`, as the list of the event or of none.
  unfoldable pub ioc_remainder_event :
      (R → Value) → ℕ → String → Option TimeInForce → Option R → R → List RuntimeEvent
  ioc_remainder_event as_value ts symbol time_in_force none filled = []
  ioc_remainder_event as_value ts symbol time_in_force (some requested) filled =
      if not (is_ioc time_in_force) || requested - filled ≤ epsilon
      then []
      else skipped_with ts "ioc_remainder_cancelled" symbol (
          field "requested_quantity" (as_value requested) (
            field "filled_quantity" (as_value filled)
              (field "cancelled_quantity" (as_value (requested - filled)) end)))
        ∷ []

  -- `_validate_entry_order_notional`
  unfoldable pub order_is_too_large : Fill R → CostModel R → Option R → Bool
  order_is_too_large fill m none = false
  order_is_too_large fill m (some max_order_notional) =
      max_order_notional + epsilon < fill.price * fill.quantity * m.multiplier

  abbrev pub refused_size : Option R → String
  refused_size none = "insufficient_cash"
  refused_size (some _) = "quantity_not_executable"

  abbrev pub positive_fill : Option R → Option (Fill R) → Result String (Fill R)
  positive_fill requested none = err (refused_size requested)
  positive_fill requested (some fill) =
      if fill.quantity ≤ zero then err (refused_size requested) else ok fill

  -- The second rounding, after a cap.
  abbrev pub renormalized :
      Option (R → R) → CostModel R → Option R → String → Fill R → Result String (Fill R)
  renormalized none m bar_volume reason fill = ok fill
  renormalized (some normalize) m bar_volume reason fill =
      or_reason reason (shrink_fill fill m (normalize fill.quantity) bar_volume)

  abbrev pub notional_capped :
      Option R → R → Option (R → R) → CostModel R → Option R → Fill R → Result String (Fill R)
  notional_capped none existing normalize m bar_volume fill = ok fill
  notional_capped (some limit) existing normalize m bar_volume fill =
      or_reason "notional_capped" (cap_fill_to_notional fill existing m limit bar_volume)
      >>= renormalized normalize m bar_volume "notional_capped"

  abbrev pub volume_capped :
      Option R → Option (R → R) → CostModel R → Option R → Fill R → Result String (Fill R)
  volume_capped none normalize m bar_volume fill = ok fill
  volume_capped (some limit) normalize m bar_volume fill =
      or_reason "volume_capped" (cap_fill_to_volume fill m limit bar_volume)
      >>= renormalized normalize m bar_volume "volume_capped"

  abbrev pub is_below_minimum : Option R → R → CostModel R → R → Bool
  is_below_minimum none price m quantity = false
  is_below_minimum (some least) price m quantity =
      price * quantity * m.multiplier < least - max epsilon (least * epsilon)

  -- The tests after the caps.
  unfoldable pub afforded :
      OrderIntent R
      → R
      → R
      → CostModel R
      → Option R
      → Option R
      → Fill R
      → Result String (Fill R × R)
  unfolding fok_falls_short
  afforded intent price cash m bar_volume min_notional fill =
      let outlay = estimate_entry_outlay m price fill.quantity fill.side bar_volume in
      if is_below_minimum min_notional price m fill.quantity
      then err "notional_below_minimum"
      else if fok_falls_short intent.time_in_force intent.quantity fill.quantity
      then err "fok_not_fully_fillable"
      else if cash - outlay < neg epsilon
      then err "insufficient_cash"
      else ok (fill, outlay)

  unfoldable pub try_fill :
      OrderIntent R
      → R
      → R
      → CostModel R
      → Option R
      → R
      → Option R
      → Option R
      → Option (R → R)
      → Option R
      → Result String (Fill R × R)
  unfolding afforded
  try_fill intent price cash m max_notional existing max_volume bar_volume normalize min_notional =
      if impact_volume_unavailable m bar_volume
      then err "volume_unavailable"
      else (positive_fill intent.quantity (simulate_fill intent price cash m bar_volume normalize)
          >>= notional_capped max_notional existing normalize m bar_volume
          >>= volume_capped max_volume normalize m bar_volume
          >>= afforded intent price cash m bar_volume min_notional)
