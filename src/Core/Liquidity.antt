-- ===== src/Core/Liquidity.antt =====
-- librae/core/executor.py: how much of an order one bar can take, and the size that cash allows.
pub mod Sizing
mod Tests
use librae.Base.{
  suc, ℕ, String, Bool, true, false, not, ◌&&◌, ◌||◌, Option, none, some, if◌then◌else◌, set,
}
use librae.Core.Intents.{PositionSide, OrderIntent, OrderAction}
use librae.Core.Number.{
  Number, ◌+◌, ◌-◌, ◌*◌, ◌/◌, ◌<◌, ◌≤◌, min, max, zero, one, epsilon, infinity, is_finite,
}
use librae.Core.Costs.{
  CostModel, calc_commission, calc_slippage, calc_tax, margin_rate, estimate_entry_outlay,
}
use librae.Core.Positions.{Fill}

abbrev pub fill_side_of : OrderAction → Option PositionSide
fill_side_of OrderAction.long = some PositionSide.long
fill_side_of OrderAction.short = some PositionSide.short
fill_side_of OrderAction.close = none

module _ {R : Type 0} ⦃num : Number R⦄ where
  unfoldable pub shrink_fill : Fill R → CostModel R → R → Option R → Option (Fill R)
  shrink_fill fill m target_qty bar_volume =
      if target_qty ≤ epsilon
      then none
      else if fill.quantity - epsilon ≤ target_qty
      then some fill
      else some (record fill {
        quantity = target_qty;
        commission = calc_commission m fill.price target_qty;
        slippage = calc_slippage m target_qty bar_volume;
        tax = calc_tax m fill.price target_qty;
      })

  unfoldable pub cap_fill_to_notional : Fill R → R → CostModel R → R → Option R → Option (Fill R)
  unfolding shrink_fill
  cap_fill_to_notional fill existing_qty m max_notional bar_volume =
      let unit_notional = fill.price * m.multiplier in
      let room = max_notional - existing_qty * unit_notional in
      if room ≤ epsilon
      then none
      else shrink_fill fill m (min fill.quantity (room / unit_notional)) bar_volume

  unfoldable pub cap_fill_to_volume : Fill R → CostModel R → R → Option R → Option (Fill R)
  unfolding shrink_fill
  cap_fill_to_volume fill m max_qty bar_volume =
      shrink_fill fill m (min fill.quantity max_qty) bar_volume

  -- A number that is given, finite and not negative.
  abbrev pub usable : Option R → Option R
  usable none = none
  usable (some v) = if not (is_finite v) || v < zero then none else some v

  -- One budget: none where no rate is set, and 0 where its volume cannot be used.
  abbrev pub budget_from : R → R → Option R → R × Bool
  budget_from rate used none = (zero, false)
  budget_from rate used (some v) = (max (rate * v - used) zero, true)

  abbrev pub budget : Option R → Option R → R → Option (R × Bool)
  budget none volume used = none
  budget (some rate) volume used = some (budget_from rate used (usable volume))

  abbrev pub tightest : Option (R × Bool) → Option (R × Bool) → Option R
  tightest none none = none
  tightest (some (q, true)) none = some q
  tightest none (some (q, true)) = some q
  tightest (some (q, true)) (some (p, true)) = some (min q p)
  tightest _ _ = some zero

  unfoldable pub volume_fill_limit : Option R → Option R → Option R → Option R → R → R → Option R
  volume_fill_limit bar_rate bar_volume adv_rate lagged_adv used_bar used_adv =
      tightest (budget bar_rate bar_volume used_bar) (budget adv_rate lagged_adv used_adv)

  abbrev pub no_volume : Option R → Bool
  no_volume none = true
  no_volume (some v) = not (is_finite v) || v ≤ zero

  unfoldable pub impact_volume_unavailable : CostModel R → Option R → Bool
  impact_volume_unavailable m bar_volume = (zero < m.volume_impact_ticks) && no_volume bar_volume

  -- The loop of `_size_position`; `n` is what is left of `range(60)`.
  unfoldable pub bisect : (R → R) → R → ℕ → R → R → R
  bisect outlay cash (suc n) low high =
      let middle = (low + high) / (one + one) in
      let up = bisect outlay cash n middle high in
      let down = bisect outlay cash n low middle in if outlay middle ≤ cash then up else down
  bisect outlay cash _ low high = low

  unfoldable pub linear_size : CostModel R → R → R → PositionSide → R
  linear_size m price cash side =
      let notional_per_unit = price * m.multiplier in
      let linear =
        notional_per_unit * (margin_rate m side + m.tax_rate)
        + m.slippage_ticks * m.tick_size * m.multiplier in
      let marginal_commission = notional_per_unit * m.commission_rate + m.commission_per_contract in
      let breakeven_qty =
        if epsilon < marginal_commission
        then m.min_commission / marginal_commission
        else infinity in
      if linear < epsilon
      then zero
      else max
          (if cash ≤ linear * breakeven_qty + m.min_commission
            then (cash - m.min_commission) / linear
            else cash / (linear + marginal_commission))
          zero

  abbrev pub has_bar_volume : Option R → Bool
  has_bar_volume none = false
  has_bar_volume (some v) = zero < v

  -- The size is searched where it may pay for more impact than the cash covers.
  unfoldable pub fit : (R → R) → R → Bool → R → R
  fit outlay cash impacted qty =
      if impacted && (cash < outlay qty) then bisect outlay cash 60 zero qty else qty

  unfoldable pub impacts : CostModel R → Option R → R → Bool
  impacts m bar_volume qty =
      (epsilon < qty) && has_bar_volume bar_volume && (zero < m.volume_impact_ticks)

  unfoldable pub size_position : CostModel R → R → R → PositionSide → Option R → R
  unfolding linear_size fit impacts
  size_position m price cash side bar_volume =
      let qty = linear_size m price cash side in
      fit (λ q. estimate_entry_outlay m price q side bar_volume) cash (impacts m bar_volume qty) qty

  abbrev pub normalized : Option (R → R) → R → R
  normalized none qty = qty
  normalized (some normalize) qty = if zero < qty then normalize qty else qty

  abbrev pub or_sized : Option R → R → R
  or_sized (some quantity) sized = quantity
  or_sized none sized = sized

  abbrev pub fill_if_positive :
      String → PositionSide → R → CostModel R → Option R → R → Option (Fill R)
  fill_if_positive symbol side price m bar_volume qty =
      if qty ≤ zero
      then none
      else some (record {
        symbol = symbol;
        side = side;
        price = price;
        quantity = qty;
        commission = calc_commission m price qty;
        slippage = calc_slippage m qty bar_volume;
        tax = calc_tax m price qty;
      })

  abbrev pub fill_for :
      OrderIntent R
      → R
      → R
      → CostModel R
      → Option R
      → Option (R → R)
      → Option PositionSide
      → Option (Fill R)
  fill_for intent price cash m bar_volume normalize none = none
  fill_for intent price cash m bar_volume normalize (some side) =
      fill_if_positive intent.symbol side price m bar_volume (
        normalized normalize
          (or_sized intent.quantity (size_position m price cash side bar_volume)))

  unfoldable pub simulate_fill :
      OrderIntent R → R → R → CostModel R → Option R → Option (R → R) → Option (Fill R)
  unfolding size_position
  simulate_fill intent price cash m bar_volume normalize =
      fill_for intent price cash m bar_volume normalize (fill_side_of intent.action)
