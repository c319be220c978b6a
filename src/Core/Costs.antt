-- ===== src/Core/Costs.antt =====
-- librae/core/cost_model.py: the costs, the margin and the liquidation price of one instrument.
use librae.Base.{
  String, Bool, false, not, ◌&&◌, Option, none, some, List, [], ◌∷◌, if◌then◌else◌, Result, ok,
  ◌>>◌, raise_if,
}
use librae.Core.Intents.{PositionSide, long, short}
use librae.Core.Number.{Number, ◌+◌, ◌-◌, ◌*◌, ◌/◌, ◌<◌, ◌≤◌, abs, max, zero, one, all_finite}

-- `MarginMode` of librae/config/market_config.py
pub data MarginMode : Type 0 where
  unlevered fixed dynamic : MarginMode

pub record CostModel (R : Type 0) : Type 0 where
  pub multiplier : R
  pub commission_rate : R
  pub min_commission : R
  pub slippage_ticks : R
  pub tick_size : R
  pub tax_rate : R
  pub long_margin_rate : R
  pub short_margin_rate : R
  pub volume_impact_ticks : R
  pub maintenance_margin_rate : R
  pub long_margin_mode : MarginMode
  pub short_margin_mode : MarginMode
  pub commission_per_contract : R

-- The `ValueError`s of `__post_init__`, which name the field.
pub data CostError : Type 0 where
  not_finite : CostError
  not_positive negative unlevered_rate : String → CostError

-- A mode of another text is no `MarginMode` here. `x != 1.0` is neither less nor greater.
module _ {R : Type 0} ⦃num : Number R⦄ where
  abbrev pub differs : R → R → Bool
  differs a b = not (a ≤ b && b ≤ a)

  unfoldable pub check_mode : MarginMode → R → String → Result CostError (Unit {0})
  check_mode unlevered rate mode_name = raise_if (differs rate one) (unlevered_rate mode_name)
  check_mode _ rate mode_name = ok tt

  -- `getattr(self, name) < 0`, for each name.
  unfoldable pub check_each : List (String × R) → Result CostError (Unit {0})
  check_each [] = ok tt
  check_each ((name, value) ∷ rest) = raise_if (value < zero) (negative name) >> check_each rest

  unfoldable pub check_margin : List (String × R) → Result CostError (Unit {0})
  check_margin [] = ok tt
  check_margin ((name, value) ∷ rest) =
      raise_if (value ≤ zero) (not_positive name) >> check_margin rest

  abbrev pub non_negative_fields : CostModel R → List (String × R)
  non_negative_fields m =
      ("commission_rate", m.commission_rate)
      ∷ ("min_commission", m.min_commission)
      ∷ ("commission_per_contract", m.commission_per_contract)
      ∷ ("slippage_ticks", m.slippage_ticks)
      ∷ ("tax_rate", m.tax_rate)
      ∷ ("volume_impact_ticks", m.volume_impact_ticks)
      ∷ ("maintenance_margin_rate", m.maintenance_margin_rate)
      ∷ []

  abbrev pub margin_fields_of : CostModel R → List (String × R)
  margin_fields_of m =
      ("long_margin_rate", m.long_margin_rate) ∷ ("short_margin_rate", m.short_margin_rate) ∷ []

  abbrev pub numbers_of : CostModel R → List R
  numbers_of m =
      m.multiplier ∷ m.commission_rate ∷ m.min_commission ∷ m.slippage_ticks ∷ m.tick_size
      ∷ m.tax_rate ∷ m.long_margin_rate ∷ m.short_margin_rate ∷ m.volume_impact_ticks
      ∷ m.maintenance_margin_rate ∷ m.commission_per_contract ∷ []

  -- `__post_init__`
  unfoldable pub validate : CostModel R → Result CostError (Unit {0})
  unfolding check_each check_margin check_mode
  validate m =
      raise_if (not (all_finite (numbers_of m))) not_finite
      >> raise_if (m.multiplier ≤ zero) (not_positive "multiplier")
      >> raise_if (m.tick_size ≤ zero) (not_positive "tick_size")
      >> check_each (non_negative_fields m)
      >> check_margin (margin_fields_of m)
      >> check_mode m.long_margin_mode m.long_margin_rate "long_margin_mode"
      >> check_mode m.short_margin_mode m.short_margin_rate "short_margin_mode"

  unfoldable pub calc_pnl : CostModel R → R → R → R → R
  calc_pnl m entry_price exit_price quantity = (exit_price - entry_price) * quantity * m.multiplier

  unfoldable pub calc_commission : CostModel R → R → R → R
  calc_commission m price quantity =
      let notional = price * quantity * m.multiplier in
      max (abs quantity * m.commission_per_contract + abs notional * m.commission_rate)
        m.min_commission

  -- `bar_volume and bar_volume > 0`
  abbrev pub has_volume : Option R → Bool
  has_volume none = false
  has_volume (some v) = differs v zero && (zero < v)

  abbrev pub impact_ticks : CostModel R → R → Option R → R
  impact_ticks m quantity none = m.slippage_ticks
  impact_ticks m quantity (some v) =
      if has_volume (some v) && (zero < m.volume_impact_ticks)
      then m.slippage_ticks + m.volume_impact_ticks * (abs quantity / v)
      else m.slippage_ticks

  unfoldable pub calc_slippage : CostModel R → R → Option R → R
  calc_slippage m quantity bar_volume =
      impact_ticks m quantity bar_volume * m.tick_size * abs quantity * m.multiplier

  unfoldable pub calc_tax : CostModel R → R → R → R
  calc_tax m price quantity =
      if m.tax_rate ≤ zero then zero else abs (price * quantity * m.multiplier) * m.tax_rate

  unfoldable pub total_cost : CostModel R → R → R → Option R → R
  unfolding calc_commission calc_slippage calc_tax
  total_cost m price quantity bar_volume =
      calc_commission m price quantity
      + calc_slippage m quantity bar_volume
      + calc_tax m price quantity

  unfoldable pub margin_rate : CostModel R → PositionSide → R
  margin_rate m short = m.short_margin_rate
  margin_rate m long = m.long_margin_rate

  unfoldable pub margin_mode : CostModel R → PositionSide → MarginMode
  margin_mode m short = m.short_margin_mode
  margin_mode m long = m.long_margin_mode

  unfoldable pub estimate_entry_outlay : CostModel R → R → R → PositionSide → Option R → R
  unfolding margin_rate total_cost
  estimate_entry_outlay m price quantity side bar_volume =
      price * quantity * m.multiplier * margin_rate m side + total_cost m price quantity bar_volume

  abbrev pub liquidation_factor : CostModel R → PositionSide → R
  liquidation_factor m long = one + m.maintenance_margin_rate - m.long_margin_rate
  liquidation_factor m short = one - m.maintenance_margin_rate + m.short_margin_rate

  unfoldable pub liquidation_price : CostModel R → R → PositionSide → Option R
  unfolding margin_rate
  liquidation_price m entry_price side =
      if m.maintenance_margin_rate ≤ zero
      then none
      else if margin_rate m side ≤ m.maintenance_margin_rate
      then none
      else some (entry_price * liquidation_factor m side)
