-- ===== src/Core/Liquidity/Tests.antt =====
-- A size that a search has to lower, since the impact makes the linear size too dear.
use librae.Base.{◌≡◌, refl, ◌⊎◌, true, false, some}
use librae.Core.Intents.{PositionSide}
use librae.Core.Number.{◌<◌, zero}
use librae.Core.Number.Int.{ℤ, pos, int_number, add_int, sub_int, mul_int, div_int, not_above_int}
use librae.Core.Costs.{CostModel, unlevered, estimate_entry_outlay, margin_rate}
use librae.Core.Liquidity.{size_position, linear_size, impacts}
use librae.Core.Liquidity.Sizing.{size_position-fits}

abbrev thin : CostModel ℤ
thin = record {
  multiplier = pos 1;
  commission_rate = pos 0;
  min_commission = pos 0;
  slippage_ticks = pos 0;
  tick_size = pos 1;
  tax_rate = pos 0;
  long_margin_rate = pos 1;
  short_margin_rate = pos 1;
  volume_impact_ticks = pos 1;
  maintenance_margin_rate = pos 0;
  long_margin_mode = unlevered;
  short_margin_mode = unlevered;
  commission_per_contract = pos 0;
}

impacted :
    impacts thin (some (pos 4)) (linear_size thin (pos 10) (pos 100) PositionSide.long) ≡ true
unfolding impacts linear_size margin_rate add_int sub_int mul_int div_int
impacted = refl

size_position-fits_example :
    (size_position thin (pos 10) (pos 100) PositionSide.long (some (pos 4)) ≡ zero)
    ⊎ ((pos 100
          < estimate_entry_outlay thin
              (pos 10)
              (size_position thin (pos 10) (pos 100) PositionSide.long (some (pos 4)))
              PositionSide.long
              (some (pos 4)))
        ≡ false)
size_position-fits_example =
    size_position-fits not_above_int thin (pos 10) (pos 100) PositionSide.long (some (pos 4))
      impacted
