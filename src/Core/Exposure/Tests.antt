-- ===== src/Core/Exposure/Tests.antt =====
-- The sample book buys one more unit of SOL under a gross limit of 2.
use librae.Base.{refl, String, ◌≡◌, refl, ◌⊎◌, false, none, some, List, [], ◌∷◌, Dict, lookup, ok}
use librae.Core.Intents.{is_some}
use librae.Core.Number.{◌+◌}
use librae.Core.Number.Int.{
  ℤ, pos, int_number, add_int, mul_int, sub_int, neg_int, div_int, abs_int,
}
use librae.Core.Costs.{margin_rate, calc_pnl}
use librae.Core.Positions.{PositionState, side_multiplier}
use librae.Core.Positions.Close.{calc_equity}
use librae.Core.Orders.Sample.{spot, six_units, book}
use librae.Core.Exposure.{RiskValues, risk_values, validate_exposure_transition}
use librae.Core.Exposure.Limits.{Holds, gross_at, net_at, validate_exposure_transition-Holds}

abbrev added : List ℤ → ℤ
added [] = pos 0
added (x ∷ rest) = x + added rest

abbrev prices : Dict String ℤ
prices = ("SOL", pos 60) ∷ []

abbrev grown : Dict String (PositionState ℤ)
grown = ("SOL", record six_units { quantity = pos 7 }) ∷ []

accepted :
    validate_exposure_transition added prices
      (λ _. spot)
      (some (pos 2))
      none
      (pos 500)
      book
      (pos 440)
      grown
    ≡ ok tt
unfolding validate_exposure_transition calc_equity lookup side_multiplier margin_rate calc_pnl
    add_int mul_int sub_int neg_int div_int abs_int
accepted = refl

validate_exposure_transition-Holds_example :
    ((is_some (some (pos 2)) ≡ false) × (is_some {A = ℤ} none ≡ false))
    ⊎ ((before : RiskValues ℤ) × (risk_values added prices (λ _. spot) (pos 500) book ≡ ok before)
        × ((after : RiskValues ℤ) × (risk_values added prices (λ _. spot) (pos 440) grown
              ≡ ok after)
            × Holds (some (pos 2)) (gross_at before) (gross_at after)
            × Holds none (net_at before) (net_at after)))
validate_exposure_transition-Holds_example =
    validate_exposure_transition-Holds added prices (λ _. spot) (some (pos 2)) none (pos 500) book
      (pos 440) grown accepted
