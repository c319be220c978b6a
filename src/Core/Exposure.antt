-- ===== src/Core/Exposure.antt =====
-- librae/core/executor.py: the exposure of a book at given prices, and `validate_exposure_transition`. Python's
-- `sum`, which compensates the rounding of floats, is a parameter.
pub mod Limits
mod Tests
use librae.Base.{
  sorted_set, String, Bool, false, not, ◌&&◌, ◌||◌, Option, none, some, List, [], ◌∷◌, map,
  if◌then◌else◌, Dict, lookup, Result, ok, err, ◌>>=◌, ◌>>◌, raise_if, select, string_eq,
}
use librae.Core.Intents.{is_some}
use librae.Core.Number.{Number, ◌+◌, ◌*◌, ◌/◌, ◌<◌, ◌≤◌, abs, zero, epsilon, is_finite}
use librae.Core.Costs.{CostModel}
use librae.Core.Positions.{PositionState, side_multiplier}
use librae.Core.Positions.Close.{calc_equity}
use librae.Core.Stops.{keys, or_else}

pub data ExposureError : Type 0 where
  missing_prices invalid_prices : List String → ExposureError
  gross_notional_increases net_notional_increases gross_over_limit net_over_limit : ExposureError

-- The equity, the gross notional and the absolute net notional.
pub record RiskValues (R : Type 0) : Type 0 where
  pub equity : R
  pub gross : R
  pub net : R

abbrev pub when_none :
    {A : Type 0} → List String → (List String → ExposureError) → A → Result ExposureError A
when_none [] raised a = ok a
when_none (symbol ∷ rest) raised a = err (raised (symbol ∷ rest))

abbrev pub breaches : {R : Type 0} → Option R → (R → Bool) → Bool
breaches none test = false
breaches (some limit) test = test limit

module _ {R : Type 0} ⦃num : Number R⦄ where
  abbrev pub is_insolvent : RiskValues R → RiskValues R → Bool
  is_insolvent before after = before.equity ≤ epsilon || after.equity ≤ epsilon

  -- `after > limit + EPSILON and after > before + EPSILON`
  abbrev pub worsens : R → R → R → Bool
  worsens before after limit = (limit + epsilon < after) && (before + epsilon < after)

  unfoldable pub judge :
      Option R → Option R → RiskValues R → RiskValues R → Result ExposureError (Unit {0})
  judge max_gross max_net before after =
      if is_insolvent before after
      then (raise_if (breaches max_gross (λ _. before.gross + epsilon < after.gross))
            gross_notional_increases
          >> raise_if (breaches max_net (λ _. before.net + epsilon < after.net))
              net_notional_increases)
      else (raise_if
            (breaches max_gross
              (worsens (before.gross / before.equity) (after.gross / after.equity)))
            gross_over_limit
          >> raise_if
              (breaches max_net (worsens (before.net / before.equity) (after.net / after.equity)))
              net_over_limit)

module _ {R : Type 0} ⦃num : Number R⦄ (sum_of : List R → R) (prices : Dict String R)
    (get_cost_model : String → CostModel R) where
  abbrev pub price_of : String → R
  price_of symbol = or_else (lookup symbol prices) zero

  abbrev pub signed_notional : String × PositionState R → R
  signed_notional (symbol, position) =
      price_of symbol
      * position.quantity
      * (get_cost_model symbol).multiplier
      * side_multiplier position.side

  abbrev pub unpriced : List String → List String
  unpriced = select (λ symbol. not (is_some (lookup symbol prices)))

  abbrev pub badly_priced : List String → List String
  badly_priced = select (λ symbol. not (is_finite (price_of symbol)) || price_of symbol ≤ zero)

  unfoldable pub signed_notionals : Dict String (PositionState R) → Result ExposureError (List R)
  signed_notionals positions =
      when_none (sorted_set (unpriced (keys positions))) missing_prices tt
      >> when_none (sorted_set (badly_priced (keys positions))) invalid_prices
          (map signed_notional positions)

  -- `_portfolio_risk_values`
  unfoldable pub risk_values :
      R → Dict String (PositionState R) → Result ExposureError (RiskValues R)
  unfolding signed_notionals
  risk_values cash positions = signed_notionals positions >>= λ notionals. ok (record {
    equity = (calc_equity (λ symbol _. price_of symbol) get_cost_model cash positions).0;
    gross = sum_of (map abs notionals);
    net = abs (sum_of notionals);
  })

  unfoldable pub validate_exposure_transition :
      Option R
      → Option R
      → R
      → Dict String (PositionState R)
      → R
      → Dict String (PositionState R)
      → Result ExposureError (Unit {0})
  unfolding risk_values judge
  validate_exposure_transition max_gross max_net cash_before positions_before cash_after
        positions_after =
      if not (is_some max_gross) && not (is_some max_net)
      then ok tt
      else (risk_values cash_before positions_before >>= λ before.
          risk_values cash_after positions_after >>= λ after. judge max_gross max_net before after)
