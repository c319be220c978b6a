-- ===== src/Core/Stops/Forced.antt =====
-- librae/core/executor.py: `liquidate_all`, which closes every position at the bar's close.
use librae.Base.{
  String, sym, Bool, true, false, Option, none, some, List, [], ◌∷◌, if◌then◌else◌, Dict, lookup,
  insert, Result, ok, ◌>>=◌, string_eq,
}
use librae.Core.Number.{Number, ◌≤◌, epsilon}
use librae.Core.Positions.{PositionState}
use librae.Core.Liquidity.{impact_volume_unavailable}
use librae.Core.Bars.{Bar, BarError, order_side_is_tradable, close_side_of}
use librae.Core.Stops.{Market, Exits, close_amount, close_now, keys, started, or_else}

-- A `force_close_incomplete` event.
pub record Residual (R : Type 0) : Type 0 where
  pub symbol : String
  pub remaining_quantity : R
  pub cause : String

module _ {R : Type 0} ⦃num : Number R⦄ where
  abbrev pub caused : String → String → Exits R → Exits R
  caused sym cause state = record state { causes = insert sym cause state.causes }

  unfoldable pub liquidate_open :
      Market R → String → PositionState R → R → String → Option R → Exits R → Bool → Exits R
  unfolding close_amount close_now
  liquidate_open market sym pos price reason bar_volume state false =
      caused sym "side_not_tradable" state
  liquidate_open market sym pos price reason bar_volume state true =
      let quantity = close_amount market state sym pos bar_volume in
      if impact_volume_unavailable (market.get_cost_model sym) bar_volume
      then caused sym "volume_unavailable" state
      else if quantity ≤ epsilon
      then state
      else close_now market sym pos price reason bar_volume quantity none state

  abbrev pub liquidate_bar :
      Market R
      → String
      → String
      → PositionState R
      → Exits R
      → Bar R
      → Option R
      → Result BarError (Exits R)
  liquidate_bar market reason sym pos state bar none = ok (caused sym "no_bar" state)
  liquidate_bar market reason sym pos state bar (some price) =
      order_side_is_tradable bar (close_side_of pos.side) >>= λ tradable.
      ok (liquidate_open market sym pos price reason bar.volume state tradable)

  abbrev pub liquidate_found :
      Market R
      → String
      → String
      → Exits R
      → Option (Bar R)
      → Option (PositionState R)
      → Result BarError (Exits R)
  liquidate_found market reason sym state found none = ok state
  liquidate_found market reason sym state none (some pos) = ok (caused sym "no_bar" state)
  liquidate_found market reason sym state (some bar) (some pos) =
      liquidate_bar market reason sym pos state bar bar.close_

  unfoldable pub liquidate_walk :
      Market R → String → List String → Exits R → Result BarError (Exits R)
  unfolding liquidate_open
  liquidate_walk market reason [] state = ok state
  liquidate_walk market reason (sym ∷ rest) state =
      liquidate_found market reason sym state (lookup sym market.bars) (lookup sym state.positions)
      >>= λ next. liquidate_walk market reason rest next

  unfoldable pub residuals : Dict String String → Dict String (PositionState R) → List (Residual R)
  residuals causes [] = []
  residuals causes ((sym, pos) ∷ rest) =
      record {
        symbol = sym;
        remaining_quantity = pos.quantity;
        cause = or_else (lookup sym causes) "liquidity_budget";
      }
      ∷ residuals causes rest

  unfoldable pub liquidate_all :
      Market R
      → String
      → Dict String (PositionState R)
      → Option (Dict String R)
      → Option (Dict String R)
      → Result BarError (Exits R × List (Residual R))
  unfolding liquidate_walk residuals
  liquidate_all market reason positions used_bar used_adv =
      liquidate_walk market reason (keys positions) (started positions used_bar used_adv)
      >>= λ state. ok (state, residuals state.causes state.positions)
