-- ===== src/Core/Rebalance/Funded.antt =====
-- The additions of a rebalance are scaled to what the cash pays for.
use librae.Base.{
  refl, String, ◌≡◌, refl, ◌⊎◌, true, Option, some, List, [], ◌∷◌, Dict, lookup, All, string_eq,
}
use librae.Core.Intents.{OrderIntent, is_some}
use librae.Core.Number.{Number, ◌+◌, ◌≤◌, zero, one, epsilon}
use librae.Core.Stops.{or_else}
use librae.Core.Orders.{Plan}
use librae.Core.Rebalance.Scaling.{cost_at, with_cost, total_outlay}

module _ {R : Type 0} ⦃num : Number R⦄ where
  -- A search whose outlays are all known finds a scale: the one that it began with, or one whose
  -- outlay is at most the cash.
  abbrev Finds : (R → Option R) → R → R → Option R → Type 0
  Finds outlay cash low found =
      (scale : R) × (found ≡ some scale)
      × ((scale ≡ low) ⊎ ((t : R) × (outlay scale ≡ some t) × ((t ≤ cash) ≡ true)))

module _ {R : Type 0} ⦃num : Number R⦄ (plan : Plan R) (prices : Dict String R) where
  -- Every intent has a price.
  abbrev pub Priced : List (OrderIntent R) → Type 0
  Priced = All (λ (action : OrderIntent R). is_some (lookup action.symbol prices) ≡ true)

  -- What intents cost at their own quantities, added up in their order.
  abbrev pub spent_from : Option R → List (OrderIntent R) → Option R
  spent_from total [] = total
  spent_from total (action ∷ rest) =
      spent_from
        (with_cost total (lookup action.symbol prices)
          (λ price. cost_at plan prices price action (or_else action.quantity zero)))
        rest

  -- The additions that are kept: none; or those asked for, within the tolerance of the cash; or some
  -- whose costs at their own quantities are at most the cash.
  abbrev pub Funded : List (OrderIntent R) → R → List (OrderIntent R) → Type 0
  Funded actions available_cash kept =
      (kept ≡ [])
      ⊎ ((kept ≡ actions)
          × ((t : R) × (total_outlay plan prices actions one ≡ some t)
              × ((t ≤ available_cash + epsilon) ≡ true)))
      ⊎ ((t : R) × (spent_from (some zero) kept ≡ some t) × ((t ≤ available_cash) ≡ true))

  -- A scale whose total is at most the cash, or the one that the search began with.
  abbrev Ends : List (OrderIntent R) → R → R → Type 0
  Ends actions available_cash low =
      (low ≡ zero)
      ⊎ ((t : R) × (total_outlay plan prices actions low ≡ some t) × ((t ≤ available_cash) ≡ true))
