-- ===== src/Core/Liquidity/Sizing.antt =====
-- The size that the search of `_size_position` finds is one that the cash pays for.
use librae.Base.{suc, ℕ, ◌≡◌, refl, ◌⊎◌, inl, inr, true, false, Option, Bool-cases, Bool}
use librae.Core.Intents.{PositionSide}
use librae.Core.Number.{Number, ◌+◌, ◌/◌, ◌<◌, ◌≤◌, zero, one}
use librae.Core.Costs.{CostModel, estimate_entry_outlay}
use librae.Core.Liquidity.{bisect, linear_size, size_position, fit, impacts}

module _ {R : Type 0} ⦃num : Number R⦄ where
  pub bisect-fits :
      (outlay : R → R) (cash : R) (n : ℕ) (low high : R)
      → (bisect outlay cash n low high ≡ low)
        ⊎ ((outlay (bisect outlay cash n low high) ≤ cash) ≡ true)
  unfolding bisect
  bisect-fits outlay cash (suc n) low high =
      elim (Bool-cases (outlay ((low + high) / (one + one)) ≤ cash)) [
        | inl fits ↦ rw fits (elim (bisect-fits outlay cash n ((low + high) / (one + one)) high) [
          | inl same ↦ inr (rw same fits)
          | inr found ↦ inr found
        ])
        | inr over ↦ rw over (bisect-fits outlay cash n low ((low + high) / (one + one)))
      ]
  bisect-fits outlay cash _ low high = inl refl

  fit-fits :
      (not_above : (a b : R) → (a ≤ b) ≡ true → (b < a) ≡ false) (outlay : R → R) (cash : R)
      (impacted : Bool) (qty : R)
      → impacted ≡ true
      → (fit outlay cash impacted qty ≡ zero)
        ⊎ ((cash < outlay (fit outlay cash impacted qty)) ≡ false)
  unfolding fit
  fit-fits not_above outlay cash impacted qty h = elim (Bool-cases (cash < outlay qty)) [
    | inl over ↦
        rw (h, over)
          (elim (bisect-fits outlay cash 60 zero qty) [
            | inl nothing ↦ inl nothing
            | inr fits ↦ inr (not_above _ _ fits)
          ])
    | inr within ↦ inr (rw (h, within) within)
  ]

  -- An entry is sized for an instrument whose market impact is modelled, on a bar with a positive
  -- volume, where the linear size is beyond the tolerance. If a value that is at most another is not
  -- above it, the size is zero, or its whole outlay, the impact included, is not above the cash.
  pub size_position-fits :
      (not_above : (a b : R) → (a ≤ b) ≡ true → (b < a) ≡ false) (m : CostModel R) (price cash : R)
      (side : PositionSide) (bar_volume : Option R)
      → impacts m bar_volume (linear_size m price cash side) ≡ true
      → (size_position m price cash side bar_volume ≡ zero)
        ⊎ ((cash
              < estimate_entry_outlay m price
                  (size_position m price cash side bar_volume)
                  side
                  bar_volume)
            ≡ false)
  unfolding size_position
  size_position-fits not_above m price cash side bar_volume impacted =
      fit-fits not_above (λ q. estimate_entry_outlay m price q side bar_volume) cash
        (impacts m bar_volume (linear_size m price cash side)) (linear_size m price cash side)
        impacted
