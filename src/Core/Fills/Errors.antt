-- ===== src/Core/Fills/Errors.antt =====
-- Which confirmed executions an account refuses.
use librae.Base.{
  String, ◌≡◌, refl, ◌↔◌, ◌⊎◌, inl, inr, true, false, Option, none, some, Bool-cases, Dict, lookup,
  err, string_eq,
}
use librae.Core.Number.{Number, ◌+◌, ◌<◌, epsilon}
use librae.Core.Costs.{CostModel}
use librae.Core.Positions.{Fill, PositionState}
use librae.Core.Fills.{
  OrderSide, FillError, invalid_fill, crosses, side_eq, entry_side_of, Context, is_valid_fill,
  settle, apply_execution_fill,
}

module _ {R : Type 0} ⦃num : Number R⦄ where
  -- The fill closes more of a position of the other side than is open.
  abbrev pub Crosses : Fill R → OrderSide → Option (PositionState R) → Type 0
  Crosses fill order_side none = ⊥
  Crosses fill order_side (some position) =
      (side_eq position.side (entry_side_of order_side) ≡ false)
      × ((position.quantity + epsilon < fill.quantity) ≡ true)

  settle-err :
      (positions : Dict String (PositionState R)) (cash : R) (fill : Fill R)
      (order_side : OrderSide) (c : Context) (m : CostModel R) (held : Option (PositionState R))
      (e : FillError)
      → (settle positions cash fill order_side c m held ≡ err e)
        ↔ (Crosses fill order_side held × (e ≡ crosses fill.symbol))
  unfolding settle
  settle-err positions cash fill order_side c m none e = (λ h. absurd cc, λ h. absurd h.0)
  settle-err positions cash fill order_side c m (some position) e =
      elim (Bool-cases (side_eq position.side (entry_side_of order_side))) [
        | inl same ↦ rw same (λ h. absurd cc, λ h. absurd cc)
        | inr other ↦ elim (Bool-cases (position.quantity + epsilon < fill.quantity)) [
          | inl over ↦ rw (other, over) (λ h. ((refl, refl), cc), λ h. cc)
          | inr within ↦ rw (other, within) (λ h. absurd cc, λ h. absurd cc)
        ]
      ]

  -- A confirmed execution is refused in exactly two cases: its numbers are not those of a fill, or it
  -- is for more than is open of a position of the other side; the error says which.
  pub apply-err_iff :
      (positions : Dict String (PositionState R)) (cash : R) (fill : Fill R)
      (order_side : OrderSide) (c : Context) (m : CostModel R) (e : FillError)
      → (apply_execution_fill positions cash fill order_side c m ≡ err e) ↔ (
          ((is_valid_fill fill ≡ false) × (e ≡ invalid_fill))
          ⊎ ((is_valid_fill fill ≡ true)
              × Crosses fill order_side (lookup fill.symbol positions)
              × (e ≡ crosses fill.symbol)))
  unfolding apply_execution_fill
  apply-err_iff positions cash fill order_side c m e = elim (Bool-cases (is_valid_fill fill)) [
    | inl valid ↦
        let (to, from) =
          settle-err positions cash fill order_side c m (lookup fill.symbol positions) e in
        rw valid (
          λ h. inr (refl, (to h).0, (to h).1),
          λ h. elim h [ inl bad ↦ absurd cc | inr crossing ↦ from (crossing.1, crossing.2) ],
        )
    | inr bad ↦
        rw bad (λ h. inl (refl, cc), λ h. elim h [ inl invalid ↦ cc | inr crossing ↦ absurd cc ])
  ]
