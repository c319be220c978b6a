-- ===== src/Core/Fills/Settled.antt =====
-- A close that the backtest prices and the same close confirmed by a venue are worth the same.
use librae.Base.{String, ◌≡◌, refl, inl, inr, false, Option, some, [], ◌∷◌, map, Bool-cases, Dict}
use librae.Core.Number.{Number, ◌*◌, ◌≤◌, min, zero}
use librae.Core.Costs.{CostModel, calc_commission, calc_slippage, calc_tax}
use librae.Core.Positions.{Fill, PositionState, PositionEvent, close_position, calc_trade_pnl}
use librae.Core.Positions.Close.{build_close_event}
use librae.Core.Fills.{Context, leave, exit_pnl, exit_event, proceeds_of, closed_quantity}

module _ {R : Type 0} ⦃num : Number R⦄ where
  -- The fill's costs are those that the model charges for the quantity that it closes.
  pub record ChargedBy (m : CostModel R) (bar_volume : Option R) (position : PositionState R)
      (fill : Fill R) : Type 0 where
    pub commission : fill.commission ≡ calc_commission m fill.price (closed_quantity position fill)
    pub slippage : fill.slippage ≡ calc_slippage m (closed_quantity position fill) bar_volume
    pub tax : fill.tax ≡ calc_tax m fill.price (closed_quantity position fill)

  pub min_again : (a b : R) → min (min a b) b ≡ min a b
  min_again a b = elim (Bool-cases (num.lt b a)) [
    | inl less ↦ rw less (elim (Bool-cases (num.lt b b)) [ inl h ↦ rw h | inr h ↦ rw h ])
    | inr h ↦ rw (h, h)
  ]

  exit_pnl-eq :
      (m : CostModel R) (bar_volume : Option R) (position : PositionState R) (fill : Fill R)
      → ChargedBy m bar_volume position fill
      → calc_trade_pnl position.entry_price fill.price
          (closed_quantity position fill)
          position.side
          m
          (position.entry_commission * (num.div (closed_quantity position fill) position.quantity))
          (position.entry_slippage * (num.div (closed_quantity position fill) position.quantity))
          (position.entry_tax * (num.div (closed_quantity position fill) position.quantity))
          bar_volume
        ≡ exit_pnl position fill m
  unfolding calc_trade_pnl exit_pnl
  exit_pnl-eq m bar_volume position fill charged =
      rw (charged.commission, charged.slippage, charged.tax)

  closing :
      (m : CostModel R) (bar_volume : Option R) (position : PositionState R) (fill : Fill R)
      → ChargedBy m bar_volume position fill
      → (closed_quantity position fill ≤ zero) ≡ false
      → close_position position fill.price m (some (closed_quantity position fill)) bar_volume ≡ (
        exit_pnl position fill m,
        proceeds_of position fill m,
        num.le (num.sub position.quantity num.epsilon) (closed_quantity position fill),
      )
  unfolding close_position proceeds_of
  closing m bar_volume position fill charged positive =
      rw
        (
          min_again fill.quantity position.quantity,
          positive,
          exit_pnl-eq m bar_volume position fill charged,
        )
        (rw (← charged.commission, ← charged.slippage, ← charged.tax))

  -- A position that is closed, in part or as a whole, by a fill at the model's costs for a positive
  -- quantity: the close that the engines price and the confirmed fill give the same trade, the same
  -- proceeds and the same kind of event.
  pub settled_alike :
      (m : CostModel R) (bar_volume : Option R) (positions : Dict String (PositionState R))
      (cash : R) (position : PositionState R) (fill : Fill R) (c : Context)
      → ChargedBy m bar_volume position fill
      → (closed_quantity position fill ≤ zero) ≡ false
      → let (trade, event, proceeds, fully_closed) =
          build_close_event position c.ts fill.price m c.reason
            (some fill.quantity)
            bar_volume
            c.time_in_force in
        let result = (leave positions cash position fill c m).2 in
        (result.trades ≡ trade ∷ [])
        × (result.cash_delta ≡ proceeds)
        × (map (λ (e : PositionEvent R). e.event_type) result.events ≡ event.event_type ∷ [])
  unfolding leave build_close_event exit_event
  settled_alike m bar_volume positions cash position fill c charged positive =
      rw (closing m bar_volume position fill charged positive) (refl, refl, refl)
