-- ===== src/Core/Exposure/Limits.antt =====
-- What an accepted change of a book keeps of its limits.
use librae.Base.{
  refl, err-ok, true-false, String, ◌≡◌, refl, sym, ◌⊎◌, inl, inr, Bool, true, false, not, ◌&&◌,
  ◌||◌, Option, none, some, List, Bool-cases, Dict, Result, ok, ◌>>◌, raise_if, >>=-ok,
}
use librae.Core.Intents.{is_some}
use librae.Core.Number.{Number, ◌+◌, ◌/◌, ◌<◌, ◌≤◌, epsilon}
use librae.Core.Costs.{CostModel}
use librae.Core.Positions.{PositionState}
use librae.Core.Exposure.{
  RiskValues, risk_values, breaches, is_insolvent, worsens, judge, validate_exposure_transition,
}

raise_if-ok :
    {E : Type 0} (test : Bool) (e : E) (next : Result E (Unit {0}))
    → raise_if test e >> next ≡ ok tt
    → (test ≡ false) × (next ≡ ok tt)
raise_if-ok true e next h = absurd (err-ok h)
raise_if-ok false e next h = (refl, h)

raise_last-ok : {E : Type 0} (test : Bool) (e : E) → raise_if test e ≡ ok tt → test ≡ false
raise_last-ok true e h = absurd (err-ok h)
raise_last-ok false e h = refl

none_given :
    {R : Type 0} (a b : Option R)
    → (not (is_some a) && not (is_some b)) ≡ true
    → (is_some a ≡ false) × (is_some b ≡ false)
none_given none none h = (refl, refl)
none_given (some x) b h = absurd (true-false (sym h))
none_given none (some y) h = absurd (true-false (sym h))

module _ {R : Type 0} ⦃num : Number R⦄ where
  -- A measure at the two books, with the equities: it is within its limit, or it has not grown, up to the
  -- tolerance each; where an equity is not positive, it has not grown as a notional.
  abbrev pub Holds : Option R → R × R → R × R → Type 0
  Holds none before after = Unit
  Holds (some limit) (equity, notional) (equity_after, notional_after) =
      (((equity ≤ epsilon) || (equity_after ≤ epsilon)) ≡ true)
        × ((notional + epsilon < notional_after) ≡ false)
      ⊎ (((equity ≤ epsilon) || (equity_after ≤ epsilon)) ≡ false)
        × (((limit + epsilon < notional_after / equity_after) ≡ false)
            ⊎ ((notional / equity + epsilon < notional_after / equity_after) ≡ false))

  grown-Holds :
      (limit : Option R) (before after : R × R)
      → ((before.0 ≤ epsilon) || (after.0 ≤ epsilon)) ≡ true
      → breaches limit (λ _. before.1 + epsilon < after.1) ≡ false
      → Holds limit before after
  grown-Holds none before after insolvent h = tt
  grown-Holds (some limit) before after insolvent h = inl (insolvent, h)

  worse-Holds :
      (limit : Option R) (before after : R × R)
      → ((before.0 ≤ epsilon) || (after.0 ≤ epsilon)) ≡ false
      → breaches limit (worsens (before.1 / before.0) (after.1 / after.0)) ≡ false
      → Holds limit before after
  worse-Holds none before after solvent h = tt
  worse-Holds (some limit) before after solvent h =
      elim (Bool-cases (limit + epsilon < after.1 / after.0)) [
        | inl over ↦ inr (solvent, inr (rw over at h))
        | inr within ↦ inr (solvent, inl within)
      ]

  abbrev pub gross_at : RiskValues R → R × R
  gross_at risk = (risk.equity, risk.gross)

  abbrev pub net_at : RiskValues R → R × R
  net_at risk = (risk.equity, risk.net)

  judge-Holds :
      (max_gross max_net : Option R) (before after : RiskValues R)
      → judge max_gross max_net before after ≡ ok tt
      → Holds max_gross (gross_at before) (gross_at after)
        × Holds max_net (net_at before) (net_at after)
  unfolding judge
  judge-Holds max_gross max_net before after h = elim (Bool-cases (is_insolvent before after)) [
    | inl insolvent ↦
        let (gross, net) = raise_if-ok _ _ _ (rw insolvent at h) in
        (
          grown-Holds max_gross (gross_at before) (gross_at after) insolvent gross,
          grown-Holds max_net (net_at before) (net_at after) insolvent (raise_last-ok _ _ net),
        )
    | inr solvent ↦
        let (gross, net) = raise_if-ok _ _ _ (rw solvent at h) in
        (
          worse-Holds max_gross (gross_at before) (gross_at after) solvent gross,
          worse-Holds max_net (net_at before) (net_at after) solvent (raise_last-ok _ _ net),
        )
  ]

-- A change of a book that is accepted: there is no limit; or both books have their risk values, and the
-- gross and the net measure each hold: where both equities are beyond the tolerance, the exposure after is
-- within its limit or not above the exposure before, and otherwise the notional after is not above the
-- notional before, each up to the tolerance.
pub validate_exposure_transition-Holds :
    {R : Type 0} ⦃num : Number R⦄ (sum_of : List R → R) (prices : Dict String R)
    (get_cost_model : String → CostModel R) (max_gross max_net : Option R) (cash_before : R)
    (positions_before : Dict String (PositionState R)) (cash_after : R)
    (positions_after : Dict String (PositionState R))
    → validate_exposure_transition sum_of prices get_cost_model max_gross max_net cash_before
        positions_before cash_after positions_after
      ≡ ok tt
    → ((is_some max_gross ≡ false) × (is_some max_net ≡ false))
      ⊎ ((before : RiskValues R) × (risk_values sum_of prices get_cost_model cash_before
              positions_before
            ≡ ok before)
          × ((after : RiskValues R) × (risk_values sum_of prices get_cost_model cash_after
                  positions_after
                ≡ ok after)
              × Holds max_gross (gross_at before) (gross_at after)
              × Holds max_net (net_at before) (net_at after)))
unfolding validate_exposure_transition
validate_exposure_transition-Holds sum_of prices get_cost_model max_gross max_net cash_before
      positions_before cash_after positions_after h =
    elim (Bool-cases (not (is_some max_gross) && not (is_some max_net))) [
      | inl unlimited ↦ inl (none_given max_gross max_net unlimited)
      | inr limited ↦
          let (before, first, rest) =
            >>=-ok (risk_values sum_of prices get_cost_model cash_before positions_before) _
              (rw limited at h) in
          let (after, second, judged) =
            >>=-ok (risk_values sum_of prices get_cost_model cash_after positions_after) _ rest in
          let (gross, net) = judge-Holds max_gross max_net before after judged in
          inr (before, first, (after, second, gross, net))
    ]
