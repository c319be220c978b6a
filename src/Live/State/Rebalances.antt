-- ===== src/Live/State/Rebalances.antt =====
-- `LiveRebalance` of librae/live/state.py.
use librae.Base.{
  ℕ, String, Option, none, some, [], ◌∷◌, if◌then◌else◌, Dict, Result, ok, err, ◌>>=◌,
}
use librae.Core.Intents.{PortfolioWeights}
use librae.Core.Number.{Number}
use librae.Core.Number.Int.{ℤ, pos, lt_int}
use librae.Live.State.Json.{
  Json, null, integer, float, text, object, Members, end, member, StateError, value_error,
  type_error, Python, get, at, keys_within, or_null, members_of, read_object, to_utc, time_of,
}
use librae.Live.State.Decisions.{weights_from}

pub record LiveRebalance (R : Type 0) : Type 0 where
  pub targets : PortfolioWeights R
  pub reference_prices : Dict String R
  pub reference_volumes : Dict String (Option R)
  pub lagged_adv_by_symbol : Dict String R
  pub decided_at : ℕ
  pub next_sequence : ℤ
  pub execution_bar_ts : Option ℕ
  pub delay_bars : ℤ
  pub filled_bar_quantity_by_symbol : Dict String R

abbrev pub required_time : Option ℕ → Result StateError ℕ
required_time none = err (value_error "decided_at")
required_time (some t) = ok t

abbrev pub non_negative : String → ℤ → Result StateError ℤ
non_negative name n = if lt_int n (pos 0) then err (value_error name) else ok n

module _ {R : Type 0} ⦃num : Number R⦄ (python : Python R) where
  abbrev pub targets_to_dict : PortfolioWeights R → Members R
  targets_to_dict p =
      member "weights" (object (members_of float p.weights)) (member "reason" (text p.reason) end)

  -- `to_dict`
  unfoldable pub rebalance_to_dict : LiveRebalance R → Members R
  rebalance_to_dict r = member "targets" (object (targets_to_dict r.targets)) (
      member "reference_prices" (object (members_of float r.reference_prices)) (
        member "reference_volumes" (object (members_of (or_null float) r.reference_volumes)) (
          member "lagged_adv_by_symbol" (object (members_of float r.lagged_adv_by_symbol)) (
            member "decided_at" (time_of python r.decided_at) (
              member "next_sequence" (integer r.next_sequence) (
                member "execution_bar_ts" (or_null (time_of python) r.execution_bar_ts) (
                  member "delay_bars" (integer r.delay_bars) (
                    member "filled_bar_quantity_by_symbol"
                      (object (members_of float r.filled_bar_quantity_by_symbol)) end))))))))

  abbrev pub weights_given : Members R → Option (Json R) → Result StateError (PortfolioWeights R)
  weights_given raw none = err (type_error "weights")
  weights_given raw (some value) = weights_from python value (get "reason" raw)

  -- `PortfolioWeights(**raw["targets"])`
  abbrev pub read_targets : Json R → Result StateError (PortfolioWeights R)
  read_targets (object raw) =
      if keys_within ("weights" ∷ "reason" ∷ []) raw
      then weights_given raw (get "weights" raw)
      else err (type_error "unexpected")
  read_targets _ = err (type_error "targets")

  abbrev pub read_float : String → Json R → Result StateError R
  read_float symbol value = python.to_float value

  abbrev pub read_optional_float : String → Json R → Result StateError (Option R)
  read_optional_float symbol null = ok none
  read_optional_float symbol value = python.to_float value >>= λ x. ok (some x)

  -- `from_dict`
  unfoldable pub rebalance_from_dict : Members R → Result StateError (LiveRebalance R)
  unfolding weights_from
  rebalance_from_dict raw = at "targets" raw >>= read_targets >>= λ targets.
      at "decided_at" raw >>= to_utc python >>= required_time >>= λ decided_at.
      at "next_sequence" raw >>= python.to_int >>= non_negative "next_sequence" >>= λ next_sequence.
      at "delay_bars" raw >>= python.to_int >>= non_negative "delay_bars" >>= λ delay_bars.
      at "reference_prices" raw >>= read_object read_float >>= λ reference_prices.
      at "reference_volumes" raw >>= read_object read_optional_float >>= λ reference_volumes.
      at "lagged_adv_by_symbol" raw >>= read_object read_float >>= λ lagged_adv_by_symbol.
      at "execution_bar_ts" raw >>= to_utc python >>= λ execution_bar_ts.
      at "filled_bar_quantity_by_symbol" raw >>= read_object read_float >>= λ filled. ok (record {
        targets = targets;
        reference_prices = reference_prices;
        reference_volumes = reference_volumes;
        lagged_adv_by_symbol = lagged_adv_by_symbol;
        decided_at = decided_at;
        next_sequence = next_sequence;
        execution_bar_ts = execution_bar_ts;
        delay_bars = delay_bars;
        filled_bar_quantity_by_symbol = filled;
      })
