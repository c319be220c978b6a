-- ===== src/Live/State/Resumed.antt =====
-- A live rebalance is restored from what was saved of it.
use librae.Base.{refl, String, ◌≡◌, refl, false, Option, none, some, Dict, ok, mem}
use librae.Core.Number.{Number}
use librae.Core.Number.Int.{pos, lt_int}
use librae.Live.State.Json.{
  float, Python, IsPython, or_null, members_of, read_members, read-members_of, All-each,
  to_utc-time_of, get, keys_within,
}
use librae.Live.State.Rebalances.{
  LiveRebalance, rebalance_to_dict, rebalance_from_dict, read_float, read_optional_float,
}
use librae.Live.State.Restored.{IsWeights, weights-restored}

module _ {R : Type 0} ⦃num : Number R⦄ (python : Python R) (lawful : IsPython python) where
  floats-restored :
      (d : Dict String R) → read_members (read_float python) (members_of float d) ≡ ok d
  floats-restored d =
      read-members_of (read_float python) float d (All-each _ d (λ e. lawful.to_float-float e.1))

  optional-restored :
      (x : Option R) (symbol : String) → read_optional_float python symbol (or_null float x) ≡ ok x
  optional-restored none symbol = refl
  optional-restored (some x) symbol = rw (lawful.to_float-float x)

  optionals-restored :
      (d : Dict String (Option R))
      → read_members (read_optional_float python) (members_of (or_null float) d) ≡ ok d
  optionals-restored d =
      read-members_of (read_optional_float python) (or_null float) d
        (All-each _ d (λ e. optional-restored e.1 e.0))

-- A rebalance whose weights are checked and whose counters are not negative, where Python reads back the
-- numbers and the instants that it writes: what is restored of the document that is saved of it is the
-- rebalance itself.
pub rebalance-restored :
    {R : Type 0} ⦃num : Number R⦄ (python : Python R) (lawful : IsPython python)
    (r : LiveRebalance R)
    → IsWeights r.targets.weights
    → lt_int r.next_sequence (pos 0) ≡ false
    → lt_int r.delay_bars (pos 0) ≡ false
    → rebalance_from_dict python (rebalance_to_dict python r) ≡ ok r
unfolding rebalance_from_dict rebalance_to_dict get keys_within mem
rebalance-restored python lawful r weights sequence bars = rw (
  weights-restored python r.targets weights,
  to_utc-time_of python lawful (some r.decided_at),
  lawful.to_int-integer r.next_sequence,
  sequence,
  lawful.to_int-integer r.delay_bars,
  bars,
  floats-restored python lawful r.reference_prices,
  optionals-restored python lawful r.reference_volumes,
  floats-restored python lawful r.lagged_adv_by_symbol,
  to_utc-time_of python lawful r.execution_bar_ts,
  floats-restored python lawful r.filled_bar_quantity_by_symbol,
)
