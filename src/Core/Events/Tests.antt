-- ===== src/Core/Events/Tests.antt =====
-- Coalescing on a small batch, and the theorem at it.
use librae.Base.{◌≡◌, some, List, [], ◌∷◌, Distinct}
use librae.Core.Events.{
  RuntimeEvent, EventKey, key_eq, skipped, coalesce_runtime_events, decision_skipped,
}
use librae.Core.Events.Related.{keys_of, details_at, coalesce-Distinct, coalesce-details}
use librae.Core.Events.Merged.{merged, coalesce-eq-merged}
use mathlib.Core.List.{Perm}

abbrev batch : List RuntimeEvent
batch =
    skipped 7 "rebalance_residual" (some "AAPL")
    ∷ skipped 7 "rebalance_superseded" (some "AAPL")
    ∷ skipped 7 "rebalance_residual" (some "MSFT")
    ∷ []

coalesce-Distinct_example : Distinct (keys_of (coalesce_runtime_events batch))
coalesce-Distinct_example = coalesce-Distinct batch

abbrev first_key : EventKey
first_key = record { ts = 7; event_type = decision_skipped; symbol = some "AAPL" }

coalesce-details_example :
    Perm (details_at first_key (coalesce_runtime_events batch)) (details_at first_key batch)
coalesce-details_example = coalesce-details first_key batch

coalesce-eq-merged_example : coalesce_runtime_events batch ≡ merged batch []
coalesce-eq-merged_example = coalesce-eq-merged batch
