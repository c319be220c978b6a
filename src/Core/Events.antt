-- ===== src/Core/Events.antt =====
-- librae/core/executor.py: the operational events of a run, and `coalesce_runtime_events`, which
-- keeps one event for each persistence identity (instant, type and symbol).
mod Detail
mod Key
pub mod Merged
pub mod Related
mod Tests
pub use Detail.{Value, text, number, entries, fields, Items, nil, item, Fields, end, field}
use librae.Base.{
  ℕ, String, Option, none, some, List, [], ◌∷◌, ◌++◌, ltb, if◌then◌else◌, ◌==◌, nat_eq, string_eq,
  Dict, lookup, insert, get_elem?, set, length,
}
unfoldable pub use Detail.{get, drop, put, related_of, joined_items, reason_of}
pub use Detail.{related_of-put, drop-put-drop}
pub use Key.{
  RuntimeEventType, state_recovered, decision_skipped, halted, halt_reset, group_failed, EventKey,
  key_beq_iff,
}
unfoldable pub use Key.{type_eq, key_eq}

pub record RuntimeEvent : Type 0 where
  pub ts : ℕ
  pub event_type : RuntimeEventType
  pub symbol : Option String
  pub detail : Fields

-- `_skipped`, with no further context.
pub skipped : ℕ → String → Option String → RuntimeEvent
skipped ts reason symbol = record {
  ts = ts;
  event_type = decision_skipped;
  symbol = symbol;
  detail = field "reason" (text reason) end;
}

-- `_skipped`, with the context behind the reason.
pub skipped_with : ℕ → String → String → Fields → RuntimeEvent
skipped_with ts reason symbol context = record {
  ts = ts;
  event_type = decision_skipped;
  symbol = some symbol;
  detail = field "reason" (text reason) context;
}

abbrev pub key_of : RuntimeEvent → EventKey
key_of e = record { ts = e.ts; event_type = e.event_type; symbol = e.symbol }

-- `reason_priority.get(..., 0)`
pub reason_priority : String → ℕ
reason_priority reason =
    if reason == "rebalance_constrained_by_position_limit"
    then 1
    else if reason == "protective_exit_deferred"
    then 2
    else if reason == "rebalance_superseded"
    then 3
    else if reason == "rebalance_cancelled_by_protective_exit"
    then 4
    else if reason == "rebalance_cancelled_by_halt"
    then 4
    else 0

pub priority : RuntimeEvent → ℕ
unfolding reason_priority
priority e = reason_priority (reason_of e.detail)

-- `split_detail`: the detail without the related events, and those.
abbrev pub primary_of : Fields → Fields
primary_of d = drop "related_events" d

-- The event that stands for `existing` and `event` together.
unfoldable pub combine : RuntimeEvent → RuntimeEvent → RuntimeEvent
combine existing event =
    let existing_detail = primary_of existing.detail in
    let event_detail = primary_of event.detail in
    let existing_related = related_of existing.detail in
    let event_related = related_of event.detail in
    if ltb (priority existing) (priority event)
    then record event {
      detail =
          put "related_events"
            (entries (item (fields existing_detail) (joined_items existing_related event_related)))
            event_detail;
    }
    else record existing {
      detail =
          put "related_events"
            (entries (joined_items existing_related (item (fields event_detail) event_related)))
            existing_detail;
    }

-- An index of `by_key` is in range, so `none` is never met (`coalesce-eq-merged`).
replace_at : RuntimeEvent → List RuntimeEvent → ℕ → Option RuntimeEvent → List RuntimeEvent
replace_at event coalesced i none = coalesced
replace_at event coalesced i (some existing) = set coalesced i (combine existing event)

abbrev Progress : Type 0
Progress = Dict EventKey ℕ × List RuntimeEvent

-- The two ways through a round of the loop, on `by_key` and `coalesced`.
coalesce_at : RuntimeEvent → Progress → Option ℕ → Progress
coalesce_at event (by_key, coalesced) none =
    (insert (key_of event) (length coalesced) by_key, coalesced ++ event ∷ [])
coalesce_at event (by_key, coalesced) (some i) =
    (by_key, replace_at event coalesced i (get_elem? coalesced i))

coalesce_from : List RuntimeEvent → Progress → Progress
coalesce_from [] p = p
coalesce_from (event ∷ events) p =
    coalesce_from events (coalesce_at event p (lookup (key_of event) p.0))

pub coalesce_runtime_events : List RuntimeEvent → List RuntimeEvent
unfolding coalesce_from coalesce_at replace_at
coalesce_runtime_events events = (coalesce_from events ([], [])).1
