-- ===== src/Live/Audit.antt =====
-- librae/live/ohlcv_audit.py: the bounded queue of audit rows, and its delivery to the sink. `S` is
-- the type of subscriptions and `B` that of bars. The sink is a parameter: `accepts` says of each
-- call, numbered by the rows delivered before it, whether the callback returns.
pub mod Order
pub mod Recovery
pub mod Bound
mod Tests
use librae.Base.{
  ℕ, String, zero, suc, ◌+◌, Bool, true, false, not, ◌&&◌, ◌||◌, Option, none, some, List, [], ◌∷◌,
  ◌++◌, leb, if◌then◌else◌, Eq, ◌==◌, nat_eq, string_eq, is_nil, length,
}
use librae.Core.Events.{RuntimeEvent, decision_skipped, text, number, field, end}

pub record Row (S B : Type 0) : Type 0 where
  pub subscription : S
  pub ts : ℕ
  pub available_at : ℕ
  pub observed_at : ℕ
  pub bar : B

-- `MAX_PENDING_OHLCV` of librae/live/state.py
abbrev pub max_pending : ℕ
max_pending = 2000

-- What an event of a row that is dropped is made of: the fields of a subscription, `isoformat`, and the
-- instants of `utc_now`, numbered by the events before.
pub record Listener (S : Type 0) : Type 0 where
  pub symbol_of : S → String
  pub timeframe_of : S → String
  pub isoformat : ℕ → String
  pub utc_now : ℕ → ℕ

-- The queue, the latch, the events that the callback is given, and the alerts sent.
pub record Queue (S B : Type 0) : Type 0 where
  pub pending : List (Row S B)
  pub degraded : Bool
  pub events : List RuntimeEvent
  pub alerts : ℕ

-- A drain: the calls that the sink took, what is still pending, and the call that it refused.
pub record Drain (S B : Type 0) : Type 0 where
  pub accepted : List (List (Row S B))
  pub pending : List (Row S B)
  pub refused : Option (List (Row S B))

-- What `flush_pending` leaves, with whether `persist` ran.
pub record Flushed (S B : Type 0) : Type 0 where
  pub drain : Drain S B
  pub degraded : Bool
  pub persisted : Bool

module _ {S B : Type 0} where
  abbrev pub dropped_event : Listener S → ℕ → Row S B → RuntimeEvent
  dropped_event listener n row = record {
    ts = listener.utc_now n;
    event_type = decision_skipped;
    symbol = some (listener.symbol_of row.subscription);
    detail = field "reason" (text "ohlcv_audit_delivery_failed") (
        field "timeframe" (text (listener.timeframe_of row.subscription)) (
          field "ts" (text (listener.isoformat row.ts)) (
            field "available_at" (text (listener.isoformat row.available_at))
              (field "pending_bound" (number max_pending) end))));
  }

  -- `if on_runtime_event: on_runtime_event(...)`
  abbrev pub notified : Option (Listener S) → Row S B → List RuntimeEvent → List RuntimeEvent
  notified none row events = events
  notified (some listener) row events = events ++ dropped_event listener (length events) row ∷ []

  -- `_drop_audit_row`
  unfoldable pub drop_audit_row : Option (Listener S) → Row S B → Queue S B → Queue S B
  drop_audit_row on_runtime_event row q = record q {
    events = notified on_runtime_event row q.events;
    degraded = true;
    alerts = if q.degraded then q.alerts else q.alerts + 1;
  }

  -- `_enqueue`, of a row that is built.
  unfoldable pub enqueue : Option (Listener S) → Row S B → Queue S B → Queue S B
  unfolding drop_audit_row
  enqueue on_runtime_event row q =
      if leb max_pending (length q.pending)
      then drop_audit_row on_runtime_event row q
      else record q { pending = q.pending ++ row ∷ [] }

  unfoldable pub enqueue_all : Option (Listener S) → List (Row S B) → Queue S B → Queue S B
  unfolding enqueue
  enqueue_all on_runtime_event [] q = q
  enqueue_all on_runtime_event (row ∷ rows) q =
      enqueue_all on_runtime_event rows (enqueue on_runtime_event row q)

  -- `queue`; `has_sink` is `on_ohlcv is not None`.
  unfoldable pub queue : Option (Listener S) → Bool → Bool → List (Row S B) → Queue S B → Queue S B
  unfolding enqueue_all
  queue on_runtime_event has_sink durable rows q =
      if not has_sink || not durable then q else enqueue_all on_runtime_event rows q

module _ {S B : Type 0} ⦃same : Eq S⦄ where
  -- The rows after the head that one batch takes, in ts order, and the others.
  unfoldable pub batch_rest : S → ℕ → List (Row S B) → List (Row S B) × List (Row S B)
  batch_rest subscription last [] = ([], [])
  batch_rest subscription last (row ∷ rows) =
      let (more, later) = batch_rest subscription row.ts rows in
      if not (row.subscription == subscription) || leb row.ts last
      then ([], row ∷ rows)
      else (row ∷ more, later)

  abbrev pub split_batch : Bool → Row S B → List (Row S B) → List (Row S B) × List (Row S B)
  split_batch true head rest = batch_rest head.subscription head.ts rest
  split_batch false head rest = ([], rest)

module _ {S B : Type 0} ⦃same : Eq S⦄ (accepts : ℕ → List (Row S B) → Bool) (batched : Bool) where
  -- The loop, with fuel for the rows that are left.
  unfoldable pub drain_from : ℕ → ℕ → List (Row S B) → Drain S B
  unfolding batch_rest
  drain_from zero delivered rows = record { accepted = []; pending = rows; refused = none }
  drain_from (suc fuel) delivered [] = record { accepted = []; pending = []; refused = none }
  drain_from (suc fuel) delivered (head ∷ rest) =
      let parts = split_batch batched head rest in
      let later = drain_from fuel (delivered + length (head ∷ parts.0)) parts.1 in
      if accepts delivered (head ∷ parts.0)
      then record later { accepted = (head ∷ parts.0) ∷ later.accepted }
      else record { accepted = []; pending = head ∷ rest; refused = some (head ∷ parts.0) }

  unfoldable pub flush_pending : Bool → Bool → List (Row S B) → Flushed S B
  unfolding drain_from
  flush_pending has_sink degraded pending =
      let d = drain_from (length pending) 0 pending in
      if is_nil pending || not has_sink
      then record {
        drain = record { accepted = []; pending = pending; refused = none };
        degraded = degraded;
        persisted = false;
      }
      else record {
        drain = d;
        degraded = degraded && not (is_nil d.pending);
        persisted = not (is_nil d.accepted);
      }
