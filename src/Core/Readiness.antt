-- ===== src/Core/Readiness.antt =====
-- librae/core/readiness.py: whether the latest observation of a subscription is current. Instants and spans
-- are numbers of microseconds, and a calendar's `ValueError` is none.
use librae.Base.{
  ℕ, ◌+◌, ◌*◌, Bool, true, false, not, ◌&&◌, Option, none, some, ltb, leb, if◌then◌else◌,
}
use librae.Core.Intents.{is_some}

-- What librae/core/trading_calendar.py and librae/core/utils.py answer for one calendar and timeframe.
pub record Calendar : Type 0 where
  pub period_close : ℕ → Option ℕ
  pub period_start : ℕ → Option ℕ
  pub next_segment_open_after : ℕ → Option ℕ
  pub interval : ℕ

pub record ObservationStatus : Type 0 where
  pub fresh : Bool
  pub expected_close : Option ℕ
  pub due_at : Option ℕ
  pub calendar_anchored : Bool

abbrev pub bind : {A B : Type 0} → Option A → (A → Option B) → Option B
bind none f = none
bind (some a) f = f a

-- The close of the period that begins where the next segment opens.
abbrev pub next_segment_close : Calendar → ℕ → Option ℕ
next_segment_close calendar t =
    bind (calendar.next_segment_open_after t) (λ start. calendar.period_close start)

abbrev pub later_close : Calendar → ℕ → Option ℕ → Option ℕ
later_close calendar current none = none
later_close calendar current (some expected) =
    if ltb current expected then some expected else next_segment_close calendar current

abbrev pub close_after : Calendar → ℕ → Option ℕ → Option ℕ
close_after calendar current none = next_segment_close calendar current
close_after calendar current (some start) =
    later_close calendar current (calendar.period_close start)

abbrev pub close_from : Calendar → ℕ → Option ℕ → Option ℕ
close_from calendar last_ts none = next_segment_close calendar last_ts
close_from calendar last_ts (some current) =
    close_after calendar current (calendar.period_start current)

unfoldable pub next_expected_close : Calendar → ℕ → Option ℕ
next_expected_close calendar last_ts = close_from calendar last_ts (calendar.period_close last_ts)

abbrev pub status_at : ℕ → ℕ → ℕ → Bool → ObservationStatus
status_at as_of grace expected anchored = record {
  fresh = leb as_of (expected + grace);
  expected_close = some expected;
  due_at = some (expected + grace);
  calendar_anchored = anchored;
}

abbrev pub status_from : Calendar → ℕ → ℕ → ℕ → Option ℕ → ObservationStatus
status_from calendar as_of grace last_ts (some expected) = status_at as_of grace expected true
status_from calendar as_of grace last_ts none =
    status_at as_of grace (last_ts + 2 * calendar.interval) false

unfoldable pub evaluate_observation : Calendar → ℕ → ℕ → Option ℕ → ObservationStatus
unfolding next_expected_close
evaluate_observation calendar as_of grace none = record {
  fresh = false;
  expected_close = none;
  due_at = none;
  calendar_anchored = true;
}
evaluate_observation calendar as_of grace (some last_ts) =
    status_from calendar as_of grace last_ts (next_expected_close calendar last_ts)

-- `late`
abbrev pub is_late : ObservationStatus → Bool
is_late status = not status.fresh && is_some status.due_at
