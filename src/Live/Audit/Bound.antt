-- ===== src/Live/Audit/Bound.antt =====
-- The queue stays in its bound, and what does not fit is dropped and told to the callback.
use mathlib.Core.List.{append_assoc, append-nil}
use librae.Base.{
  refl, length-append, ℕ, ◌+◌, ◌≤◌, ◌≡◌, Bool, true, false, Option, none, some, List, [], ◌∷◌, ◌++◌,
  length, arith, sym, if◌then◌else◌, leb, Bool-cases, ◌∙◌, inl, ap, inr, length-append, ◌⊎◌,
}
use librae.Live.Audit.{
  Row, Queue, Listener, dropped_event, notified, max_pending, drop_audit_row, enqueue_all, queue,
}
use librae.Core.Events.{RuntimeEvent}

abbrev pub alerted : {A : Type 0} → Bool → List A → ℕ
alerted true dropped = 0
alerted false [] = 0
alerted false (_ ∷ _) = 1

alerts-nil : (A : Type 0) (degraded : Bool) (n : ℕ) → n ≡ n + alerted {A = A} degraded []
alerts-nil A true n = omega arith
alerts-nil A false n = omega arith

alerts-cons :
    {A : Type 0} (row : A) (degraded : Bool) (n : ℕ) (rows : List A)
    → (if degraded then n else n + 1) + alerted true rows ≡ n + alerted degraded (row ∷ rows)
alerts-cons row true n rows = omega arith
alerts-cons row false n rows = omega arith

module _ {S B : Type 0} (on_runtime_event : Option (Listener S)) where
  -- The events of the rows that are dropped after `n` others: one each where there is a callback.
  abbrev pub emitted : Option (Listener S) → ℕ → List (Row S B) → List RuntimeEvent
  emitted none n rows = []
  emitted (some listener) n [] = []
  emitted (some listener) n (row ∷ rows) =
      dropped_event listener n row ∷ emitted (some listener) (n + 1) rows

  emitted-cons :
      (callback : Option (Listener S)) (row : Row S B) (rows : List (Row S B))
      (events : List RuntimeEvent)
      → notified callback row events
          ++ emitted callback (length (notified callback row events)) rows
        ≡ events ++ emitted callback (length events) (row ∷ rows)
  emitted-cons none row rows events = refl
  emitted-cons (some listener) row rows events =
      append_assoc events (dropped_event listener (length events) row ∷ []) _
      ∙ ap
          (λ n.
            events ++ dropped_event listener (length events) row ∷ emitted (some listener) n rows)
          (length-append events (dropped_event listener (length events) row ∷ []))

  no_events_for :
      (callback : Option (Listener S)) (q : Queue S B)
      → q.events ≡ q.events ++ emitted callback (length q.events) []
  no_events_for none q = sym (append-nil q.events)
  no_events_for (some listener) q = sym (append-nil q.events)

  -- What a queue has become after some rows.
  abbrev pub Queued : Queue S B → List (Row S B) → Queue S B → Type 0
  Queued q rows after =
      (kept : List (Row S B)) × (dropped : List (Row S B)) × (kept ++ dropped ≡ rows)
      × (after.pending ≡ q.pending ++ kept)
      × (after.events ≡ q.events ++ emitted on_runtime_event (length q.events) dropped)
      × (length after.pending ≤ max_pending)
      × ((dropped ≡ []) ⊎ (length after.pending ≡ max_pending))
      × (after.alerts ≡ q.alerts + alerted q.degraded dropped)

  enqueue_all-full :
      (rows : List (Row S B)) (q : Queue S B)
      → length q.pending ≡ max_pending
      → (enqueue_all on_runtime_event rows q).pending ≡ q.pending
        × ((enqueue_all on_runtime_event rows q).events
            ≡ q.events ++ emitted on_runtime_event (length q.events) rows)
        × ((enqueue_all on_runtime_event rows q).alerts ≡ q.alerts + alerted q.degraded rows)
  unfolding enqueue_all
  enqueue_all-full [] q full =
      (refl, no_events_for on_runtime_event q, alerts-nil (Row S B) q.degraded q.alerts)
  enqueue_all-full (row ∷ rows) q full =
      let at_bound : leb max_pending (length q.pending) ≡ true = ground arith in
      let (pending, events, alerts) =
        enqueue_all-full rows (drop_audit_row on_runtime_event row q) (rw full) in
      rw (at_bound, enqueue_all)
        (
          pending,
          events ∙ emitted-cons on_runtime_event row rows q.events,
          alerts ∙ alerts-cons row q.degraded q.alerts rows,
        )

  enqueue_all-Queued :
      (rows : List (Row S B)) (q : Queue S B)
      → length q.pending ≤ max_pending
      → Queued q rows (enqueue_all on_runtime_event rows q)
  unfolding enqueue_all
  enqueue_all-Queued [] q bound = (
    [],
    [],
    refl,
    sym (append-nil q.pending),
    no_events_for on_runtime_event q,
    bound,
    inl refl,
    alerts-nil (Row S B) q.degraded q.alerts,
  )
  enqueue_all-Queued (row ∷ rows) q bound = elim (Bool-cases (leb max_pending (length q.pending))) [
    | inl full ↦
        let at_bound : length q.pending ≡ max_pending = ground arith in
        let (pending, events, alerts) = enqueue_all-full (row ∷ rows) q at_bound in
        (
          [],
          row ∷ rows,
          refl,
          pending ∙ sym (append-nil q.pending),
          events,
          omega (arith, ap (λ l. length l) pending, at_bound),
          inr (ap (λ l. length l) pending ∙ at_bound),
          alerts,
        )
    | inr room ↦
        let q' : Queue S B = record q { pending = q.pending ++ row ∷ [] } in
        let fits : length (q.pending ++ row ∷ []) ≤ max_pending =
          ground (arith, length-append q.pending (row ∷ [])) in
        let (kept, dropped, joined, pending, lost, bounded, reached, alerts) =
          enqueue_all-Queued rows q' fits in
        rw (room, enqueue_all)
          (
            row ∷ kept,
            dropped,
            ap (λ l. row ∷ l) joined,
            pending ∙ append_assoc q.pending (row ∷ []) kept,
            lost,
            bounded,
            reached,
            alerts,
          )
  ]

  -- Rows that are offered to a durable sink's queue within its bound: the first of them are appended
  -- in order, the others are dropped, in order, and the callback, where there is one, is given an event of
  -- each; the queue stays within the bound
  -- of 2,000 rows, which it has reached if any row is dropped; and one alert is sent if a row is
  -- dropped and the latch was not set, none otherwise.
  pub queue-Queued :
      (rows : List (Row S B)) (q : Queue S B)
      → length q.pending ≤ max_pending
      → Queued q rows (queue on_runtime_event true true rows q)
  unfolding queue
  queue-Queued = enqueue_all-Queued
