-- ===== src/Live/Audit/Tests.antt =====
-- Three rows of two subscriptions, offered to a sink that takes the first call only.
use librae.Base.{
  ℕ, ◌+◌, String, ◌≡◌, refl, Bool, true, false, List, [], ◌∷◌, ◌++◌, arith, nat_beq, All, string_eq,
  ◌⊎◌, none, some, length, zero, suc, map,
}
use librae.Core.Events.{RuntimeEvent}
use librae.Live.Audit.{
  Row, Queue, Listener, max_pending, drop_audit_row, queue, flush_pending, drain_from,
}
use librae.Live.Audit.Order.{concat, IsBatch, Ended, flush_pending-Drained}
use librae.Live.Audit.Recovery.{flush_pending-recovers, drain_from-enough}
use librae.Live.Audit.Bound.{Queued, queue-Queued}

abbrev row_at : String → ℕ → Row String ℕ
row_at symbol ts = record {
  subscription = symbol;
  ts = ts;
  available_at = ts;
  observed_at = ts + 1;
  bar = 100;
}

unfoldable repeated : {A : Type 0} → ℕ → A → List A
repeated zero a = []
repeated (suc n) a = a ∷ repeated n a

length-repeated : {A : Type 0} (n : ℕ) (a : A) → length (repeated n a) ≡ n
unfolding repeated
length-repeated zero a = refl
length-repeated (suc n) a = omega (arith, length-repeated n a)

abbrev three_rows : List (Row String ℕ)
three_rows = row_at "BTC" 1 ∷ row_at "BTC" 2 ∷ row_at "ETH" 2 ∷ []

abbrev first_call : ℕ → List (Row String ℕ) → Bool
first_call delivered batch = nat_beq delivered 0

flush_pending-Drained_example :
    let d = (flush_pending first_call true true true three_rows).drain in
    (concat d.accepted ++ d.pending ≡ three_rows)
    × All IsBatch d.accepted
    × Ended d.pending d.refused
flush_pending-Drained_example = flush_pending-Drained first_call true true three_rows

takes_two : (flush_pending first_call true true true three_rows).drain.pending ≡ row_at "ETH" 2 ∷ []
unfolding flush_pending
takes_two = refl

abbrev empty_queue : Queue String ℕ
empty_queue = record { pending = []; degraded = false; events = []; alerts = 0 }

abbrev full_queue : Queue String ℕ
full_queue = record empty_queue { pending = repeated max_pending (row_at "BTC" 0) }

abbrev listener : Listener String
listener = record {
  symbol_of = λ s. s;
  timeframe_of = λ s. "1h";
  isoformat = λ ts. "1970";
  utc_now = λ n. n + 50;
}

queue-Queued_example :
    Queued
      (some listener)
      full_queue
      three_rows
      (queue (some listener) true true three_rows full_queue)
queue-Queued_example =
    queue-Queued (some listener) three_rows full_queue
      (omega (arith, length-repeated max_pending (row_at "BTC" 0)))

two_events :
    map
      (λ (e : RuntimeEvent). e.ts)
      (drop_audit_row
        (some listener)
        (row_at "ETH" 2)
        (drop_audit_row (some listener) (row_at "BTC" 1) empty_queue)).events
    ≡ 50 ∷ 51 ∷ []
unfolding drop_audit_row
two_events = refl

unheard : (drop_audit_row none (row_at "BTC" 1) empty_queue).events ≡ []
unfolding drop_audit_row
unheard = refl

abbrev every_call : ℕ → List (Row String ℕ) → Bool
every_call delivered batch = true

flush_pending-recovers_example :
    let flushed = flush_pending every_call true true true three_rows in
    (flushed.drain.pending ≡ [])
    × (concat flushed.drain.accepted ≡ three_rows)
    × ((three_rows ≡ []) ⊎ (flushed.degraded ≡ false))
flush_pending-recovers_example =
    flush_pending-recovers every_call true true three_rows (λ n batch. refl)

drain_from-enough_example :
    drain_from first_call true 3 0 three_rows ≡ drain_from first_call true 9 0 three_rows
drain_from-enough_example =
    drain_from-enough first_call true 3 9 0 three_rows (omega arith) (omega arith)
