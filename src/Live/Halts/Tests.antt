-- ===== src/Live/Halts/Tests.antt =====
-- A position in BTC that was observed in time.
use librae.Base.{
  refl, sorted_set, ℕ, ◌+◌, ◌≡◌, refl, ◌↔◌, true, some, List, [], ◌∷◌, lookup, All, mem,
}
use librae.Core.Readiness.{Calendar, evaluate_observation}
use librae.Live.Halts.{Marks, evaluate_reset_readiness}
use librae.Live.Halts.Ready.{IsValued, evaluate_reset_readiness-ready_iff}

abbrev hourly : Calendar
hourly = record {
  period_close = λ t. some (t + 60);
  period_start = λ t. some t;
  next_segment_open_after = λ t. some t;
  interval = 60;
}

abbrev marks : Marks Calendar
marks = record {
  last_prices = "BTC" ∷ [];
  last_bar_ts = ("BTC", 100) ∷ [];
  subscriptions = ("BTC", hourly) ∷ [];
  now = 225;
  staleness_grace = λ _. 10;
  calendar_of = λ calendar. calendar;
}

abbrev no_orders : List ℕ
no_orders = []

evaluate_reset_readiness-ready_iff_example :
    ((evaluate_reset_readiness marks true no_orders ("BTC" ∷ [])).ready ≡ true)
    ↔ ((true ≡ true) × (no_orders ≡ []) × All (IsValued marks) (sorted_set ("BTC" ∷ [])))
evaluate_reset_readiness-ready_iff_example =
    evaluate_reset_readiness-ready_iff marks true no_orders ("BTC" ∷ [])

resets : (evaluate_reset_readiness marks true no_orders ("BTC" ∷ [])).ready ≡ true
unfolding evaluate_reset_readiness evaluate_observation lookup mem
resets = refl
