-- ===== src/Live/Alerts/Tests.antt =====
-- Runs of the alerts on small inputs, and the theorems at such inputs.
use librae.Live.Alerts.{
  Open, Alerts, fire, clear, retain, still_text, resolved_text, repeat_interval,
}
use librae.Live.Alerts.Rate.{fire_run, alert_rate}
use librae.Live.Alerts.Holding.{clear_run, hold_down}
use librae.Live.Alerts.Keys.{retain-lookup}
use librae.Live.Alerts.Text.{duration, times}
use librae.Base.{
  ◌+◌, ◌*◌, ◌≤◌, String, ◌≡◌, refl, none, some, [], ◌∷◌, ◌++◌, arith, if◌then◌else◌, lookup, insert,
  length, mem, string_eq,
}

abbrev idle : Alerts String
idle = record { problems = []; sent = [] }

abbrev late_order : Open
late_order = record {
  title = "Order late";
  message = "order 7";
  content = "order 7";
  since = 5;
  notified_at = 5;
  seen = 1;
  clear_since = none;
}

abbrev one_open : Alerts String
one_open = record { problems = ("order", late_order) ∷ []; sent = ("Order late", "order 7") ∷ [] }

-- An hour and a minute after its first alert the problem alerts again, with how long it has lasted.
fire_repeat :
    (fire "order" "Order late" "order 7" none 3660000005 one_open).sent
    ≡ one_open.sent ++ ("Order late", "order 7 — still so after 1h 1m, seen 2 times") ∷ []
unfolding fire lookup insert still_text duration times
fire_repeat = refl

fire_opens : fire "order" "Order late" "order 7" none 5 idle ≡ one_open
unfolding fire lookup insert
fire_opens = refl

alert_rate_example :
    length (fire_run "order" "Order late" "c" ((10, "m") ∷ (20, "m") ∷ []) idle).sent
        * repeat_interval
      + 10
    ≤ 0 * repeat_interval + repeat_interval + 20
alert_rate_example = alert_rate "order" "Order late" "c" 10 "m" ((20, "m") ∷ []) idle (omega arith)

hold_down_example :
    let held = clear_run "order" (100 ∷ 200 ∷ []) one_open in
    (held.sent ≡ one_open.sent)
    × (lookup "order" held.problems ≡ some (record late_order { clear_since = some 100 }))
    × (lookup "order" (clear "order" 4000000000 held).problems ≡ none)
    × ((clear "order" 4000000000 held).sent
        ≡ one_open.sent
          ++ ("Resolved", resolved_text 100 (record late_order { clear_since = some 100 })) ∷ [])
unfolding lookup
hold_down_example =
    hold_down "order" 100 4000000000 (200 ∷ []) late_order one_open refl refl (omega arith)
      (omega arith)

retain-lookup_example :
    lookup "order" (retain ("fill" ∷ []) 9 one_open).problems
    ≡ (if mem {A = String} "order" ("fill" ∷ []) then lookup "order" one_open.problems else none)
retain-lookup_example = retain-lookup ("fill" ∷ []) "order" 9 one_open
