-- ===== src/Live/Alerts/Holding.antt =====
-- The hold-down before a resolution.
use librae.Base.{
  ℕ, ◌+◌, ◌-◌, ◌≤◌, ◌<◌, ◌≡◌, refl, true, false, none, some, List, [], ◌∷◌, ◌++◌, Eq, string_eq,
  leb, All, if◌then◌else◌, lookup, insert, erase, lookup-insert_self, lookup-erase, ==_refl, arith,
  ap, ◌∙◌,
}
use librae.Live.Alerts.{
  repeat_interval, Open, Alerts, deliver, resolved_text, put, resolve, clear, ended,
}

module _ {K : Type 0} ⦃e : Eq K⦄ (key : K) where
  -- The problem is seen clear at one instant after another.
  abbrev pub clear_run : List ℕ → Alerts K → Alerts K
  clear_run [] a = a
  clear_run (now ∷ rest) a = clear_run rest (clear key now a)

  clear_first :
      (now : ℕ) (p : Open) (a : Alerts K)
      → lookup key a.problems ≡ some p
      → p.clear_since ≡ none
      → clear key now a ≡ put key (record p { clear_since = some now }) a
  unfolding clear
  clear_first now p a at_key fresh = rw (at_key, clear) (rw (fresh, clear))

  clear_early :
      (start now : ℕ) (p : Open) (a : Alerts K)
      → lookup key a.problems ≡ some p
      → p.clear_since ≡ some start
      → now < start + repeat_interval
      → clear key now a ≡ a
  unfolding clear
  clear_early start now p a at_key since early =
      let test : leb repeat_interval (now - start) ≡ false = before start now early in
      rw (at_key, clear) (rw (since, clear) (rw test))
    where
      before : (s t : ℕ) → t < s + repeat_interval → leb repeat_interval (t - s) ≡ false
      before s t h = ground arith

  resolve_clear :
      (start now : ℕ) (p : Open) (a : Alerts K)
      → lookup key a.problems ≡ some p
      → p.clear_since ≡ some start
      → resolve key now a
        ≡ deliver "Resolved" (resolved_text start p) (record a { problems = erase key a.problems })
  unfolding resolve
  resolve_clear start now p a at_key since =
      rw (at_key, resolve)
        (ap
          (λ c.
            deliver "Resolved" (resolved_text (ended c now) p)
              (record a { problems = erase key a.problems }))
          since)

  clear_due :
      (start now : ℕ) (p : Open) (a : Alerts K)
      → lookup key a.problems ≡ some p
      → p.clear_since ≡ some start
      → start + repeat_interval ≤ now
      → clear key now a
        ≡ deliver "Resolved" (resolved_text start p) (record a { problems = erase key a.problems })
  unfolding clear
  clear_due start now p a at_key since due =
      let test : leb repeat_interval (now - start) ≡ true = after start now due in
      rw (at_key, clear)
        (ap
            (λ c. elim c [
              | none ↦ put key (record p { clear_since = some now }) a
              | some t ↦ if leb repeat_interval (now - t) then resolve key now a else a
            ])
            since
          ∙ rw test (resolve_clear start now p a at_key since))
    where
      after : (s t : ℕ) → s + repeat_interval ≤ t → leb repeat_interval (t - s) ≡ true
      after s t h = ground arith

  clears_early :
      (start : ℕ) (times : List ℕ) (p : Open) (a : Alerts K)
      → lookup key a.problems ≡ some p
      → p.clear_since ≡ some start
      → All (λ now. now < start + repeat_interval) times
      → clear_run times a ≡ a
  clears_early start [] p a at_key since early = refl
  clears_early start (now ∷ times) p a at_key since early =
      rw (clear_early start now p a at_key since early.0)
        (clears_early start times p a at_key since early.1)

  -- A problem that is open, and was not seen clear since it last fired, is seen clear at `start`
  -- and then at any instants less than a repeat interval after that: nothing is sent, and it stays
  -- open, clear since `start`. The next time it is seen clear, a repeat interval or more after
  -- `start`, it is closed and one alert says so.
  pub hold_down :
      (start now : ℕ) (times : List ℕ) (p : Open) (a : Alerts K)
      → lookup key a.problems ≡ some p
      → p.clear_since ≡ none
      → All (λ t. t < start + repeat_interval) times
      → start + repeat_interval ≤ now
      → let held = clear_run (start ∷ times) a in
        (held.sent ≡ a.sent)
        × (lookup key held.problems ≡ some (record p { clear_since = some start }))
        × (lookup key (clear key now held).problems ≡ none)
        × ((clear key now held).sent
            ≡ a.sent
              ++ ("Resolved", resolved_text start (record p { clear_since = some start })) ∷ [])
  unfolding put deliver
  hold_down start now times p a at_key fresh early due =
      let q : Open = record p { clear_since = some start } in
      let stored = lookup-insert_self key q a.problems in
      let early_eq : clear_run (start ∷ times) a ≡ put key q a =
        rw (clear_first start p a at_key fresh)
          (clears_early start times q (put key q a) stored refl early) in
      let due_eq = clear_due start now q (put key q a) stored refl due in
      (
        ap (λ b. b.sent) early_eq,
        ap (λ b. lookup key b.problems) early_eq ∙ stored,
        ap (λ b. lookup key (clear key now b).problems) early_eq
            ∙ ap (λ b. lookup key b.problems) due_eq
            ∙ rw (lookup-erase key key (insert key q a.problems), ==_refl key),
        ap (λ b. (clear key now b).sent) early_eq ∙ ap (λ b. b.sent) due_eq,
      )
