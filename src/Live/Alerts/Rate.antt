-- ===== src/Live/Alerts/Rate.antt =====
-- How often a problem that keeps firing alerts.
use librae.Base.{
  ℕ, ◌+◌, ◌-◌, ◌*◌, ◌≤◌, ◌≡◌, refl, false, some, List, [], ◌∷◌, String, Eq, ◌==◌, string_eq, inl,
  inr, Bool-cases, max, ltb, length, length-append, lookup, arith, lookup-insert_self, Option-cases,
  true,
}
use librae.Live.Alerts.{
  repeat_interval, Open, Alerts, opened, seen_again, still_text, fire_new, fire_open, fire,
}

module _ {K : Type 0} ⦃e : Eq K⦄ (key : K) (title content : String) where
  -- Firings of one problem in turn, each at an instant and with a message of its own.
  abbrev pub fire_run : List (ℕ × String) → Alerts K → Alerts K
  fire_run [] a = a
  fire_run ((now, message) ∷ rest) a = fire_run rest (fire key title message (some content) now a)

  -- After a firing the problem is open with this content, alerts sent a repeat interval apart.
  abbrev Paced : Alerts K → ℕ → ℕ → Alerts K → Type 0
  Paced a since now b =
      (p : Open) × (lookup key b.problems ≡ some p)
      × (p.content ≡ content)
      × (length b.sent * repeat_interval + since ≤ length a.sent * repeat_interval + p.notified_at)
      × (p.notified_at ≤ max since now)

  fire_open-Paced :
      (message : String) (now : ℕ) (p : Open) (a : Alerts K)
      → p.content ≡ content
      → Paced a p.notified_at now (fire_open key title message now p a)
  unfolding fire_open
  fire_open-Paced message now p a same =
      elim (Bool-cases (ltb (now - p.notified_at) repeat_interval)) [
        | inl early ↦ (
          seen_again message p,
          rw early (lookup-insert_self key (seen_again message p) a.problems),
          same,
          rw early (omega arith),
          omega arith,
        )
        | inr due ↦ (
          again p,
          rw due (lookup-insert_self key (again p) a.problems),
          same,
          rw due (
              omega (
                arith,
                length-append a.sent (alert (seen_again message p) ∷ []),
                late p.notified_at due,
              )),
          omega arith,
        )
      ]
    where
      again : Open → Open
      again q = record (seen_again message q) { notified_at = now }

      alert : Open → String × String
      alert q = (title, still_text message now q)

      late : (n : ℕ) → ltb (now - n) repeat_interval ≡ false → n + repeat_interval ≤ now
      late n h = ground arith

  -- The first firing may alert at once.
  abbrev Started : Alerts K → ℕ → Alerts K → Type 0
  Started a now b =
      (p : Open) × (lookup key b.problems ≡ some p)
      × (p.content ≡ content)
      × (length b.sent * repeat_interval + now
          ≤ length a.sent * repeat_interval + repeat_interval + p.notified_at)
      × (length b.sent * repeat_interval ≤ length a.sent * repeat_interval + repeat_interval)

  fire_new-Started :
      (message : String) (now : ℕ) (a : Alerts K)
      → Started a now (fire_new key title message content now a)
  unfolding fire_new
  fire_new-Started message now a = (
    opened title message content now,
    lookup-insert_self key (opened title message content now) a.problems,
    refl,
    omega (arith, length-append a.sent ((title, message) ∷ [])),
    omega (arith, length-append a.sent ((title, message) ∷ [])),
  )

  fire_open-Started :
      (message : String) (now : ℕ) (p : Open) (a : Alerts K)
      → p.content ≡ content
      → Started a now (fire_open key title message now p a)
  unfolding fire_open
  fire_open-Started message now p a same =
      elim (Bool-cases (ltb (now - p.notified_at) repeat_interval)) [
        | inl early ↦ (
          seen_again message p,
          rw early (lookup-insert_self key (seen_again message p) a.problems),
          same,
          rw early (omega (arith, soon p.notified_at early)),
          rw early (omega arith),
        )
        | inr due ↦ (
          again p,
          rw due (lookup-insert_self key (again p) a.problems),
          same,
          rw due (omega (arith, length-append a.sent (alert (seen_again message p) ∷ []))),
          rw due (omega (arith, length-append a.sent (alert (seen_again message p) ∷ []))),
        )
      ]
    where
      again : Open → Open
      again q = record (seen_again message q) { notified_at = now }

      alert : Open → String × String
      alert q = (title, still_text message now q)

      soon : (n : ℕ) → ltb (now - n) repeat_interval ≡ true → now ≤ n + repeat_interval
      soon n h = ground arith

  fire-Started :
      (message : String) (now : ℕ) (a : Alerts K)
      → Started a now (fire key title message (some content) now a)
  unfolding fire
  fire-Started message now a = elim (Option-cases (lookup key a.problems)) [
    | inl new ↦ rw (new, fire) (fire_new-Started message now a)
    | inr (p, old) ↦ elim (Bool-cases (p.content == content)) [
      | inr other ↦ rw (old, fire, other) (fire_new-Started message now a)
      | inl same ↦
          rw (old, fire, same)
            (fire_open-Started message now p a ((string_eq.beq_iff p.content content).0 same))
    ]
  ]

  fire-Paced :
      (message : String) (now : ℕ) (p : Open) (a : Alerts K)
      → lookup key a.problems ≡ some p
      → p.content ≡ content
      → Paced a p.notified_at now (fire key title message (some content) now a)
  unfolding fire
  fire-Paced message now p a at_key same =
      let equal = (string_eq.beq_iff p.content content).1 same in
      rw (at_key, fire, equal) (fire_open-Paced message now p a same)

-- The instants of the firings rise.
abbrev pub Ascending : ℕ → List (ℕ × String) → Type 0
Ascending start [] = Unit
Ascending start ((now, message) ∷ rest) = (start ≤ now) × Ascending now rest

abbrev pub last_of : ℕ → List (ℕ × String) → ℕ
last_of start [] = start
last_of start ((now, message) ∷ rest) = last_of now rest

last_of-le :
    (start : ℕ) (fires : List (ℕ × String)) → Ascending start fires → start ≤ last_of start fires
last_of-le start [] h = omega arith
last_of-le start ((now, message) ∷ rest) h = omega (arith, last_of-le now rest h.1)

module _ {K : Type 0} ⦃e : Eq K⦄ (key : K) (title content : String) where
  run-Paced :
      (fires : List (ℕ × String)) (p : Open) (a : Alerts K) (start : ℕ)
      → lookup key a.problems ≡ some p
      → p.content ≡ content
      → Ascending start fires
      → length (fire_run key title content fires a).sent * repeat_interval + p.notified_at
        ≤ length a.sent * repeat_interval + max p.notified_at (last_of start fires)
  run-Paced [] p a start at_key same order = omega arith
  run-Paced ((now, message) ∷ rest) p a start at_key same order =
      let (q, at_q, same_q, pace, upper) =
        fire-Paced key title content message now p a at_key same in
      omega (
        arith,
        run-Paced rest q (fire key title message (some content) now a) now at_q same_q order.1,
        last_of-le now rest order.1,
        pace,
        upper,
      )

  -- However often one problem fires with the same content, at rising instants from `now` on, and
  -- whatever was open or sent before, the alerts that the firings send are at most one, and one
  -- more for each whole repeat interval between the first firing and the last.
  pub alert_rate :
      (now : ℕ) (message : String) (rest : List (ℕ × String)) (a : Alerts K)
      → Ascending now rest
      → length (fire_run key title content ((now, message) ∷ rest) a).sent * repeat_interval + now
        ≤ length a.sent * repeat_interval + repeat_interval + last_of now rest
  alert_rate now message rest a order =
      let (q, at_q, same_q, pace, upper) = fire-Started key title content message now a in
      omega (
        arith,
        run-Paced rest q (fire key title message (some content) now a) now at_q same_q order,
        last_of-le now rest order,
        pace,
        upper,
      )
