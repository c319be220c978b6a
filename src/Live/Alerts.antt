-- ===== src/Live/Alerts.antt =====
-- librae/live/persistent_alerts.py: alerts for a problem that is seen again cycle after cycle.
-- Instants and lengths of time are microseconds. A difference of instants that Python computes is
-- only compared with a positive interval or cut off at zero, so `-` on ℕ gives the same answers.
mod Text
pub mod Rate
pub mod Holding
pub mod Keys
mod Tests
use librae.Base.{
  ℕ, ◌+◌, ◌-◌, Bool, true, false, Option, none, some, List, [], ◌∷◌, ◌++◌, String, Eq, ◌==◌, not,
  ltb, leb, string_eq, mem, select, map, if◌then◌else◌, Dict, lookup, insert, erase,
}
use Text.{duration, times, joined}

-- `REPEAT_INTERVAL`, one hour.
abbrev pub repeat_interval : ℕ
repeat_interval = 3600000000

-- `_Open`
pub record Open : Type 0 where
  pub title : String
  pub message : String
  pub content : String
  pub since : ℕ
  pub notified_at : ℕ
  pub seen : ℕ
  pub clear_since : Option ℕ

-- `PersistentAlerts`: the open problems, and the calls of `_send` so far, title and message.
pub record Alerts (K : Type 0) : Type 0 where
  pub problems : Dict K Open
  pub sent : List (String × String)

module _ {K : Type 0} where
  -- `_deliver`: a failure of the send is swallowed, so it leaves no other trace.
  pub deliver : String → String → Alerts K → Alerts K
  deliver title message a = record a { sent = a.sent ++ (title, message) ∷ [] }

-- A firing of a problem that is not yet open with this content.
pub opened : String → String → String → ℕ → Open
opened title message content now = record {
  title = title;
  message = message;
  content = content;
  since = now;
  notified_at = now;
  seen = 1;
  clear_since = none;
}

-- The bookkeeping that `fire` does on a problem that is open with the same content.
pub seen_again : String → Open → Open
seen_again message p = record p { seen = p.seen + 1; message = message; clear_since = none }

pub still_text : String → ℕ → Open → String
still_text message now p =
    joined
      (message ∷ " — still so after " ∷ duration (now - p.since) ∷ ", seen " ∷ times p.seen ∷ [])

-- `problem.clear_since or self._clock()`; no instant is false in Python.
pub ended : Option ℕ → ℕ → ℕ
ended none now = now
ended (some t) now = t

pub resolved_text : ℕ → Open → String
resolved_text at p = joined (
    p.title
    ∷ " cleared after "
    ∷ duration (at - p.since)
    ∷ ", seen "
    ∷ times p.seen
    ∷ "; last: "
    ∷ p.message
    ∷ [])

module _ {K : Type 0} ⦃e : Eq K⦄ where
  pub put : K → Open → Alerts K → Alerts K
  put key p a = record a { problems = insert key p a.problems }

  fire_new : K → String → String → String → ℕ → Alerts K → Alerts K
  unfolding deliver opened put
  fire_new key title message content now a =
      deliver title message (put key (opened title message content now) a)

  fire_open : K → String → String → ℕ → Open → Alerts K → Alerts K
  unfolding deliver seen_again put
  fire_open key title message now old a =
      let p = seen_again message old in
      if ltb (now - p.notified_at) repeat_interval
      then put key p a
      else deliver title (still_text message now p) (put key (record p { notified_at = now }) a)

  pub fire : K → String → String → Option String → ℕ → Alerts K → Alerts K
  unfolding fire_new fire_open
  fire key title message content now a =
      let c : String = elim content [ none ↦ message | some text ↦ text ] in
      elim (lookup key a.problems) [
        | none ↦ fire_new key title message c now a
        | some p ↦
            if p.content == c
            then fire_open key title message now p a
            else fire_new key title message c now a
      ]

  pub hold : K → Alerts K → Alerts K
  unfolding put
  hold key a = elim (lookup key a.problems) [
    | none ↦ a
    | some p ↦ put key (record p { clear_since = none }) a
  ]

  pub resolve : K → ℕ → Alerts K → Alerts K
  unfolding deliver ended
  resolve key now a = elim (lookup key a.problems) [
    | none ↦ a
    | some p ↦
        deliver "Resolved" (resolved_text (ended p.clear_since now) p)
          (record a { problems = erase key a.problems })
  ]

  pub clear : K → ℕ → Alerts K → Alerts K
  unfolding put resolve
  clear key now a = elim (lookup key a.problems) [
    | none ↦ a
    | some p ↦ elim p.clear_since [
      | none ↦ put key (record p { clear_since = some now }) a
      | some t ↦ if leb repeat_interval (now - t) then resolve key now a else a
    ]
  ]

  -- One round of the loop of `retain`, for a key that is not retained.
  pub drop_key : K → ℕ → Alerts K → Alerts K
  unfolding resolve
  drop_key key now a = elim (lookup key a.problems) [
    | none ↦ a
    | some p ↦ elim p.clear_since [
      | none ↦ record a { problems = erase key a.problems }
      | some _ ↦ resolve key now a
    ]
  ]

  pub drop_all : List K → ℕ → Alerts K → Alerts K
  drop_all [] now a = a
  drop_all (k ∷ ks) now a = drop_all ks now (drop_key k now a)

  pub retain : List K → ℕ → Alerts K → Alerts K
  unfolding drop_all
  retain keys now a =
      drop_all (select (λ k. not (mem k keys)) (map (λ (entry : K × Open). entry.0) a.problems)) now
        a
