-- ===== src/Core/Events/Related.antt =====
-- What coalescing keeps: one event for each key, and every detail.
use librae.Base.{
  true, false, ◌≡◌, refl, ap, inl, inr, ◌||◌, List, [], ◌∷◌, ◌++◌, map, arith, ltb, if◌then◌else◌,
  Bool-cases, ◌==◌, nat_eq, string_eq, mem, Distinct, Bool,
}
use mathlib.Core.List.{Perm, perm_middle, append-nil, append_assoc, perm_append_comm}
use mathlib.Core.List.Perm
use librae.Core.Events.{
  related_of-put, drop-put-drop, RuntimeEvent, EventKey, key_of, key_eq, key_beq_iff, primary_of,
  related_of, combine, priority, coalesce_runtime_events, Value, Items, nil, item, fields, entries,
  joined_items,
}
use librae.Core.Events.Merged.{merge_into, merged, key_of-combine, coalesce-eq-merged}

abbrev pub keys_of : List RuntimeEvent → List EventKey
keys_of = map key_of

mem-merge_into :
    (k : EventKey) (event : RuntimeEvent) (l : List RuntimeEvent)
    → mem k (keys_of (merge_into event l)) ≡ (key_of event == k || mem k (keys_of l))
unfolding merge_into mem
mem-merge_into k event [] = refl
mem-merge_into k event (x ∷ l) =
    ground (
      arith,
      mem-merge_into k event l,
      key_beq_iff (key_of x) (key_of event),
      key_of-combine x event,
    )

merge_into-Distinct :
    (event : RuntimeEvent) (l : List RuntimeEvent)
    → Distinct (keys_of l)
    → Distinct (keys_of (merge_into event l))
unfolding merge_into mem
merge_into-Distinct event [] h = (refl, tt)
merge_into-Distinct event (x ∷ l) h = ground (
  arith,
  merge_into-Distinct event l h.1,
  mem-merge_into (key_of x) event l,
  key_beq_iff (key_of x) (key_of event),
  key_beq_iff (key_of event) (key_of x),
  key_of-combine x event,
)

merged-Distinct :
    (events l : List RuntimeEvent) → Distinct (keys_of l) → Distinct (keys_of (merged events l))
unfolding merged
merged-Distinct [] l h = h
merged-Distinct (event ∷ events) l h =
    merged-Distinct events (merge_into event l) (merge_into-Distinct event l h)

-- No two of the coalesced events have the same instant, type and symbol.
pub coalesce-Distinct :
    (events : List RuntimeEvent) → Distinct (keys_of (coalesce_runtime_events events))
coalesce-Distinct events = rw (coalesce-eq-merged events) (merged-Distinct events [] tt)

abbrev pub to_list : Items → List Value
to_list nil = []
to_list (item v l) = v ∷ to_list l

to_list-joined : (k l : Items) → to_list (joined_items k l) ≡ to_list k ++ to_list l
unfolding joined_items
to_list-joined nil l = refl
to_list-joined (item v k) l = ap (λ t. v ∷ t) (to_list-joined k l)

-- An event's own detail, and those that it has taken over.
abbrev pub details : RuntimeEvent → List Value
details event = fields (primary_of event.detail) ∷ to_list (related_of event.detail)

abbrev details_if : Bool → RuntimeEvent → List Value
details_if b event = if b then details event else []

-- The details of the events of one key.
pub details_at : EventKey → List RuntimeEvent → List Value
details_at k [] = []
details_at k (x ∷ l) = details_if (key_of x == k) x ++ details_at k l

details-combine :
    (x event : RuntimeEvent) → Perm (details (combine x event)) (details x ++ details event)
unfolding combine
details-combine x event = elim (Bool-cases (ltb (priority x) (priority event))) [
  | inl higher ↦
      let all =
        item (fields (primary_of x.detail))
          (joined_items (related_of x.detail) (related_of event.detail)) in
      rw
        (
          higher,
          related_of-put all (primary_of event.detail),
          drop-put-drop "related_events" (entries all) event.detail,
        )
        (rw (to_list-joined (related_of x.detail) (related_of event.detail)) (
          Perm.symm (
            perm_middle (fields (primary_of x.detail) ∷ to_list (related_of x.detail))
              (to_list (related_of event.detail)))))
  | inr other ↦
      let all =
        joined_items (related_of x.detail)
          (item (fields (primary_of event.detail)) (related_of event.detail)) in
      rw
        (
          other,
          related_of-put all (primary_of x.detail),
          drop-put-drop "related_events" (entries all) x.detail,
        )
        (rw
          (to_list-joined (related_of x.detail)
            (item (fields (primary_of event.detail)) (related_of event.detail)))
          (Perm.refl _))
]

-- One more event of the key, beside those in front of it.
regroup :
    (x y both rest : List Value)
    → Perm both (x ++ y)
    → Perm (both ++ rest) ((x ++ rest) ++ (y ++ []))
regroup x y both rest h =
    Perm.trans (Perm.append_right rest h)
      (simp (append-nil, append_assoc) (Perm.append_left x (perm_append_comm y rest)))

details_at-merge_into :
    (k : EventKey) (event : RuntimeEvent) (l : List RuntimeEvent)
    → Perm (details_at k (merge_into event l)) (details_at k l ++ details_at k (event ∷ []))
unfolding details_at merge_into
details_at-merge_into k event [] = Perm.refl _
details_at-merge_into k event (x ∷ l) = elim (Bool-cases (key_of x == key_of event)) [
  | inr other ↦
      rw (other, append_assoc)
        (Perm.append_left (details_if (key_of x == k) x) (details_at-merge_into k event l))
  | inl same ↦
      let e = (key_beq_iff (key_of x) (key_of event)).0 same in
      rw (same, key_of-combine x event e, e)
        (regroup (details_if (key_of event == k) x) (details_if (key_of event == k) event)
          (details_if (key_of event == k) (combine x event)) (details_at k l)
          (both (key_of event == k)))
]
  where
    both : (b : Bool) → Perm (details_if b (combine x event)) (details_if b x ++ details_if b event)
    both true = details-combine x event
    both false = Perm.refl []

details_at-merged :
    (k : EventKey) (events l : List RuntimeEvent)
    → Perm (details_at k (merged events l)) (details_at k l ++ details_at k events)
unfolding details_at merged
details_at-merged k [] l = rw append-nil (Perm.refl _)
details_at-merged k (event ∷ events) l =
    Perm.trans (details_at-merged k events (merge_into event l)) (
      Perm.trans (Perm.append_right (details_at k events) (details_at-merge_into k event l))
        (simp (append-nil, append_assoc) (Perm.refl _)))

-- Coalescing loses no detail and makes none up: for every instant, type and symbol, the details of
-- the coalesced events, with those in their "related_events", are those of the given events, each
-- as often.
pub coalesce-details :
    (k : EventKey) (events : List RuntimeEvent)
    → Perm (details_at k (coalesce_runtime_events events)) (details_at k events)
unfolding details_at
coalesce-details k events = rw (coalesce-eq-merged events) (details_at-merged k events [])
