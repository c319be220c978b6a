-- ===== src/Core/Events/Merged.antt =====
-- `coalesce_runtime_events` against a plain description with no index table.
use librae.Base.{
  ◌≢◌, ℕ, zero, suc, ◌≡◌, refl, Option, none, some, List, [], ◌∷◌, ◌++◌, arith, if◌then◌else◌, ◌==◌,
  nat_eq, string_eq, Dict, lookup, get_elem?, length, set, Option-cases, inl, insert, lookup-insert,
  inr, ap, ◌∙◌,
}
use librae.Core.Events.{
  key_beq_iff, RuntimeEvent, EventKey, key_of, key_eq, combine, replace_at, coalesce_at,
  coalesce_from, coalesce_runtime_events,
}

-- An event joins the first event of its key, or comes last.
unfoldable pub merge_into : RuntimeEvent → List RuntimeEvent → List RuntimeEvent
merge_into event [] = event ∷ []
merge_into event (x ∷ l) =
    if key_of x == key_of event then combine x event ∷ l else x ∷ merge_into event l

unfoldable pub merged : List RuntimeEvent → List RuntimeEvent → List RuntimeEvent
unfolding merge_into
merged [] l = l
merged (event ∷ events) l = merged events (merge_into event l)

abbrev shift : Option ℕ → Option ℕ
shift none = none
shift (some i) = some (suc i)

-- The place of the first event of a key.
index_of : EventKey → List RuntimeEvent → Option ℕ
index_of k [] = none
index_of k (x ∷ l) = if key_of x == k then some 0 else shift (index_of k l)

abbrev IsIndex : Dict EventKey ℕ → List RuntimeEvent → Type 0
IsIndex keys l = (k : EventKey) → lookup k keys ≡ index_of k l

pub key_of-combine :
    (x event : RuntimeEvent) → key_of x ≡ key_of event → key_of (combine x event) ≡ key_of event
unfolding combine
key_of-combine x event same = ground arith

merge_into-absent :
    (event : RuntimeEvent) (l : List RuntimeEvent)
    → index_of (key_of event) l ≡ none
    → merge_into event l ≡ l ++ event ∷ []
unfolding merge_into index_of
merge_into-absent event [] h = refl
merge_into-absent event (x ∷ l) h = ground (arith, merge_into-absent event l)

merge_into-present :
    (event : RuntimeEvent) (l : List RuntimeEvent) (i : ℕ)
    → index_of (key_of event) l ≡ some i
    → replace_at event l i (get_elem? l i) ≡ merge_into event l
unfolding merge_into index_of replace_at
merge_into-present event [] i h = cc
merge_into-present event (x ∷ l) zero h = ground arith
merge_into-present event (x ∷ l) (suc i) h =
    grind (arith, merge_into-present event l i, index_of, set, get_elem?)

index_of-append :
    (k : EventKey) (event : RuntimeEvent) (l : List RuntimeEvent)
    → index_of (key_of event) l ≡ none
    → index_of k (l ++ event ∷ []) ≡ (if key_of event == k then some (length l) else index_of k l)
unfolding index_of
index_of-append k event [] h = refl
index_of-append k event (x ∷ l) h = ground (
  arith,
  index_of-append k event l,
  key_beq_iff (key_of x) (key_of event),
  key_beq_iff (key_of event) k,
  key_beq_iff (key_of x) k,
)

index_of-merge_into :
    (k : EventKey) (event : RuntimeEvent) (l : List RuntimeEvent)
    → index_of (key_of event) l ≢ none
    → index_of k (merge_into event l) ≡ index_of k l
unfolding index_of merge_into
index_of-merge_into k event [] h = absurd (h refl)
index_of-merge_into k event (x ∷ l) h = ground (
  arith,
  index_of-merge_into k event l,
  key_beq_iff (key_of x) (key_of event),
  key_of-combine x event,
)

coalesce_from-eq-merged :
    (events : List RuntimeEvent) (keys : Dict EventKey ℕ) (l : List RuntimeEvent)
    → IsIndex keys l
    → (coalesce_from events (keys, l)).1 ≡ merged events l
unfolding coalesce_from coalesce_at merged
coalesce_from-eq-merged [] keys l h = refl
coalesce_from-eq-merged (event ∷ events) keys l h =
    elim (Option-cases (index_of (key_of event) l)) [
      | inl new ↦
          ap (λ o. (coalesce_from events (coalesce_at event (keys, l) o)).1)
            (h (key_of event) ∙ new)
          ∙ (rw (merge_into-absent event l new) (
              coalesce_from-eq-merged events (insert (key_of event) (length l) keys)
                (l ++ event ∷ [])
                (λ k. rw (
                  lookup-insert (key_of event) k (length l) keys,
                  index_of-append k event l new,
                  h k,
                ))))
      | inr (i, old) ↦
          ap (λ o. (coalesce_from events (coalesce_at event (keys, l) o)).1)
            (h (key_of event) ∙ old)
          ∙ (rw (merge_into-present event l i old) (
              coalesce_from-eq-merged events keys (merge_into event l)
                (λ k. rw (index_of-merge_into k event l (λ e. cc)) (h k))))
    ]

-- Coalescing a list of events by the table of indices gives what merging each event in turn into the
-- first event of its key gives.
pub coalesce-eq-merged :
    (events : List RuntimeEvent) → coalesce_runtime_events events ≡ merged events []
unfolding coalesce_runtime_events
coalesce-eq-merged events =
    coalesce_from-eq-merged events [] [] (λ k. unfold lookup index_of in refl)
