-- ===== src/Core/Rebalance/Split.antt =====
-- The two loops of `_cancel_rebalance_symbols`: the retained items, and the keys and the values of the
-- cancelled ones.
use librae.Base.{
  lookup-insert, String, ◌≡◌, refl, sym, ap, ◌∙◌, inl, inr, Bool, true, false, not, ◌&&◌, ◌||◌,
  Option, List, [], ◌∷◌, ◌++◌, map, arith, if◌then◌else◌, Bool-cases, ◌==◌, string_eq, Dict, lookup,
  insert, contains, sorted_set, add_sorted, select, mem,
}
use mathlib.Core.List.{append_assoc, append-nil}
use librae.Core.Intents.{contains-eq}
use librae.Core.Rebalance.{RebalanceOrderState}
use librae.Core.Rebalance.Cancel.{split_walk, names, listed, order_symbol, with_order}

contains-insert :
    {V : Type 0} (k j : String) (v : V) (d : Dict String V)
    → contains j (insert k v d) ≡ (k == j || contains j d)
contains-insert k j v d = elim (Bool-cases (k == j)) [
  | inl same ↦ rw (contains-eq j (insert k v d), lookup-insert k j v d, same)
  | inr other ↦ rw (contains-eq j (insert k v d), contains-eq j d, lookup-insert k j v d, other)
]

pub mem-append : (a : String) (k l : List String) → mem a (k ++ l) ≡ (mem a k || mem a l)
unfolding mem
mem-append a [] l = refl
mem-append a (x ∷ k) l = ground (arith, mem-append a k l)

mem-add_sorted : (a s : String) (l : List String) → mem a (add_sorted s l) ≡ (s == a || mem a l)
unfolding mem
mem-add_sorted a s [] = refl
mem-add_sorted a s (t ∷ rest) = ground (
  arith,
  string_eq.beq_iff s t,
  string_eq.beq_iff s a,
  string_eq.beq_iff t a,
  mem-add_sorted a s rest,
)

pub mem-sorted_set : (a : String) (l : List String) → mem a (sorted_set l) ≡ mem a l
unfolding mem
mem-sorted_set a [] = refl
mem-sorted_set a (s ∷ rest) = rw (mem-add_sorted a s (sorted_set rest), mem-sorted_set a rest)

pub mem-names : {V : Type 0} (k : String) (d : Dict String V) → mem k (names d) ≡ contains k d
unfolding mem lookup
mem-names k [] = rw (contains-eq k [])
mem-names k ((j, v) ∷ d) = elim (Bool-cases (j == k)) [
  | inl same ↦ rw (contains-eq k ((j, v) ∷ d), same)
  | inr other ↦ rw (contains-eq k ((j, v) ∷ d), other, mem-names k d, contains-eq k d)
]

same_contains :
    {V : Type 0} (k j : String) (d : Dict String V) {b : Bool}
    → contains k d ≡ b
    → (k == j) ≡ true
    → contains j d ≡ b
same_contains k j d h same = rw (sym (ap (λ x. contains x d) ((string_eq.beq_iff k j).0 same)), h)

taken_joined :
    (same old exit later : Bool)
    → (same ≡ true → exit ≡ true)
    → ((same || old) || exit && later) ≡ (old || exit && (same || later))
taken_joined true old exit later h = ground (arith, h refl)
taken_joined false old exit later h = refl

kept_joined :
    (same old exit later : Bool)
    → (same ≡ true → exit ≡ false)
    → (old || exit && later) ≡ (old || exit && (same || later))
kept_joined true old exit later h = rw (h refl)
kept_joined false old exit later h = refl

module _ {A B : Type 0} (symbol_of : A → String) (added : A → Option B → B)
    (exits : Dict String String) where
  -- The cancelled items after one more.
  abbrev with_item : A → Dict String B → Dict String B
  with_item item cancelled =
      insert (symbol_of item) (added item (lookup (symbol_of item) cancelled)) cancelled

  split_walk-taken :
      (cancelled : Dict String B) (retained rest : List A) (item : A)
      → contains (symbol_of item) exits ≡ true
      → split_walk symbol_of added exits (cancelled, retained) (item ∷ rest)
        ≡ split_walk symbol_of added exits (with_item item cancelled, retained) rest
  unfolding split_walk
  split_walk-taken cancelled retained rest item taken =
      ap
        (λ (b : Bool).
          split_walk symbol_of added exits
            (if b then (with_item item cancelled, retained) else (cancelled, retained ++ item ∷ []))
            rest)
        taken

  split_walk-kept :
      (cancelled : Dict String B) (retained rest : List A) (item : A)
      → contains (symbol_of item) exits ≡ false
      → split_walk symbol_of added exits (cancelled, retained) (item ∷ rest)
        ≡ split_walk symbol_of added exits (cancelled, retained ++ item ∷ []) rest
  unfolding split_walk
  split_walk-kept cancelled retained rest item kept =
      ap
        (λ (b : Bool).
          split_walk symbol_of added exits
            (if b then (with_item item cancelled, retained) else (cancelled, retained ++ item ∷ []))
            rest)
        kept

  pub split_walk-retained :
      (cancelled : Dict String B) (retained items : List A)
      → (split_walk symbol_of added exits (cancelled, retained) items).1
        ≡ retained ++ select (λ a. not (contains (symbol_of a) exits)) items
  unfolding split_walk
  split_walk-retained cancelled retained [] = rw append-nil
  split_walk-retained cancelled retained (item ∷ rest) =
      elim (Bool-cases (contains (symbol_of item) exits)) [
        | inl taken ↦ rw (
          split_walk-taken cancelled retained rest item taken,
          split_walk-retained (with_item item cancelled) retained rest,
          taken,
        )
        | inr kept ↦ rw (
          split_walk-kept cancelled retained rest item kept,
          split_walk-retained cancelled (retained ++ item ∷ []) rest,
          kept,
          append_assoc retained (item ∷ []) _,
        )
      ]

  pub split_walk-contains :
      (k : String) (cancelled : Dict String B) (retained items : List A)
      → contains k (split_walk symbol_of added exits (cancelled, retained) items).0
        ≡ (contains k cancelled || contains k exits && mem k (map symbol_of items))
  unfolding split_walk mem
  split_walk-contains k cancelled retained [] = ground arith
  split_walk-contains k cancelled retained (item ∷ rest) =
      elim (Bool-cases (contains (symbol_of item) exits)) [
        | inl taken ↦
            rw
              (
                split_walk-taken cancelled retained rest item taken,
                split_walk-contains k (with_item item cancelled) retained rest,
                contains-insert (symbol_of item) k (added item (lookup (symbol_of item) cancelled))
                    cancelled,
              )
              (taken_joined _ _ _ _ (same_contains (symbol_of item) k exits taken))
        | inr kept ↦
            rw
              (
                split_walk-kept cancelled retained rest item kept,
                split_walk-contains k cancelled _ rest,
              )
              (kept_joined _ _ _ _ (same_contains (symbol_of item) k exits kept))
      ]

-- The cancelled orders of a symbol that exits, in their order.
pub split_orders-lookup :
    {R : Type 0} (exits : Dict String String) (k : String)
    → contains k exits ≡ true
    → (cancelled : Dict String (List (RebalanceOrderState R)))
      (retained items : List (RebalanceOrderState R))
    → listed (lookup k (split_walk order_symbol with_order exits (cancelled, retained) items).0)
      ≡ listed (lookup k cancelled) ++ select (λ a. order_symbol a == k) items
unfolding split_walk
split_orders-lookup exits k exit cancelled retained [] = rw append-nil
split_orders-lookup exits k exit cancelled retained (item ∷ rest) =
    elim (Bool-cases (order_symbol item == k)) [
      | inl same ↦
          let here = (string_eq.beq_iff (order_symbol item) k).0 same in
          let taken = ap (λ x. contains x exits) here ∙ exit in
          let before : lookup (order_symbol item) cancelled ≡ lookup k cancelled =
            ap (λ x. lookup x cancelled) here in
          rw
            (
              split_walk-taken order_symbol with_order exits cancelled retained rest item taken,
              split_orders-lookup exits k exit
                  (with_item order_symbol with_order exits item cancelled) retained rest,
              lookup-insert (order_symbol item) k
                  (with_order item (lookup (order_symbol item) cancelled)) cancelled,
              same,
              before,
            )
            (append_assoc (listed (lookup k cancelled)) (item ∷ []) _)
      | inr other ↦ elim (Bool-cases (contains (order_symbol item) exits)) [
        | inl taken ↦ rw (
          split_walk-taken order_symbol with_order exits cancelled retained rest item taken,
          split_orders-lookup exits k exit (with_item order_symbol with_order exits item cancelled)
              retained rest,
          lookup-insert (order_symbol item) k
              (with_order item (lookup (order_symbol item) cancelled)) cancelled,
          other,
        )
        | inr kept ↦ rw (
          split_walk-kept order_symbol with_order exits cancelled retained rest item kept,
          split_orders-lookup exits k exit cancelled _ rest,
          other,
        )
      ]
    ]
