-- ===== src/Core/Pending/Partition.antt =====
-- What `partition_pending_decision` makes of a list of intents.
use librae.Base.{String, ◌≡◌, inl, inr, true, false, List, [], ◌∷◌, ◌++◌, Bool-cases, All}
use mathlib.Core.List.{Perm, perm_middle}
use mathlib.Core.List.Perm
use librae.Core.Intents.{OrderIntent, intents, intents_of}
use librae.Core.Pending.{is_ready, split_ready, partition_pending_decision}

module _ {F : Type 0} (primary : String) (bars : List String) where
  split_ready-perm :
      (l : List (OrderIntent F))
      → Perm ((split_ready primary bars l).0 ++ (split_ready primary bars l).1) l
  unfolding split_ready
  split_ready-perm [] = Perm.refl []
  split_ready-perm (i ∷ l) = elim (Bool-cases (is_ready primary bars i)) [
    | inl ready ↦ rw ready (Perm.cons i (split_ready-perm l))
    | inr waits ↦ rw waits (
        Perm.trans (perm_middle (split_ready primary bars l).0 (split_ready primary bars l).1)
          (Perm.cons i (split_ready-perm l)))
  ]

  split_ready-sides :
      (l : List (OrderIntent F))
      → All (λ i. is_ready primary bars i ≡ true) (split_ready primary bars l).0
        × All (λ i. is_ready primary bars i ≡ false) (split_ready primary bars l).1
  unfolding split_ready
  split_ready-sides [] = (tt, tt)
  split_ready-sides (i ∷ l) =
      let (left, right) = split_ready-sides l in
      elim (Bool-cases (is_ready primary bars i)) [
        | inl ready ↦ rw ready ((ready, left), right)
        | inr waits ↦ rw waits (left, (waits, right))
      ]

  -- Of a list of intents every one goes to one side exactly, as often as it was pending: to the
  -- ready ones if it belongs to a group or its symbol has a bar, and to the waiting ones if not.
  pub partition-perm :
      (l : List (OrderIntent F))
      → let (ready, waiting) = partition_pending_decision primary bars (intents l) in
        Perm (intents_of ready ++ intents_of waiting) l
        × All (λ i. is_ready primary bars i ≡ true) (intents_of ready)
        × All (λ i. is_ready primary bars i ≡ false) (intents_of waiting)
  unfolding partition_pending_decision
  partition-perm l = (split_ready-perm l, (split_ready-sides l).0, (split_ready-sides l).1)
