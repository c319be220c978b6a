-- ===== src/Live/Audit/Recovery.antt =====
-- A sink that has recovered drains the queue, and the fuel of the drain is no limit.
use librae.Base.{
  refl, ℕ, zero, suc, ◌+◌, ◌≤◌, ◌≡◌, refl, sym, ap, ◌∙◌, ◌⊎◌, inl, inr, Bool, true, false, List, [],
  ◌∷◌, ◌++◌, arith, Bool-cases, Eq, length, length-append,
}
use mathlib.Core.List.{append-nil}
use librae.Live.Audit.{Row, split_batch, drain_from, flush_pending}
use librae.Live.Audit.Order.{concat, split_batch-append, flush_pending-Drained}

module _ {S B : Type 0} ⦃same : Eq S⦄ (accepts : ℕ → List (Row S B) → Bool) (batched : Bool) where
  -- The rows after a batch are fewer.
  batch-shorter :
      (head : Row S B) (rest : List (Row S B)) (n : ℕ)
      → length (head ∷ rest) ≤ suc n
      → length (split_batch batched head rest).1 ≤ n
  batch-shorter head rest n enough =
      let parts = split_batch batched head rest in
      omega (
        arith,
        ap (λ l. length l) (split_batch-append batched head rest),
        length-append parts.0 parts.1,
      )

  -- The loop over the rows ends within as many calls as there are rows: amounts of fuel that are each at
  -- least the number of rows drain them alike, whatever the sink takes.
  pub drain_from-enough :
      (fuel more delivered : ℕ) (rows : List (Row S B))
      → length rows ≤ fuel
      → length rows ≤ more
      → drain_from accepts batched fuel delivered rows
        ≡ drain_from accepts batched more delivered rows
  unfolding drain_from
  drain_from-enough zero zero delivered [] enough enough_more = refl
  drain_from-enough zero (suc more) delivered [] enough enough_more = refl
  drain_from-enough (suc fuel) zero delivered [] enough enough_more = refl
  drain_from-enough (suc fuel) (suc more) delivered [] enough enough_more = refl
  drain_from-enough zero more delivered (head ∷ rest) enough enough_more = absurd (omega arith)
  drain_from-enough (suc fuel) zero delivered (head ∷ rest) enough enough_more =
      absurd (omega arith)
  drain_from-enough (suc fuel) (suc more) delivered (head ∷ rest) enough enough_more =
      let parts = split_batch batched head rest in
      rw
        (drain_from-enough fuel more (delivered + length (head ∷ parts.0)) parts.1
          (batch-shorter head rest fuel enough) (batch-shorter head rest more enough_more))
        refl

  drain_from-all :
      (fuel delivered : ℕ) (rows : List (Row S B))
      → ((n : ℕ) (batch : List (Row S B)) → accepts n batch ≡ true)
      → length rows ≤ fuel
      → (drain_from accepts batched fuel delivered rows).pending ≡ []
  unfolding drain_from
  drain_from-all zero delivered [] takes enough = refl
  drain_from-all zero delivered (head ∷ rest) takes enough = absurd (omega arith)
  drain_from-all (suc fuel) delivered [] takes enough = refl
  drain_from-all (suc fuel) delivered (head ∷ rest) takes enough =
      let parts = split_batch batched head rest in
      rw (takes delivered (head ∷ parts.0)) (
        drain_from-all fuel (delivered + length (head ∷ parts.0)) parts.1 takes
          (batch-shorter head rest fuel enough))

  flush-empties :
      (degraded : Bool) (pending : List (Row S B))
      → ((n : ℕ) (batch : List (Row S B)) → accepts n batch ≡ true)
      → (flush_pending accepts batched true degraded pending).drain.pending ≡ []
  unfolding flush_pending
  flush-empties degraded [] takes = refl
  flush-empties degraded (row ∷ rows) takes =
      drain_from-all (length (row ∷ rows)) 0 (row ∷ rows) takes (omega arith)

  -- A flush to a sink that takes every call ends with nothing pending, and the rows of the calls, in
  -- order, are the whole queue as it was; if there was a row, the degraded state is left.
  pub flush_pending-recovers :
      (degraded : Bool) (pending : List (Row S B))
      → ((n : ℕ) (batch : List (Row S B)) → accepts n batch ≡ true)
      → let flushed = flush_pending accepts batched true degraded pending in
        (flushed.drain.pending ≡ [])
        × (concat flushed.drain.accepted ≡ pending)
        × ((pending ≡ []) ⊎ (flushed.degraded ≡ false))
  unfolding flush_pending
  flush_pending-recovers degraded [] takes = (refl, refl, inl refl)
  flush_pending-recovers degraded (row ∷ rows) takes =
      let empty = flush-empties degraded (row ∷ rows) takes in
      let taken =
        concat (flush_pending accepts batched true degraded (row ∷ rows)).drain.accepted in
      let joined = (flush_pending-Drained accepts batched degraded (row ∷ rows)).0 in
      (
        empty,
        sym (append-nil taken) ∙ ap (λ l. taken ++ l) (sym empty) ∙ joined,
        inr (rw empty (elim (Bool-cases degraded) [ inl h ↦ rw h refl | inr h ↦ rw h refl ])),
      )
