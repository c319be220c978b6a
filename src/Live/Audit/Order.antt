-- ===== src/Live/Audit/Order.antt =====
-- A drain loses, repeats and reorders nothing, and stops only at a refusal.
use mathlib.Core.List.{append_assoc}
use librae.Base.{
  ℕ, zero, suc, ◌+◌, ◌≤◌, ◌<◌, ◌≡◌, refl, sym, ap, ◌∙◌, inl, inr, Bool, true, false, not, ◌||◌,
  Option, none, some, List, [], ◌∷◌, ◌++◌, arith, leb, Bool-cases, Eq, ◌==◌, nat_eq, string_eq,
  length, length-append, All,
}
use librae.Live.Audit.{Row, Drain, batch_rest, split_batch, drain_from, flush_pending}

abbrev pub concat : {A : Type 0} → List (List A) → List A
concat [] = []
concat (xs ∷ xss) = xs ++ concat xss

module _ {S B : Type 0} ⦃same : Eq S⦄ where
  batch_rest-append :
      (s : S) (last : ℕ) (rows : List (Row S B))
      → (batch_rest s last rows).0 ++ (batch_rest s last rows).1 ≡ rows
  unfolding batch_rest
  batch_rest-append s last [] = refl
  batch_rest-append s last (row ∷ rows) =
      elim (Bool-cases (not (row.subscription == s) || leb row.ts last)) [
        | inl stop ↦ rw stop
        | inr go ↦ rw go (ap (λ l. row ∷ l) (batch_rest-append s row.ts rows))
      ]

  pub split_batch-append :
      (batched : Bool) (head : Row S B) (rest : List (Row S B))
      → (split_batch batched head rest).0 ++ (split_batch batched head rest).1 ≡ rest
  split_batch-append true head rest = batch_rest-append head.subscription head.ts rest
  split_batch-append false head rest = refl

  -- All of one subscription, each later than the one before.
  abbrev pub Rising : S → ℕ → List (Row S B) → Type 0
  Rising s last [] = Unit
  Rising s last (row ∷ rows) =
      ((row.subscription == s) ≡ true) × (last < row.ts) × Rising s row.ts rows

  batch_rest-Rising :
      (s : S) (last : ℕ) (rows : List (Row S B)) → Rising s last (batch_rest s last rows).0
  unfolding batch_rest
  batch_rest-Rising s last [] = tt
  batch_rest-Rising s last (row ∷ rows) =
      elim (Bool-cases (not (row.subscription == s) || leb row.ts last)) [
        | inl stop ↦ rw stop tt
        | inr go ↦ rw go (
          ground (arith, same.beq_iff row.subscription s),
          ground arith,
          batch_rest-Rising s row.ts rows,
        )
      ]

  abbrev pub IsBatch : List (Row S B) → Type 0
  IsBatch [] = ⊥
  IsBatch (head ∷ rest) = Rising head.subscription head.ts rest

  split_batch-IsBatch :
      (batched : Bool) (head : Row S B) (rest : List (Row S B))
      → IsBatch (head ∷ (split_batch batched head rest).0)
  split_batch-IsBatch true head rest = batch_rest-Rising head.subscription head.ts rest
  split_batch-IsBatch false head rest = tt

  -- A drain that ended where it should: with nothing left, or at a batch that the sink refused.
  abbrev pub Ended : List (Row S B) → Option (List (Row S B)) → Type 0
  Ended pending none = pending ≡ []
  Ended pending (some batch) = (later : List (Row S B)) × (pending ≡ batch ++ later)

  module _ (accepts : ℕ → List (Row S B) → Bool) (batched : Bool) where
    abbrev Drained : List (Row S B) → Drain S B → Type 0
    Drained rows d =
        (concat d.accepted ++ d.pending ≡ rows) × All IsBatch d.accepted × Ended d.pending d.refused

    drain_from-Drained :
        (fuel delivered : ℕ) (rows : List (Row S B))
        → length rows ≤ fuel
        → Drained rows (drain_from accepts batched fuel delivered rows)
    unfolding drain_from
    drain_from-Drained zero delivered [] enough = (refl, tt, refl)
    drain_from-Drained zero delivered (row ∷ rows) enough = absurd (omega arith)
    drain_from-Drained (suc fuel) delivered [] enough = (refl, tt, refl)
    drain_from-Drained (suc fuel) delivered (head ∷ rest) enough =
        let parts = split_batch batched head rest in
        let whole : parts.0 ++ parts.1 ≡ rest = split_batch-append batched head rest in
        let shorter : length parts.1 ≤ fuel =
          omega (arith, ap (λ l. length l) whole, length-append parts.0 parts.1) in
        let (joined, batches, ended) =
          drain_from-Drained fuel (delivered + length (head ∷ parts.0)) parts.1 shorter in
        elim (Bool-cases (accepts delivered (head ∷ parts.0))) [
          | inl taken ↦ rw taken (
            ap (λ l. head ∷ l) (append_assoc parts.0 _ _ ∙ ap (λ l. parts.0 ++ l) joined ∙ whole),
            (split_batch-IsBatch batched head rest, batches),
            ended,
          )
          | inr refused ↦ rw refused (refl, tt, (parts.1, ap (λ l. head ∷ l) (sym whole)))
        ]

  -- A flush of a queue with a sink: the rows of the calls that the sink took, in order, followed by
  -- the rows still pending, are the queue as it was; each call holds rows of one subscription in
  -- strictly rising ts order; and the drain stops with nothing left or at a call that was refused,
  -- whose rows head what is pending.
  pub flush_pending-Drained :
      (accepts : ℕ → List (Row S B) → Bool) (batched degraded : Bool) (pending : List (Row S B))
      → let d = (flush_pending accepts batched true degraded pending).drain in
        (concat d.accepted ++ d.pending ≡ pending)
        × All IsBatch d.accepted
        × Ended d.pending d.refused
  unfolding flush_pending
  flush_pending-Drained accepts batched degraded [] = (refl, tt, refl)
  flush_pending-Drained accepts batched degraded (row ∷ rows) =
      drain_from-Drained accepts batched (length (row ∷ rows)) 0 (row ∷ rows) (omega arith)
