-- ===== src/Core/Pending.antt =====
-- librae/core/executor.py: `partition_pending_decision` and `merge_pending_decisions`, the rules for
-- a decision that waits for data while newer ones arrive.
pub mod Partition
pub mod Merge
mod Tests
use librae.Base.{
  String, Bool, true, false, not, ◌||◌, List, [], ◌∷◌, ◌++◌, if◌then◌else◌, Result, ok, err, select,
  mem, string_eq, is_nil,
}
use librae.Core.Intents.{
  OrderIntent, PortfolioWeights, Decision, intents, portfolio, is_empty, symbol_of, symbols_of,
  is_some,
}

-- The `ValueError`s of `merge_pending_decisions`.
pub data MergeError : Type 0 where
  intents_during_rebalance weights_during_intents : MergeError
  duplicate_intents : List String → MergeError

module _ {F : Type 0} (primary : String) where
  -- `intent.group_id is not None or symbol in bars`
  abbrev pub is_ready : List String → OrderIntent F → Bool
  is_ready bars intent = is_some intent.group_id || mem (symbol_of primary intent) bars

  -- The two lists that the loop fills, in order.
  unfoldable pub split_ready :
      List String → List (OrderIntent F) → List (OrderIntent F) × List (OrderIntent F)
  split_ready bars [] = ([], [])
  split_ready bars (intent ∷ rest) =
      let (ready, waiting) = split_ready bars rest in
      if is_ready bars intent then (intent ∷ ready, waiting) else (ready, intent ∷ waiting)

  -- `bars` are the symbols that have a bar now.
  unfoldable pub partition_pending_decision : List String → Decision F → Decision F × Decision F
  unfolding split_ready
  partition_pending_decision bars (portfolio w) = (portfolio w, intents [])
  partition_pending_decision bars (intents l) =
      let (ready, waiting) = split_ready bars l in (intents ready, intents waiting)

  -- `pending_symbols & new_symbols`
  unfoldable pub overlap : List (OrderIntent F) → List (OrderIntent F) → List String
  overlap pending new = select (λ s. mem s (symbols_of primary new)) (symbols_of primary pending)

  unfoldable pub merge_kinds : Decision F → Decision F → Result MergeError (Decision F)
  merge_kinds (portfolio _) (portfolio new) = ok (portfolio new)
  merge_kinds (portfolio _) (intents _) = err intents_during_rebalance
  merge_kinds (intents _) (portfolio _) = err weights_during_intents
  merge_kinds (intents pending) (intents new) =
      if is_nil (overlap pending new)
      then ok (intents (pending ++ new))
      else err (duplicate_intents (overlap pending new))

  unfoldable pub merge_pending_decisions : Decision F → Decision F → Result MergeError (Decision F)
  unfolding merge_kinds
  merge_pending_decisions pending new =
      if is_empty pending
      then ok new
      else if is_empty new
      then ok pending
      else merge_kinds pending new
