-- ===== src/Core/Pending/Tests.antt =====
-- Three pending intents, of which one is in a group and one has no bar.
use librae.Base.{
  ℕ, String, ◌≡◌, refl, ◌↔◌, true, false, Option, none, some, List, [], ◌∷◌, ◌++◌, ok, All, mem,
  Distinct, string_eq,
}
use mathlib.Core.List.{Perm}
use librae.Core.Intents.{OrderIntent, OrderAction, intents, intents_of, symbols_of, symbol_or}
use librae.Core.Pending.{is_ready, partition_pending_decision, merge_pending_decisions, overlap}
use librae.Core.Pending.Partition.{partition-perm}
use librae.Core.Pending.Merge.{Disjoint, merge-ok_iff, merge-Distinct}

abbrev intent_of : String → Option String → OrderIntent ℕ
intent_of symbol group_id = record {
  action = OrderAction.long;
  symbol = symbol;
  quantity = some 1;
  reason = "";
  limit_price = none;
  stop_price = none;
  take_profit_price = none;
  group_id = group_id;
  time_in_force = none;
}

abbrev waiting_three : List (OrderIntent ℕ)
waiting_three = intent_of "AAPL" none ∷ intent_of "MSFT" (some "pair") ∷ intent_of "TSM" none ∷ []

partition-perm_example :
    let (ready, waiting) =
      partition_pending_decision "AAPL" ("AAPL" ∷ []) (intents waiting_three) in
    Perm (intents_of ready ++ intents_of waiting) waiting_three
    × All (λ i. is_ready "AAPL" ("AAPL" ∷ []) i ≡ true) (intents_of ready)
    × All (λ i. is_ready "AAPL" ("AAPL" ∷ []) i ≡ false) (intents_of waiting)
partition-perm_example = partition-perm "AAPL" ("AAPL" ∷ []) waiting_three

abbrev one_more : List (OrderIntent ℕ)
one_more = intent_of "NVDA" none ∷ []

merge-ok_iff_example :
    (merge_pending_decisions "AAPL" (intents waiting_three) (intents one_more)
      ≡ ok (intents (waiting_three ++ one_more)))
    ↔ Disjoint (symbols_of "AAPL" waiting_three) (symbols_of "AAPL" one_more)
merge-ok_iff_example = merge-ok_iff "AAPL" waiting_three one_more

merges :
    merge_pending_decisions "AAPL" (intents waiting_three) (intents one_more)
    ≡ ok (intents (waiting_three ++ one_more))
unfolding merge_pending_decisions overlap mem symbol_or
merges = refl

three_apart : Distinct (symbols_of "AAPL" waiting_three)
unfolding mem symbol_or
three_apart = (refl, (refl, (refl, tt)))

one_apart : Distinct (symbols_of "AAPL" one_more)
unfolding mem symbol_or
one_apart = (refl, tt)

merge-Distinct_example : Distinct (symbols_of "AAPL" (waiting_three ++ one_more))
merge-Distinct_example =
    merge-Distinct "AAPL" waiting_three one_more (waiting_three ++ one_more) three_apart one_apart
      merges
