-- ===== src/Core/Financing/Tests.antt =====
-- Two payments to a long of four units, of which one unit is closed between them.
use librae.Base.{
  refl, ℕ, ◌≡◌, refl, Bool, false, List, [], ◌∷◌, nat_beq, lookup, insert, Result, ok, err,
}
use librae.Core.Number.{zero}
use librae.Core.Number.Int.{ℤ, pos, negsuc, int_number, add_int, sub_int, mul_int, div_int, neg_int}
use librae.Core.Positions.{open_, reduce_}
use librae.Core.Financing.{
  PositionKey, TimelineItem, lifecycle, accrual, Attribution, attribute_walk, begun,
  FinancingLifecycleEvent, FinancingPayment, FinancingError,
}
use librae.Core.Financing.Settled.{Settles, held, attribute_walk-Settles}

abbrev btc : PositionKey
btc = record { symbol = "BTC"; entry_at = 5 }

abbrev same_number : ℤ → ℤ → Bool
same_number (pos a) (pos b) = nat_beq a b
same_number _ _ = false

abbrev opening : FinancingLifecycleEvent ℤ
opening = record {
  ts = 5;
  key = btc;
  event_type = open_;
  fill_quantity = pos 4;
  remaining_quantity = pos 4;
  after_bar_accrual = false;
}

abbrev reducing : FinancingLifecycleEvent ℤ
reducing = record {
  ts = 7;
  key = btc;
  event_type = reduce_;
  fill_quantity = pos 1;
  remaining_quantity = pos 3;
  after_bar_accrual = false;
}

abbrev payment : ℕ → ℤ → ℤ → FinancingPayment ℤ
payment ts quantity cash_flow = record {
  ts = ts;
  key = btc;
  quantity = quantity;
  cash_flow = cash_flow;
}

abbrev timeline : List (TimelineItem ℤ)
timeline =
    lifecycle 0 opening
    ∷ accrual 0 (payment 6 (pos 4) (negsuc 7))
    ∷ lifecycle 1 reducing
    ∷ accrual 1 (payment 8 (pos 3) (negsuc 2))
    ∷ []

abbrev left : Result FinancingError (Attribution ℤ) → Attribution ℤ
left (ok a) = a
left (err e) = begun same_number

abbrev done : Attribution ℤ
done = left (attribute_walk same_number timeline (begun same_number))

attributes : attribute_walk same_number timeline (begun same_number) ≡ ok done
unfolding attribute_walk lookup insert add_int sub_int mul_int div_int neg_int
attributes = refl

attribute_walk-Settles_example : Settles btc zero timeline done.released (held btc done)
attribute_walk-Settles_example = attribute_walk-Settles same_number btc timeline done attributes
