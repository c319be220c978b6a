-- ===== src/Live/Halts.antt =====
-- librae/live/halt_recovery.py: whether a halted run may start again. `S` is a subscription, with its calendar
-- and the grace that it is given; an order is of any type.
pub mod Ready
mod Tests
use librae.Base.{
  sorted_set, ℕ, String, Bool, true, false, not, Option, none, some, List, [], ◌∷◌, if◌then◌else◌,
  Dict, lookup, is_nil, select, mem, string_eq,
}
use librae.Core.Readiness.{Calendar, evaluate_observation}

pub data Refusal : Type 0 where
  halt_not_persisted unresolved_broker_orders missing_valuation_mark stale_valuation_mark : Refusal

-- The action that is required goes with the reason.
pub record HaltResetReadiness : Type 0 where
  pub ready : Bool
  pub reason : Option Refusal
  pub blocking_symbols : List String

-- What the loop finds of one symbol.
pub data Mark : Type 0 where
  current missing_mark stale_mark : Mark

abbrev pub is_missing : Mark → Bool
is_missing missing_mark = true
is_missing _ = false

abbrev pub is_stale : Mark → Bool
is_stale stale_mark = true
is_stale _ = false

pub record Marks (S : Type 0) : Type 0 where
  pub last_prices : List String
  pub last_bar_ts : Dict String ℕ
  pub subscriptions : Dict String S
  pub now : ℕ
  pub staleness_grace : S → ℕ
  pub calendar_of : S → Calendar

module _ {S : Type 0} (marks : Marks S) where
  abbrev pub mark_at : Option S → Option ℕ → Mark
  mark_at none observed = missing_mark
  mark_at (some subscription) none = missing_mark
  mark_at (some subscription) (some observed_at) =
      if (evaluate_observation (marks.calendar_of subscription) marks.now
        (marks.staleness_grace subscription) (some observed_at)).fresh
      then current
      else stale_mark

  abbrev pub mark_of : String → Mark
  mark_of symbol =
      if mem symbol marks.last_prices
      then mark_at (lookup symbol marks.subscriptions) (lookup symbol marks.last_bar_ts)
      else missing_mark

  abbrev pub marked : (Mark → Bool) → List String → List String
  marked test = select (λ symbol. test (mark_of symbol))

abbrev pub refused : Refusal → List String → HaltResetReadiness
refused reason symbols = record { ready = false; reason = some reason; blocking_symbols = symbols }

abbrev pub judged : List String → List String → HaltResetReadiness
judged (symbol ∷ missing) stale = refused missing_valuation_mark (symbol ∷ missing)
judged [] (symbol ∷ stale) = refused stale_valuation_mark (symbol ∷ stale)
judged [] [] = record { ready = true; reason = none; blocking_symbols = [] }

unfoldable pub evaluate_reset_readiness :
    {S O : Type 0} → Marks S → Bool → List O → List String → HaltResetReadiness
evaluate_reset_readiness marks halt_persisted active_orders positions =
    if not halt_persisted
    then refused halt_not_persisted []
    else if not (is_nil active_orders)
    then refused unresolved_broker_orders []
    else judged (marked marks is_missing (sorted_set positions))
        (marked marks is_stale (sorted_set positions))
