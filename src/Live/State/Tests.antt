-- ===== src/Live/State/Tests.antt =====
-- An order for ETH that waits and a rebalance that is halfway, with instants written in unary.
use librae.Base.{zero, refl, ℕ, String, ◌≡◌, refl, ap, none, some, [], ◌∷◌, Result, ok, err, suc}
use Prim.Native.Char.{nul}
use Prim.Native.String.{String, ◌∷◌ as ◌then_char◌}
use librae.Core.Intents.{OrderAction, Decision, intents, gtc}
use librae.Core.Number.Int.{ℤ, pos, int_number}
use librae.Live.State.Json.{Json, integer, float, object, StateError, type_error, Python, IsPython}
use librae.Live.State.Decisions.{pending_decision_to_dict, pending_decision_from_dict}
use librae.Live.State.Rebalances.{LiveRebalance, rebalance_to_dict, rebalance_from_dict}
use librae.Live.State.Restored.{pending_decision-restored}
use librae.Live.State.Resumed.{rebalance-restored}

unfoldable unary : ℕ → String
unary (suc n) = nul then_char unary n
unary _ = ""

unfoldable counted : String → ℕ
counted (c then_char s) = suc (counted s)
counted _ = 0

counted-unary : (n : ℕ) → counted (unary n) ≡ n
unfolding unary counted
counted-unary zero = refl
counted-unary (suc n) = ap suc (counted-unary n)

abbrev read_number : Json ℤ → Result StateError ℤ
read_number (float x) = ok x
read_number (integer n) = ok n
read_number _ = err (type_error "float")

abbrev whole : Python ℤ
whole = record {
  to_float = read_number;
  to_int = read_number;
  of_int = λ n. n;
  isoformat = unary;
  from_isoformat = λ s. ok (counted s);
}

abbrev whole_lawful : IsPython whole
whole_lawful = record {
  to_float-float = λ x. refl;
  to_int-integer = λ n. refl;
  from-isoformat = λ t. ap ok (counted-unary t);
}

abbrev waits : Decision ℤ
waits = intents (
    record {
      action = OrderAction.long;
      symbol = "ETH";
      quantity = some (pos 2);
      reason = "dip";
      limit_price = some (pos 20);
      stop_price = none;
      take_profit_price = none;
      group_id = none;
      time_in_force = some gtc;
    }
    ∷ [])

pending_decision-restored_example :
    pending_decision_from_dict whole (object (pending_decision_to_dict waits)) ≡ ok waits
pending_decision-restored_example =
    pending_decision-restored whole waits (((refl, refl), (refl, refl), tt, tt, refl), tt)

abbrev halfway : LiveRebalance ℤ
halfway = record {
  targets = record { weights = ("BTC", pos 1) ∷ []; reason = "rotate" };
  reference_prices = ("BTC", pos 50) ∷ [];
  reference_volumes = ("BTC", none) ∷ [];
  lagged_adv_by_symbol = [];
  decided_at = 7;
  next_sequence = pos 1;
  execution_bar_ts = some 8;
  delay_bars = pos 0;
  filled_bar_quantity_by_symbol = ("BTC", pos 3) ∷ [];
}

rebalance-restored_example :
    rebalance_from_dict whole (rebalance_to_dict whole halfway) ≡ ok halfway
rebalance-restored_example =
    rebalance-restored whole whole_lawful halfway ((refl, refl), tt) refl refl
