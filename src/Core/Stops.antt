-- ===== src/Core/Stops.antt =====
-- librae/core/executor.py: the exits that the engines force, `check_stop_targets`,
-- `queue_market_exit_all` and `liquidate_all`. The dicts and lists that the loops change are the
-- fields of one record; a `ValueError` of a bar ends them.
pub mod Replay
pub mod Forced
pub mod Residuals
pub mod Steps
pub mod Told
mod Tests
use librae.Base.{
  ℕ, String, sym, Bool, true, false, Option, none, some, List, [], ◌∷◌, ◌++◌, if◌then◌else◌, Dict,
  lookup, insert, erase, Result, ok, ◌>>=◌, mem, string_eq,
}
use librae.Core.Intents.{PositionSide}
use librae.Core.Events.{RuntimeEvent, skipped_with, field, text, end, Fields}
use librae.Core.Number.{Number, ◌+◌, ◌<◌, ◌≤◌, min, zero, epsilon}
use librae.Core.Costs.{CostModel}
use librae.Core.Positions.{PositionState, TradeResult, PositionEvent, reduce_position}
use librae.Core.Positions.Close.{build_close_event}
use librae.Core.Liquidity.{volume_fill_limit, impact_volume_unavailable}
use librae.Core.Bars.{
  Bar, BarError, order_side_is_tradable, close_side_of, crossed_market_exit, resolve_stop_exit,
  with_range,
}

-- What a call is given beside the positions and the bars.
pub record Market (R : Type 0) : Type 0 where
  pub bars : Dict String (Bar R)
  pub ts : ℕ
  pub get_cost_model : String → CostModel R
  pub bar_rate : Option R
  pub adv_rate : Option R
  pub get_volume : Option (String → Option R)
  pub get_lagged_adv : Option (String → Option R)
  pub eligible_symbols : Option (List String)
  pub get_executable_quantity : Option (String → R → R)

-- What the loops change; `causes` is the local dict of `liquidate_all`.
pub record Exits (R : Type 0) : Type 0 where
  pub positions : Dict String (PositionState R)
  pub used_bar : Option (Dict String R)
  pub used_adv : Option (Dict String R)
  pub trades : List (TradeResult R)
  pub events : List (PositionEvent R)
  pub runtime_events : List RuntimeEvent
  pub cash_delta : R
  pub causes : Dict String String

abbrev pub or_else : {A : Type 0} → Option A → A → A
or_else none fallback = fallback
or_else (some a) fallback = a

abbrev pub is_eligible : Option (List String) → String → Bool
is_eligible none sym = true
is_eligible (some symbols) sym = mem sym symbols

module _ {R : Type 0} ⦃num : Number R⦄ where
  abbrev pub asked : Option (String → Option R) → String → Option R
  asked none sym = none
  asked (some f) sym = f sym

  abbrev pub volume_of : Option (String → Option R) → String → Bar R → Option R
  volume_of none sym bar = bar.volume
  volume_of (some f) sym bar = f sym

  -- `(used or {}).get(sym, 0.0)`
  abbrev pub used_of : Option (Dict String R) → String → R
  used_of none sym = zero
  used_of (some used) sym = or_else (lookup sym used) zero

  abbrev pub charge : Option (Dict String R) → String → R → Option (Dict String R)
  charge none sym q = none
  charge (some used) sym q = some (insert sym (used_of (some used) sym + q) used)

  abbrev pub capped : R → Option R → R
  capped q none = q
  capped q (some limit) = min q limit

  abbrev pub executable : Option (String → R → R) → String → R → R
  executable none sym q = q
  executable (some f) sym q = if epsilon < q then f sym q else q

  -- The quantity that both loops close.
  unfoldable pub close_amount : Market R → Exits R → String → PositionState R → Option R → R
  close_amount market state sym pos bar_volume = executable market.get_executable_quantity sym (
      capped pos.quantity (
        volume_fill_limit market.bar_rate bar_volume market.adv_rate
          (asked market.get_lagged_adv sym) (used_of state.used_bar sym)
          (used_of state.used_adv sym)))

  abbrev pub marked : Option String → PositionState R → PositionState R
  marked none pos = pos
  marked (some reason) pos = record pos { pending_market_exit_reason = some reason }

  -- The close of a quantity, as both loops book it.
  unfoldable pub close_now :
      Market R
      → String
      → PositionState R
      → R
      → String
      → Option R
      → R
      → Option String
      → Exits R
      → Exits R
  close_now market sym pos price reason bar_volume quantity market_exit_reason state =
      let (trade, event, proceeds, fully_closed) =
        build_close_event pos market.ts price (market.get_cost_model sym) reason (some quantity)
          bar_volume none in
      record state {
        trades = state.trades ++ trade ∷ [];
        events = state.events ++ event ∷ [];
        used_bar = charge state.used_bar sym quantity;
        used_adv = charge state.used_adv sym quantity;
        cash_delta = state.cash_delta + proceeds;
        positions =
            if fully_closed
            then erase sym state.positions
            else insert sym (reduce_position (marked market_exit_reason pos) quantity)
                state.positions;
      }

  abbrev pub marked_in :
      Option String
      → String
      → PositionState R
      → Dict String (PositionState R)
      → Dict String (PositionState R)
  marked_in none sym pos positions = positions
  marked_in (some reason) sym pos positions = insert sym (marked (some reason) pos) positions

  unfoldable pub defer : ℕ → String → PositionState R → Option String → Fields → Exits R → Exits R
  defer ts sym pos market_exit_reason context state = record state {
    positions = marked_in market_exit_reason sym pos state.positions;
    runtime_events =
        state.runtime_events ++ skipped_with ts "protective_exit_deferred" sym context ∷ [];
  }

  abbrev pub reason_in : Option (R × String) → Option String
  reason_in none = none
  reason_in (some (level, reason)) = some reason

  unfoldable pub market_exit_reason_of :
      PositionState R → Bar R → CostModel R → Option String → Option String
  market_exit_reason_of pos bar m (some pending) = none
  market_exit_reason_of pos bar m none =
      reason_in (
        with_range bar.high bar.low bar.open_
          (λ high low open_. crossed_market_exit pos high low m))

  -- What follows the test of tradability.
  unfoldable pub exit_step :
      Market R
      → String
      → PositionState R
      → R
      → String
      → Option R
      → Option String
      → Exits R
      → Bool
      → Exits R
  unfolding close_amount close_now defer
  exit_step market sym pos price reason bar_volume mark state false =
      defer market.ts sym pos mark (field "exit_reason" (text reason) end) state
  exit_step market sym pos price reason bar_volume mark state true =
      let quantity = close_amount market state sym pos bar_volume in
      if impact_volume_unavailable (market.get_cost_model sym) bar_volume
      then defer market.ts sym pos mark
          (field "exit_reason" (text reason) (field "unavailable" (text "volume") end)) state
      else if quantity ≤ epsilon
      then defer market.ts sym pos mark (field "exit_reason" (text reason) end) state
      else close_now market sym pos price reason bar_volume quantity mark state

  abbrev pub stop_hit :
      Market R
      → String
      → PositionState R
      → Bar R
      → Exits R
      → Option (R × String)
      → Result BarError (Exits R)
  stop_hit market sym pos bar state none = ok state
  stop_hit market sym pos bar state (some (price, reason)) =
      order_side_is_tradable bar (close_side_of pos.side) >>= λ tradable. ok (
        exit_step market sym pos price reason (volume_of market.get_volume sym bar)
          (market_exit_reason_of pos bar (market.get_cost_model sym) pos.pending_market_exit_reason)
          state tradable)

  -- A key of the snapshot is in the dict, since each turn of the loop deletes its own key only.
  abbrev pub stop_found :
      Market R
      → String
      → Exits R
      → Option (Bar R)
      → Option (PositionState R)
      → Result BarError (Exits R)
  stop_found market sym state (some bar) (some pos) =
      stop_hit market sym pos bar state (resolve_stop_exit pos bar (market.get_cost_model sym))
  stop_found market sym state _ _ = ok state

  unfoldable pub stop_step : Market R → String → Exits R → Result BarError (Exits R)
  unfolding exit_step
  stop_step market sym state =
      if is_eligible market.eligible_symbols sym
      then stop_found market sym state (lookup sym market.bars) (lookup sym state.positions)
      else ok state

  unfoldable pub stop_walk : Market R → List String → Exits R → Result BarError (Exits R)
  unfolding stop_step
  stop_walk market [] state = ok state
  stop_walk market (sym ∷ rest) state =
      stop_step market sym state >>= λ next. stop_walk market rest next

  abbrev pub keys : Dict String (PositionState R) → List String
  keys [] = []
  keys ((sym, _) ∷ rest) = sym ∷ keys rest

  abbrev pub started :
      Dict String (PositionState R) → Option (Dict String R) → Option (Dict String R) → Exits R
  started positions used_bar used_adv = record {
    positions = positions;
    used_bar = used_bar;
    used_adv = used_adv;
    trades = [];
    events = [];
    runtime_events = [];
    cash_delta = zero;
    causes = [];
  }

  unfoldable pub check_stop_targets :
      Market R
      → Dict String (PositionState R)
      → Option (Dict String R)
      → Option (Dict String R)
      → Result BarError (Exits R)
  unfolding stop_walk
  check_stop_targets market positions used_bar used_adv =
      stop_walk market (keys positions) (started positions used_bar used_adv)

  unfoldable pub queue_market_exit_all :
      String → Dict String (PositionState R) → Dict String (PositionState R)
  queue_market_exit_all reason [] = []
  queue_market_exit_all reason ((sym, pos) ∷ rest) =
      (sym, marked (some reason) pos) ∷ queue_market_exit_all reason rest
