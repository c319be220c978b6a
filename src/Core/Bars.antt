-- ===== src/Core/Bars.antt =====
-- librae/core/executor.py: what one bar says of an order or of an open position. A column that a bar
-- lacks is `none`.
pub mod Exits
pub mod Limits
mod Tests
use librae.Base.{
  String, Bool, true, false, not, ◌||◌, Option, none, some, if◌then◌else◌, Result, ok, err, ◌>>=◌,
}
use librae.Core.Intents.{PositionSide, OrderIntent, OrderAction}
use librae.Core.Number.{Number, ◌<◌, ◌≤◌, min, max, zero, is_finite}
use librae.Core.Costs.{CostModel, liquidation_price}
use librae.Core.Positions.{PositionState}
use librae.Core.Fills.{OrderSide, buy, sell}

-- A tradability column: a Boolean, or a value of another type.
pub data Flag : Type 0 where
  boolean : Bool → Flag
  other : Flag

pub record Bar (R : Type 0) : Type 0 where
  pub high : Option R
  pub low : Option R
  pub open_ : Option R
  pub close_ : Option R
  pub volume : Option R
  pub can_buy : Option Flag
  pub can_sell : Option Flag

pub data BarError : Type 0 where
  flags_apart not_boolean : BarError

abbrev pub flag_of : OrderSide → Flag → Flag → Flag
flag_of buy can_buy can_sell = can_buy
flag_of sell can_buy can_sell = can_sell

unfoldable pub read_flag : Flag → Result BarError Bool
read_flag (boolean b) = ok b
read_flag other = err not_boolean

abbrev pub flags : OrderSide → Option Flag → Option Flag → Result BarError Bool
flags order_side none none = ok true
flags order_side (some can_buy) (some can_sell) = read_flag (flag_of order_side can_buy can_sell)
flags order_side _ _ = err flags_apart

unfoldable pub order_side_is_tradable : {R : Type 0} → Bar R → OrderSide → Result BarError Bool
unfolding read_flag
order_side_is_tradable bar order_side = flags order_side bar.can_buy bar.can_sell

-- The side that closes a position.
abbrev pub close_side_of : PositionSide → OrderSide
close_side_of PositionSide.long = sell
close_side_of PositionSide.short = buy

unfoldable pub intent_order_side : OrderAction → Option PositionSide → Option OrderSide
intent_order_side OrderAction.long held = some buy
intent_order_side OrderAction.short held = some sell
intent_order_side OrderAction.close (some side) = some (close_side_of side)
intent_order_side OrderAction.close none = none

module _ {R : Type 0} ⦃num : Number R⦄ where
  -- Whether the bar's range reaches a stop-market level.
  abbrev pub crosses_level : PositionSide → R → R → R → Bool
  crosses_level PositionSide.long high low level = low ≤ level
  crosses_level PositionSide.short high low level = level ≤ high

  abbrev pub crossed_at :
      PositionSide → R → R → Option R → String → Option (R × String) → Option (R × String)
  crossed_at side high low none reason later = later
  crossed_at side high low (some level) reason later =
      if crosses_level side high low level then some (level, reason) else later

  unfoldable pub crossed_market_exit : PositionState R → R → R → CostModel R → Option (R × String)
  crossed_market_exit pos high low m =
      crossed_at pos.side high low (liquidation_price m pos.entry_price pos.side) "liquidation"
        (crossed_at pos.side high low pos.stop_price "stop_loss" none)

  -- Whether a price is as good as the target.
  abbrev pub meets : PositionSide → R → Option R → Bool
  meets side price none = false
  meets PositionSide.long price (some tp) = tp ≤ price
  meets PositionSide.short price (some tp) = price ≤ tp

  -- The end of the bar's range on the side of the target, and the price of a stop-market fill.
  abbrev pub best : PositionSide → R → R → R
  best PositionSide.long high low = high
  best PositionSide.short high low = low

  abbrev pub worse : PositionSide → R → R → R
  worse PositionSide.long level open_ = min level open_
  worse PositionSide.short level open_ = max level open_

  abbrev pub target_exit : PositionSide → R → R → Option R → Option (R × String)
  target_exit side high low none = none
  target_exit side high low (some tp) =
      if meets side (best side high low) (some tp) then some (tp, "take_profit") else none

  abbrev pub market_exit :
      PositionSide → R → Option (R × String) → Option (R × String) → Option (R × String)
  market_exit side open_ none later = later
  market_exit side open_ (some (level, reason)) later = some (worse side level open_, reason)

  -- What follows the reading of the bar.
  unfoldable pub exit_from :
      PositionState R → R → R → R → CostModel R → Option String → Option (R × String)
  unfolding crossed_market_exit
  exit_from pos high low open_ m (some reason) = some (open_, reason)
  exit_from pos high low open_ m none =
      if meets pos.side open_ pos.take_profit_price
      then some (open_, "take_profit")
      else market_exit pos.side open_ (crossed_market_exit pos high low m)
          (target_exit pos.side high low pos.take_profit_price)

  abbrev pub with_range :
      {A : Type 0} → Option R → Option R → Option R → (R → R → R → Option A) → Option A
  with_range (some high) (some low) (some open_) f = f high low open_
  with_range _ _ _ f = none

  unfoldable pub resolve_stop_exit : PositionState R → Bar R → CostModel R → Option (R × String)
  unfolding exit_from
  resolve_stop_exit pos bar m =
      with_range bar.high bar.low bar.open_
        (λ high low open_. exit_from pos high low open_ m pos.pending_market_exit_reason)

  abbrev pub is_bad : R → Bool
  is_bad x = not (is_finite x) || x ≤ zero

  abbrev pub reached : OrderSide → R → R → R → Bool
  reached buy low high limit = low ≤ limit
  reached sell low high limit = limit ≤ high

  abbrev pub limit_price_at : OrderSide → R → R → R
  limit_price_at buy open_ limit = min open_ limit
  limit_price_at sell open_ limit = max open_ limit

  -- A limit order on a bar that has a range.
  unfoldable pub limit_in_range : OrderSide → R → R → R → R → Option R
  limit_in_range order_side limit high low open_ =
      if not (is_finite low) || not (is_finite high) || low ≤ zero || high ≤ zero || high < low
      then none
      else if is_bad open_
      then none
      else if reached order_side low high limit
      then some (limit_price_at order_side open_ limit)
      else none

  unfoldable pub limit_fill : Bar R → OrderSide → R → Option R
  unfolding limit_in_range
  limit_fill bar order_side limit =
      if is_bad limit
      then none
      else with_range bar.high bar.low bar.open_ (limit_in_range order_side limit)

  unfoldable pub market_fill : Option R → Option R
  market_fill none = none
  market_fill (some value) = if zero < value then some value else none

  unfoldable pub fill_price_of : Bar R → OrderSide → Option R → Option R
  unfolding limit_fill market_fill
  fill_price_of bar order_side (some limit) = limit_fill bar order_side limit
  fill_price_of bar order_side none = market_fill bar.open_

  unfoldable pub fill_price_for : Bar R → Option R → Option OrderSide → Result BarError (Option R)
  unfolding order_side_is_tradable fill_price_of
  fill_price_for bar limit none = ok none
  fill_price_for bar limit (some order_side) = order_side_is_tradable bar order_side >>= λ tradable.
      ok (if tradable then fill_price_of bar order_side limit else none)

  -- With the engines' `default_fill` of "open", the only one that it accepts.
  unfoldable pub resolve_fill_price :
      Bar R → OrderIntent R → Option PositionSide → Result BarError (Option R)
  unfolding intent_order_side fill_price_for
  resolve_fill_price bar intent position_side =
      fill_price_for bar intent.limit_price (intent_order_side intent.action position_side)
