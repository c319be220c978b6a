-- ===== src/Core/Bars/Limits.antt =====
-- A limit order fills at its limit or at a better price, and inside no other bar than one that
-- reaches it.
use mathlib.Core.Path.{subst}
use librae.Base.{
  ◌≡◌, refl, inl, inr, Bool, true, false, not, ◌||◌, Option, none, some, Bool-cases, Result, ok,
  err,
}
use librae.Core.Intents.{PositionSide, OrderIntent}
use librae.Core.Number.{Number, ◌<◌, ◌≤◌, zero, is_finite}
use librae.Core.Fills.{OrderSide, buy, sell}
use librae.Core.Bars.{
  Bar, BarError, order_side_is_tradable, intent_order_side, with_range, is_bad, reached,
  limit_price_at, limit_in_range, limit_fill, fill_price_for, resolve_fill_price,
}
use librae.Core.Bars.Exits.{IsOrder}

-- What a range gives, it gives at the bar's values.
with_range-some :
    {R A : Type 0} ⦃num : Number R⦄ (high low open_ : Option R) (f : R → R → R → Option A) (a : A)
    → with_range high low open_ f ≡ some a
    → (h : R) × (l : R) × (o : R) × (high ≡ some h)
      × (low ≡ some l)
      × (open_ ≡ some o)
      × (f h l o ≡ some a)
with_range-some (some h) (some l) (some o) f a found = (h, l, o, refl, refl, refl, found)
with_range-some none low open_ f a found = absurd cc
with_range-some (some h) none open_ f a found = absurd cc
with_range-some (some h) (some l) none f a found = absurd cc

module _ {R : Type 0} ⦃num : Number R⦄ where
  -- A buy pays no more than `limit`, a sale takes no less.
  abbrev pub Honours : OrderSide → R → R → Type 0
  Honours buy price limit = (limit < price) ≡ false
  Honours sell price limit = (price < limit) ≡ false

  limit_price_at-Honours :
      (order : IsOrder num) (side : OrderSide) (open_ limit : R)
      → Honours side (limit_price_at side open_ limit) limit
  limit_price_at-Honours order buy open_ limit = elim (Bool-cases (limit < open_)) [
    | inl above ↦ rw above (order.irrefl limit)
    | inr h ↦ rw h h
  ]
  limit_price_at-Honours order sell open_ limit = elim (Bool-cases (open_ < limit)) [
    | inl below ↦ rw below (order.irrefl limit)
    | inr h ↦ rw h h
  ]

  limit_in_range-Honours :
      (order : IsOrder num) (side : OrderSide) (limit high low open_ price : R)
      → limit_in_range side limit high low open_ ≡ some price
      → Honours side price limit × (reached side low high limit ≡ true)
  unfolding limit_in_range
  limit_in_range-Honours order side limit high low open_ price h =
      elim (Bool-cases
        (not (is_finite low) || not (is_finite high) || low ≤ zero || high ≤ zero || high < low)) [
          | inl invalid ↦ absurd cc
          | inr valid ↦ elim (Bool-cases (is_bad open_)) [
            | inl bad ↦ absurd cc
            | inr fine ↦ elim (Bool-cases (reached side low high limit)) [
              | inl hit ↦
                  let at : Path (Option R) (some (limit_price_at side open_ limit)) (some price) =
                    rw (valid, fine, hit) at h in
                  let price-eq : limit_price_at side open_ limit ≡ price = cc in
                  (
                    subst (λ p. Honours side p limit) price-eq
                        (limit_price_at-Honours order side open_ limit),
                    hit,
                  )
              | inr missed ↦ absurd cc
            ]
          ]
        ]

  limit_fill-Honours :
      (order : IsOrder num) (bar : Bar R) (side : OrderSide) (limit price : R)
      → limit_fill bar side limit ≡ some price
      → Honours side price limit
        × ((high : R) × (low : R) × (bar.high ≡ some high)
            × (bar.low ≡ some low)
            × (reached side low high limit ≡ true))
  unfolding limit_fill
  limit_fill-Honours order bar side limit price h = elim (Bool-cases (is_bad limit)) [
    | inl bad ↦ absurd cc
    | inr fine ↦
        let (high, low, open_, at_high, at_low, at_open, found) =
          with_range-some bar.high bar.low bar.open_ (limit_in_range side limit) price
            (rw fine at h) in
        let (honoured, hit) = limit_in_range-Honours order side limit high low open_ price found in
        (honoured, (high, low, at_high, at_low, hit))
  ]

  fill_price_for-Honours :
      (order : IsOrder num) (bar : Bar R) (side : OrderSide) (limit price : R)
      (tradable : Result BarError Bool)
      → order_side_is_tradable bar side ≡ tradable
      → fill_price_for bar (some limit) (some side) ≡ ok (some price)
      → (order_side_is_tradable bar side ≡ ok true)
        × Honours side price limit
        × ((high : R) × (low : R) × (bar.high ≡ some high)
            × (bar.low ≡ some low)
            × (reached side low high limit ≡ true))
  unfolding fill_price_for
  fill_price_for-Honours order bar side limit price (err e) at h = absurd cc
  fill_price_for-Honours order bar side limit price (ok false) at h = absurd cc
  fill_price_for-Honours order bar side limit price (ok true) at h =
      let (honoured, reach) = limit_fill-Honours order bar side limit price cc in
      (at, honoured, reach)

  -- A limit order whose side is known and that fills: the bar lets that side trade and its range
  -- reaches the limit, and a buy pays no more than the limit, a sale takes no less.
  pub resolve_fill_price-Honours :
      (order : IsOrder num) (bar : Bar R) (intent : OrderIntent R) (held : Option PositionSide)
      (side : OrderSide) (limit price : R)
      → intent.limit_price ≡ some limit
      → intent_order_side intent.action held ≡ some side
      → resolve_fill_price bar intent held ≡ ok (some price)
      → (order_side_is_tradable bar side ≡ ok true)
        × Honours side price limit
        × ((high : R) × (low : R) × (bar.high ≡ some high)
            × (bar.low ≡ some low)
            × (reached side low high limit ≡ true))
  unfolding resolve_fill_price
  resolve_fill_price-Honours order bar intent held side limit price at_limit at_side h =
      fill_price_for-Honours order bar side limit price (order_side_is_tradable bar side) refl
        (rw (at_limit, at_side) at h)
