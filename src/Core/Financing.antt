-- ===== src/Core/Financing.antt =====
-- librae/core/financing.py: `attribute_financing_to_closes`, which allots the payments of a position to its
-- closes. An instant is a number of microseconds.
pub mod Settled
mod Tests
use librae.Base.{
  ℕ, String, ◌≡◌, ◌↔◌, Bool, true, false, ◌&&◌, ◌||◌, Option, none, some, List, [], ◌∷◌, ◌++◌,
  arith, ltb, nat_beq, if◌then◌else◌, Eq, ◌==◌, nat_eq, string_eq, Dict, lookup, insert, erase,
  Result, ok, err, ◌>>=◌, mem, suc,
}
use librae.Core.Number.{Number, ◌+◌, ◌-◌, ◌*◌, ◌/◌, ◌<◌, ◌≤◌, min, zero, epsilon}
use librae.Core.Positions.{PositionEventType, open_, add_, reduce_, close_}
use librae.Core.Stops.{or_else}

-- The symbol and the instant of entry of a position.
pub record PositionKey : Type 0 where
  pub symbol : String
  pub entry_at : ℕ

abbrev pub key_same : PositionKey → PositionKey → Bool
key_same a b = a.symbol == b.symbol && a.entry_at == b.entry_at

pub key_same_iff : (a b : PositionKey) → (key_same a b ≡ true) ↔ (a ≡ b)
key_same_iff a b =
    ground (arith, string_eq.beq_iff a.symbol b.symbol, nat_eq.beq_iff a.entry_at b.entry_at)

instance abbrev pub position_key_eq : Eq PositionKey
position_key_eq = record { beq = λ a b. key_same a b; beq_iff = key_same_iff }

pub record FinancingLifecycleEvent (R : Type 0) : Type 0 where
  pub ts : ℕ
  pub key : PositionKey
  pub event_type : PositionEventType
  pub fill_quantity : R
  pub remaining_quantity : R
  pub after_bar_accrual : Bool

-- The fields of a `FinancingCashFlow` that the attribution reads.
pub record FinancingPayment (R : Type 0) : Type 0 where
  pub ts : ℕ
  pub key : PositionKey
  pub quantity : R
  pub cash_flow : R

pub record FinancingBalance (R : Type 0) : Type 0 where
  pub quantity : R
  pub accrued : R

pub data FinancingError : Type 0 where
  payment_not_positive payment_to_closed payment_mismatch : FinancingError
  negative_quantity entry_mismatch close_not_positive close_mismatch : FinancingError

-- A place of the timeline: an event with its index, or a payment.
pub data TimelineItem (R : Type 0) : Type 0 where
  lifecycle : ℕ → FinancingLifecycleEvent R → TimelineItem R
  accrual : ℕ → FinancingPayment R → TimelineItem R

-- What the loop changes; `released` is what it assigns to the closes, by the index of their event.
pub record Attribution (R : Type 0) : Type 0 where
  pub balances : Dict PositionKey (FinancingBalance R)
  pub closed_keys : List PositionKey
  pub released : List (ℕ × PositionKey × R)

-- `item[0], item[1], item[2]`
abbrev pub sort_key : {R : Type 0} → TimelineItem R → ℕ × ℕ × ℕ
sort_key (lifecycle index event) = (event.ts, if event.after_bar_accrual then 2 else 0, index)
sort_key (accrual index flow) = (flow.ts, 1, index)

abbrev pub precedes : ℕ × ℕ × ℕ → ℕ × ℕ × ℕ → Bool
precedes (a, b, c) (x, y, z) = ltb a x || nat_beq a x && (ltb b y || nat_beq b y && ltb c z)

unfoldable pub place : {R : Type 0} → TimelineItem R → List (TimelineItem R) → List (TimelineItem R)
place item [] = item ∷ []
place item (next ∷ rest) =
    let later = place item rest in
    if precedes (sort_key next) (sort_key item) then next ∷ later else item ∷ next ∷ rest

unfoldable pub sorted_timeline : {R : Type 0} → List (TimelineItem R) → List (TimelineItem R)
unfolding place
sorted_timeline [] = []
sorted_timeline (item ∷ rest) = place item (sorted_timeline rest)

abbrev pub numbered_events :
    {R : Type 0} → ℕ → List (FinancingLifecycleEvent R) → List (TimelineItem R)
numbered_events i [] = []
numbered_events i (e ∷ rest) = lifecycle i e ∷ numbered_events (suc i) rest

abbrev pub numbered_flows : {R : Type 0} → ℕ → List (FinancingPayment R) → List (TimelineItem R)
numbered_flows i [] = []
numbered_flows i (f ∷ rest) = accrual i f ∷ numbered_flows (suc i) rest

abbrev pub is_closing : PositionEventType → Bool
is_closing reduce_ = true
is_closing close_ = true
is_closing _ = false

-- `isclose` with rel_tol 1e-9 and abs_tol EPSILON is a parameter.
module _ {R : Type 0} ⦃num : Number R⦄ (isclose : R → R → Bool) where
  abbrev pub with_balance : PositionKey → FinancingBalance R → Attribution R → Attribution R
  with_balance key balance state = record state { balances = insert key balance state.balances }

  abbrev pub accrue_to :
      FinancingPayment R
      → Attribution R
      → Option (FinancingBalance R)
      → Result FinancingError (Attribution R)
  accrue_to flow state none =
      if mem flow.key state.closed_keys
      then err payment_to_closed
      else ok (
          with_balance flow.key
            (record { quantity = flow.quantity; accrued = zero + flow.cash_flow }) state)
  accrue_to flow state (some balance) =
      if isclose balance.quantity flow.quantity
      then ok (
          with_balance flow.key (record balance { accrued = balance.accrued + flow.cash_flow })
            state)
      else err payment_mismatch

  unfoldable pub accrue_step :
      FinancingPayment R → Attribution R → Result FinancingError (Attribution R)
  accrue_step flow state =
      if flow.quantity ≤ epsilon
      then err payment_not_positive
      else accrue_to flow state (lookup flow.key state.balances)

  abbrev pub prior_quantity : FinancingLifecycleEvent R → PositionEventType → R
  prior_quantity event open_ = zero
  prior_quantity event _ = event.remaining_quantity - event.fill_quantity

  abbrev pub enter_to :
      FinancingLifecycleEvent R
      → Attribution R
      → Option (FinancingBalance R)
      → Result FinancingError (Attribution R)
  enter_to event state none = ok (
      with_balance event.key (record { quantity = event.remaining_quantity; accrued = zero }) state)
  enter_to event state (some balance) =
      if isclose balance.quantity (prior_quantity event event.event_type)
      then ok
          (with_balance event.key (record balance { quantity = event.remaining_quantity }) state)
      else err entry_mismatch

  -- The release to a close, from the balance that it found or made.
  unfoldable pub release_from :
      ℕ → FinancingLifecycleEvent R → Attribution R → FinancingBalance R → Attribution R
  release_from index event state balance =
      let part =
        balance.accrued * event.fill_quantity / (event.fill_quantity + event.remaining_quantity) in
      if event.remaining_quantity ≤ epsilon
      then record state {
        balances = erase event.key state.balances;
        closed_keys = event.key ∷ state.closed_keys;
        released = state.released ++ (index, event.key, balance.accrued) ∷ [];
      }
      else record state {
        balances =
            insert event.key
              (record { quantity = event.remaining_quantity; accrued = balance.accrued - part })
              state.balances;
        released = state.released ++ (index, event.key, part) ∷ [];
      }

  abbrev pub close_from :
      ℕ
      → FinancingLifecycleEvent R
      → Attribution R
      → Option (FinancingBalance R)
      → Result FinancingError (Attribution R)
  close_from index event state none = ok (
      release_from index event state
        (record { quantity = event.fill_quantity + event.remaining_quantity; accrued = zero }))
  close_from index event state (some balance) =
      if isclose balance.quantity (event.fill_quantity + event.remaining_quantity)
      then ok (release_from index event state balance)
      else err close_mismatch

  unfoldable pub lifecycle_step :
      ℕ → FinancingLifecycleEvent R → Attribution R → Result FinancingError (Attribution R)
  unfolding release_from
  lifecycle_step index event state =
      let balance = lookup event.key state.balances in
      if min event.fill_quantity event.remaining_quantity < zero
      then err negative_quantity
      else if is_closing event.event_type
      then (if event.fill_quantity + event.remaining_quantity ≤ epsilon
          then err close_not_positive
          else close_from index event state balance)
      else enter_to event state balance

  -- The loop over the timeline.
  unfoldable pub attribute_walk :
      List (TimelineItem R) → Attribution R → Result FinancingError (Attribution R)
  unfolding accrue_step lifecycle_step
  attribute_walk [] state = ok state
  attribute_walk (lifecycle index event ∷ rest) state =
      lifecycle_step index event state >>= λ next. attribute_walk rest next
  attribute_walk (accrual index flow ∷ rest) state =
      accrue_step flow state >>= λ next. attribute_walk rest next

  -- `attributed`, one amount for each close in the order of the events.
  abbrev pub amount_of : ℕ → List (ℕ × PositionKey × R) → R
  amount_of index [] = zero
  amount_of index ((i, key, amount) ∷ rest) =
      if nat_beq i index then amount else amount_of index rest

  abbrev pub attributed_to : List (TimelineItem R) → List (ℕ × PositionKey × R) → List R
  attributed_to [] released = []
  attributed_to (lifecycle index event ∷ rest) released =
      let later = attributed_to rest released in
      if is_closing event.event_type then amount_of index released ∷ later else later
  attributed_to (accrual index flow ∷ rest) released = attributed_to rest released

  abbrev pub begun : Attribution R
  begun = record { balances = []; closed_keys = []; released = [] }

  unfoldable pub attribute_financing_to_closes :
      List (FinancingLifecycleEvent R) → List (FinancingPayment R) → Result FinancingError (List R)
  unfolding attribute_walk sorted_timeline
  attribute_financing_to_closes events flows =
      attribute_walk (sorted_timeline (numbered_events 0 events ++ numbered_flows 0 flows)) begun
      >>= λ done. ok (attributed_to (numbered_events 0 events) done.released)
