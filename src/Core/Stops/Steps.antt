-- ===== src/Core/Stops/Steps.antt =====
-- What one forced close does to a book.
use mathlib.Core.Path.{subst}
use librae.Base.{
  String, ◌≡◌, refl, sym, ap, ◌∙◌, Bool, inl, inr, true, false, Option, none, some, List, [], ◌∷◌,
  ◌++◌, if◌then◌else◌, Bool-cases, ◌==◌, ◌&&◌, arith, nat_eq, string_eq, Dict, lookup, insert,
  erase, lookup-insert, lookup-erase,
}
use librae.Core.Number.{Number, ◌-◌, ◌<◌, ◌≤◌, min, max, zero, epsilon}
use librae.Core.Costs.{CostModel}
use librae.Core.Positions.{PositionState, PositionEvent, close_position, reduce_position}
use librae.Core.Fills.Settled.{min_again}
use librae.Core.Fills.Book.{told, paid, replay_held, replay_cash}
use librae.Core.Stops.{Exits, marked}

-- Facts of IEEE 754 on the tolerance: what a quantity leaves of one that is larger by more than it is
-- positive if it is within the tolerance; zero is not less than itself; a number that is less than another is not
-- below itself less the tolerance; and what is not positive is within it.
pub record IsTolerance {R : Type 0} (num : Number R) : Type 0 where
  pub apart :
      (q c : R)
      → num.le (num.sub q num.epsilon) c ≡ false
      → num.le (num.sub q c) num.epsilon ≡ true
      → num.lt num.zero (num.sub q c) ≡ true
  pub irrefl : num.lt num.zero num.zero ≡ false
  pub over : (q c : R) → num.lt q c ≡ true → num.le (num.sub q num.epsilon) q ≡ true
  pub tiny : (x : R) → num.le x num.epsilon ≡ false → num.le x num.zero ≡ false

pub same_either : {A : Type 0} (b : Bool) (a : A) → a ≡ (if b then a else a)
same_either true a = refl
same_either false a = refl

module _ {R : Type 0} ⦃num : Number R⦄ where
  abbrev pub size_of : Option (PositionState R) → Option R
  size_of none = none
  size_of (some p) = some (max zero p.quantity)

  -- The open quantity of an instrument, not below zero.
  abbrev pub size : String → Dict String (PositionState R) → Option R
  size k positions = size_of (lookup k positions)

  -- A position stands under its symbol and has a positive quantity.
  abbrev pub Fits : String → Option (PositionState R) → Type 0
  Fits k none = Unit
  Fits k (some p) = (p.symbol ≡ k) × ((p.quantity ≤ zero) ≡ false)

  -- Each position of a book does.
  abbrev pub IsBook : Dict String (PositionState R) → Type 0
  IsBook positions = (k : String) → Fits k (lookup k positions)

  -- The events since `before` tell the book and the cash.
  abbrev pub Explains : Dict String (PositionState R) → Exits R → Type 0
  Explains before state =
      IsBook state.positions
      × ((k : String) → size k state.positions ≡ replay_held k (size k before) state.events)
      × (state.cash_delta ≡ replay_cash zero state.events)

  pub replay_held-append :
      (k : String) (q : Option R) (xs : List (PositionEvent R)) (e : PositionEvent R)
      → replay_held k q (xs ++ e ∷ []) ≡ told k e (replay_held k q xs)
  replay_held-append k q [] e = refl
  replay_held-append k q (x ∷ xs) e = replay_held-append k (told k x q) xs e

  pub replay_cash-append :
      (c : R) (xs : List (PositionEvent R)) (e : PositionEvent R)
      → replay_cash c (xs ++ e ∷ []) ≡ paid (replay_cash c xs) e.cash_flow
  replay_cash-append c [] e = refl
  replay_cash-append c (x ∷ xs) e = replay_cash-append (paid c x.cash_flow) xs e

  pub size-insert :
      (k s : String) (p : PositionState R) (positions : Dict String (PositionState R))
      → size k (insert s p positions)
        ≡ (if s == k then some (max zero p.quantity) else size k positions)
  size-insert k s p positions =
      ap size_of (lookup-insert s k p positions)
      ∙ elim (Bool-cases (s == k)) [ inl h ↦ rw h | inr h ↦ rw h ]

  pub size-erase :
      (k s : String) (positions : Dict String (PositionState R))
      → size k (erase s positions) ≡ (if s == k then none else size k positions)
  size-erase k s positions =
      ap size_of (lookup-erase s k positions)
      ∙ elim (Bool-cases (s == k)) [ inl h ↦ rw h | inr h ↦ rw h ]

  pub IsBook-insert :
      (s : String) (p : PositionState R) (positions : Dict String (PositionState R))
      → p.symbol ≡ s
      → (p.quantity ≤ zero) ≡ false
      → IsBook positions
      → IsBook (insert s p positions)
  IsBook-insert s p positions same positive book k =
      subst (Fits k) (sym (lookup-insert s k p positions)) (elim (Bool-cases (s == k)) [
        | inl h ↦ rw h (same ∙ (string_eq.beq_iff s k).0 h, positive)
        | inr h ↦ rw h (book k)
      ])

  pub IsBook-erase :
      (s : String) (positions : Dict String (PositionState R))
      → IsBook positions
      → IsBook (erase s positions)
  IsBook-erase s positions book k =
      subst (Fits k) (sym (lookup-erase s k positions))
        (elim (Bool-cases (s == k)) [ inl h ↦ rw h tt | inr h ↦ rw h (book k) ])

  pub book-found :
      (s : String) (p : PositionState R) (positions : Dict String (PositionState R))
      → IsBook positions
      → lookup s positions ≡ some p
      → (p.symbol ≡ s) × ((p.quantity ≤ zero) ≡ false)
  book-found s p positions book found = subst (Fits s) found (book s)

  -- The quantity that is closed, and whether it is all.
  pub close-full :
      (pos : PositionState R) (price : R) (m : CostModel R) (q : R) (bar_volume : Option R)
      → (min q pos.quantity ≤ zero) ≡ false
      → (close_position pos price m (some (min q pos.quantity)) bar_volume).2
        ≡ (pos.quantity - epsilon ≤ min q pos.quantity)
  unfolding close_position
  close-full pos price m q bar_volume positive = rw (min_again q pos.quantity, positive)

  pub min-positive : (a b : R) → (a ≤ zero) ≡ false → (b ≤ zero) ≡ false → (min a b ≤ zero) ≡ false
  min-positive a b ha hb = elim (Bool-cases (b < a)) [ inl h ↦ rw h hb | inr h ↦ rw h ha ]

  -- Less than all of a quantity is closed as it was asked for.
  pub min-part :
      (tolerance : IsTolerance num) (a b : R) → (b - epsilon ≤ min a b) ≡ false → min a b ≡ a
  min-part tolerance a b part = elim (Bool-cases (b < a)) [
    | inl h ↦
        let all : (b - epsilon ≤ b) ≡ false = rw h at part in
        absurd (cc (tolerance.over b a h, all))
    | inr h ↦ rw h
  ]

  -- What is left of a quantity, within the tolerance or beyond it, as an event says it.
  pub spared-max :
      (x : R)
      → (zero < x) ≡ true
      → (x ≤ epsilon) ≡ true
      → (max zero x ≤ epsilon && zero < max zero x) ≡ true
  spared-max x positive within = rw (positive, within, positive)

  pub beyond-max :
      (tolerance : IsTolerance num) (x : R)
      → (x ≤ epsilon) ≡ false
      → (max zero x ≤ epsilon && zero < max zero x) ≡ false
  beyond-max tolerance x beyond = elim (Bool-cases (zero < x)) [
    | inl positive ↦ rw (positive, beyond)
    | inr h ↦ rw (h, tolerance.irrefl) (ground arith)
  ]

  -- A partial close of a position: what is within the tolerance undoes it.
  pub reduce-spared :
      (mark : Option String) (pos : PositionState R) (c : R)
      → (pos.quantity - c ≤ epsilon) ≡ true
      → (reduce_position (marked mark pos) c).quantity ≡ pos.quantity
  unfolding reduce_position
  reduce-spared none pos c within = rw within
  reduce-spared (some reason) pos c within = rw within

  pub reduce-left :
      (mark : Option String) (pos : PositionState R) (c : R)
      → (pos.quantity - c ≤ epsilon) ≡ false
      → (reduce_position (marked mark pos) c).quantity ≡ pos.quantity - c
  unfolding reduce_position
  reduce-left none pos c beyond = rw beyond
  reduce-left (some reason) pos c beyond = rw beyond

  pub rest-positive :
      (tolerance : IsTolerance num) (mark : Option String) (pos : PositionState R) (c : R)
      → (pos.quantity ≤ zero) ≡ false
      → ((reduce_position (marked mark pos) c).quantity ≤ zero) ≡ false
  rest-positive tolerance mark pos c positive = elim (Bool-cases (pos.quantity - c ≤ epsilon)) [
    | inl within ↦ rw (reduce-spared mark pos c within) positive
    | inr beyond ↦ rw (reduce-left mark pos c beyond) (tolerance.tiny _ beyond)
  ]

  -- The sizes after a partial close, as an event tells them of the sizes before.
  pub size-spared :
      (k s : String) (mark : Option String) (pos : PositionState R) (c : R)
      (positions : Dict String (PositionState R))
      → lookup s positions ≡ some pos
      → (pos.quantity - c ≤ epsilon) ≡ true
      → size k (insert s (reduce_position (marked mark pos) c) positions) ≡ size k positions
  size-spared k s mark pos c positions found within =
      size-insert k s (reduce_position (marked mark pos) c) positions ∙ elim (Bool-cases (s == k)) [
        | inl here ↦
            rw (here, reduce-spared mark pos c within)
              (sym (ap size_of found) ∙ ap (λ t. size t positions) ((string_eq.beq_iff s k).0 here))
        | inr other ↦ rw other
      ]

  pub size-left :
      (k s : String) (mark : Option String) (pos : PositionState R) (c : R)
      (positions : Dict String (PositionState R))
      → (pos.quantity - c ≤ epsilon) ≡ false
      → size k (insert s (reduce_position (marked mark pos) c) positions)
        ≡ (if s == k then some (max zero (pos.quantity - c)) else size k positions)
  size-left k s mark pos c positions beyond =
      size-insert k s (reduce_position (marked mark pos) c) positions
      ∙ rw (reduce-left mark pos c beyond)

  pub symbol-reduce :
      (mark : Option String) (pos : PositionState R) (q : R)
      → (reduce_position (marked mark pos) q).symbol ≡ pos.symbol
  unfolding reduce_position
  symbol-reduce none pos q = elim (Bool-cases (pos.quantity - q ≤ epsilon)) [
    | inl h ↦ rw h
    | inr h ↦ rw h
  ]
  symbol-reduce (some reason) pos q = elim (Bool-cases (pos.quantity - q ≤ epsilon)) [
    | inl h ↦ rw h
    | inr h ↦ rw h
  ]
