-- ===== src/Core/Financing/Settled.antt =====
-- What the closes of a position are given, told by its payments.
use librae.Base.{
  refl, ℕ, ◌≡◌, refl, sym, ap, ◌∙◌, inl, inr, Bool, true, Option, none, some, List, [], ◌∷◌, ◌++◌,
  if◌then◌else◌, Bool-cases, ◌==◌, nat_eq, string_eq, Dict, lookup, insert, erase, lookup-insert,
  lookup-erase, ok, ok_inj, mem, err-ok, >>=-ok, true-false, false, ◌⊎◌,
}
use mathlib.Core.Path.{subst}
use mathlib.Core.List.{append_assoc, append-nil}
use librae.Core.Number.{Number, ◌+◌, ◌-◌, ◌*◌, ◌/◌, ◌<◌, ◌≤◌, min, zero, epsilon}
use librae.Core.Financing.{
  PositionKey, position_key_eq, FinancingBalance, TimelineItem, lifecycle, accrual, Attribution,
  release_from, accrue_step, FinancingLifecycleEvent, lifecycle_step, attribute_walk,
  FinancingPayment, enter_to, close_from, begun, epsilon, accrue_to, prior_quantity, is_closing,
}

module _ {R : Type 0} ⦃num : Number R⦄ (k : PositionKey) where
  abbrev pub accrued_of : Option (FinancingBalance R) → R
  accrued_of none = zero
  accrued_of (some balance) = balance.accrued

  -- What has accrued to the position and is not released.
  abbrev pub held : Attribution R → R
  held state = accrued_of (lookup k state.balances)

  -- What a close gives, of what the position holds: a whole close all of it, and another the share of the
  -- quantity that it closes; of another position it gives nothing.
  abbrev pub Gives : FinancingLifecycleEvent R → R → R → R → Type 0
  Gives event before amount after =
      ((event.key == k) ≡ true
        → (event.remaining_quantity ≤ epsilon) ≡ true
        → (amount ≡ before) × (after ≡ zero))
      × ((event.key == k) ≡ true
          → (event.remaining_quantity ≤ epsilon) ≡ false
          → (amount
              ≡ before * event.fill_quantity / (event.fill_quantity + event.remaining_quantity))
            × (after ≡ before - amount))
      × ((event.key == k) ≡ false → after ≡ before)

  -- A timeline, from what the position holds at first to what it holds at last, with the amounts of its
  -- closes: one for each close, in order.
  pub data Settles : R → List (TimelineItem R) → List (ℕ × PositionKey × R) → R → Type 0 where
    settled : (total : R) → Settles total [] [] total
    accrues :
        {total final : R} {rest : List (TimelineItem R)} {given : List (ℕ × PositionKey × R)}
        (i : ℕ) (flow : FinancingPayment R)
        → Settles (if flow.key == k then total + flow.cash_flow else total) rest given final
        → Settles total (accrual i flow ∷ rest) given final
    enters :
        {total final : R} {rest : List (TimelineItem R)} {given : List (ℕ × PositionKey × R)}
        (i : ℕ) (event : FinancingLifecycleEvent R)
        → is_closing event.event_type ≡ false
        → Settles total rest given final
        → Settles total (lifecycle i event ∷ rest) given final
    closes :
        {total after final : R} {rest : List (TimelineItem R)} {given : List (ℕ × PositionKey × R)}
        (i : ℕ) (event : FinancingLifecycleEvent R) (amount : R)
        → is_closing event.event_type ≡ true
        → Gives event total amount after
        → Settles after rest given final
        → Settles total (lifecycle i event ∷ rest) ((i, event.key, amount) ∷ given) final

  held-insert :
      (key : PositionKey) (balance : FinancingBalance R)
      (balances : Dict PositionKey (FinancingBalance R))
      → accrued_of (lookup k (insert key balance balances))
        ≡ (if key == k then balance.accrued else accrued_of (lookup k balances))
  held-insert key balance balances =
      ap accrued_of (lookup-insert key k balance balances)
      ∙ elim (Bool-cases (key == k)) [ inl h ↦ rw h | inr h ↦ rw h ]

  held-erase :
      (key : PositionKey) (balances : Dict PositionKey (FinancingBalance R))
      → accrued_of (lookup k (erase key balances))
        ≡ (if key == k then zero else accrued_of (lookup k balances))
  held-erase key balances =
      ap accrued_of (lookup-erase key k balances)
      ∙ elim (Bool-cases (key == k)) [ inl h ↦ rw h | inr h ↦ rw h ]

  -- The balance at a key, where that is the position's.
  at_key :
      (key : PositionKey) (state : Attribution R) (found : Option (FinancingBalance R))
      → lookup key state.balances ≡ found
      → (key == k) ≡ true
      → held state ≡ accrued_of found
  at_key key state found h same =
      let key≡k : key ≡ k = (position_key_eq.beq_iff key k).0 same in
      ap accrued_of (subst (λ j. lookup j state.balances ≡ found) key≡k h)

  -- The balances after an item, of which the balance of a key is replaced.
  grown-held :
      (amount : R) (key : PositionKey) (balance : FinancingBalance R) (state : Attribution R)
      (found : Option (FinancingBalance R))
      → lookup key state.balances ≡ found
      → balance.accrued ≡ accrued_of found + amount
      → accrued_of (lookup k (insert key balance state.balances))
        ≡ (if key == k then held state + amount else held state)
  grown-held amount key balance state found at_ grown =
      held-insert key balance state.balances ∙ elim (Bool-cases (key == k)) [
        | inl same ↦ rw same (grown ∙ ap (λ x. x + amount) (sym (at_key key state found at_ same)))
        | inr other ↦ rw other
      ]

  kept-held :
      (key : PositionKey) (balance : FinancingBalance R) (state : Attribution R)
      (found : Option (FinancingBalance R))
      → lookup key state.balances ≡ found
      → balance.accrued ≡ accrued_of found
      → accrued_of (lookup k (insert key balance state.balances)) ≡ held state
  kept-held key balance state found at_ kept =
      held-insert key balance state.balances ∙ elim (Bool-cases (key == k)) [
        | inl same ↦ rw same (kept ∙ sym (at_key key state found at_ same))
        | inr other ↦ rw other
      ]

  module _ (isclose : R → R → Bool) where
    -- What a payment does.
    abbrev Accrued : FinancingPayment R → Attribution R → Attribution R → Type 0
    Accrued flow state next =
        (next.released ≡ state.released)
        × (held next ≡ (if flow.key == k then held state + flow.cash_flow else held state))

    -- What an event that closes does, and what another does.
    abbrev Closed : ℕ → FinancingLifecycleEvent R → Attribution R → Attribution R → Type 0
    Closed i event state next =
        (amount : R) × (next.released ≡ state.released ++ (i, event.key, amount) ∷ [])
        × Gives event (held state) amount (held next)

    abbrev Entered : Attribution R → Attribution R → Type 0
    Entered state next = (next.released ≡ state.released) × (held next ≡ held state)

    release-Closed :
        (i : ℕ) (event : FinancingLifecycleEvent R) (state : Attribution R)
        (balance : FinancingBalance R)
        → ((event.key == k) ≡ true → held state ≡ balance.accrued)
        → Closed i event state (release_from isclose i event state balance)
    unfolding release_from
    release-Closed i event state balance holds =
        elim (Bool-cases (event.remaining_quantity ≤ epsilon)) [
          | inl gone ↦ rw gone (
            balance.accrued,
            refl,
            (
              (λ same _. (sym (holds same), held-erase event.key state.balances ∙ rw same)),
              (λ same left_. absurd (true-false left_)),
              (λ other. held-erase event.key state.balances ∙ rw other),
            ),
          )
          | inr left_ ↦
              let share = λ (accrued : R).
                accrued * event.fill_quantity / (event.fill_quantity + event.remaining_quantity) in
              let next_balance : FinancingBalance R = record {
                quantity = event.remaining_quantity;
                accrued = balance.accrued - share balance.accrued;
              } in
              rw left_ (
                share balance.accrued,
                refl,
                (
                  (λ same gone. absurd (true-false (sym gone))),
                  (λ same _. (
                    ap share (sym (holds same)),
                    held-insert event.key next_balance state.balances
                        ∙ rw same (ap (λ x. x - share balance.accrued) (sym (holds same))),
                  )),
                  (λ other. held-insert event.key next_balance state.balances ∙ rw other),
                ),
              )
        ]

    accrue-Accrued :
        (flow : FinancingPayment R) (state next : Attribution R)
        → accrue_step isclose flow state ≡ ok next
        → Accrued flow state next
    unfolding accrue_step
    accrue-Accrued flow state next h = elim (Bool-cases (flow.quantity ≤ epsilon)) [
      | inl bad ↦ absurd (err-ok (rw bad at h))
      | inr fine ↦ found (lookup flow.key state.balances) refl (rw fine at h)
    ]
      where
        found :
            (balance : Option (FinancingBalance R))
            → lookup flow.key state.balances ≡ balance
            → accrue_to isclose flow state balance ≡ ok next
            → Accrued flow state next
        found none at_ g = elim (Bool-cases (mem flow.key state.closed_keys)) [
          | inl closed ↦ absurd (err-ok (rw closed at g))
          | inr open_ ↦
              subst (Accrued flow state) (ok_inj (rw open_ at g))
                (refl, grown-held flow.cash_flow flow.key _ state none at_ refl)
        ]
        found (some balance) at_ g = elim (Bool-cases (isclose balance.quantity flow.quantity)) [
          | inl same ↦
              subst (Accrued flow state) (ok_inj (rw same at g))
                (refl, grown-held flow.cash_flow flow.key _ state (some balance) at_ refl)
          | inr differs ↦ absurd (err-ok (rw differs at g))
        ]

    enter-Entered :
        (event : FinancingLifecycleEvent R) (state next : Attribution R)
        (balance : Option (FinancingBalance R))
        → lookup event.key state.balances ≡ balance
        → enter_to isclose event state balance ≡ ok next
        → Entered state next
    enter-Entered event state next none at_ h =
        subst (Entered state) (ok_inj h) (refl, kept-held event.key _ state none at_ refl)
    enter-Entered event state next (some balance) at_ h =
        elim (Bool-cases
          (isclose balance.quantity (prior_quantity isclose event event.event_type))) [
            | inl same ↦
                subst (Entered state) (ok_inj (rw same at h))
                  (refl, kept-held event.key _ state (some balance) at_ refl)
            | inr differs ↦ absurd (err-ok (rw differs at h))
          ]

    close-Closed :
        (i : ℕ) (event : FinancingLifecycleEvent R) (state next : Attribution R)
        (balance : Option (FinancingBalance R))
        → lookup event.key state.balances ≡ balance
        → close_from isclose i event state balance ≡ ok next
        → Closed i event state next
    close-Closed i event state next none at_ h =
        subst (Closed i event state) (ok_inj h)
          (release-Closed i event state _ (λ same. at_key event.key state none at_ same))
    close-Closed i event state next (some balance) at_ h =
        elim (Bool-cases
          (isclose balance.quantity (event.fill_quantity + event.remaining_quantity))) [
            | inl same ↦ subst (Closed i event state) (ok_inj (rw same at h)) (
                release-Closed i event state balance
                  (λ here. at_key event.key state (some balance) at_ here))
            | inr differs ↦ absurd (err-ok (rw differs at h))
          ]

    lifecycle-Moved :
        (i : ℕ) (event : FinancingLifecycleEvent R) (state next : Attribution R)
        → lifecycle_step isclose i event state ≡ ok next
        → ((is_closing event.event_type ≡ true) × Closed i event state next)
          ⊎ ((is_closing event.event_type ≡ false) × Entered state next)
    unfolding lifecycle_step
    lifecycle-Moved i event state next h =
        elim (Bool-cases (min event.fill_quantity event.remaining_quantity < zero)) [
          | inl bad ↦ absurd (err-ok (rw bad at h))
          | inr fine ↦ elim (Bool-cases (is_closing event.event_type)) [
            | inl closing ↦
                elim (Bool-cases (event.fill_quantity + event.remaining_quantity ≤ epsilon)) [
                  | inl nothing ↦ absurd (err-ok (rw (fine, closing, nothing) at h))
                  | inr some_ ↦ inl (
                    closing,
                    close-Closed i event state next (lookup event.key state.balances) refl
                        (rw (fine, closing, some_) at h),
                  )
                ]
            | inr entering ↦ inr (
              entering,
              enter-Entered event state next (lookup event.key state.balances) refl
                  (rw (fine, entering) at h),
            )
          ]
        ]

    -- The rest of a timeline, with the amounts that it adds.
    abbrev Settled : Attribution R → List (TimelineItem R) → Attribution R → Type 0
    Settled state timeline after =
        (given : List (ℕ × PositionKey × R)) × (after.released ≡ state.released ++ given)
        × Settles (held state) timeline given (held after)

    walk-Settled :
        (timeline : List (TimelineItem R)) (state after : Attribution R)
        → attribute_walk isclose timeline state ≡ ok after
        → Settled state timeline after
    unfolding attribute_walk
    walk-Settled [] state after h =
        subst (Settled state []) (ok_inj h)
          ([], sym (append-nil state.released), settled (held state))
    walk-Settled (accrual i flow ∷ rest) state after h =
        let (next, step, later) = >>=-ok (accrue_step isclose flow state) _ h in
        let (same, moved) = accrue-Accrued flow state next step in
        let (given, grown, settles) = walk-Settled rest next after later in
        (
          given,
          grown ∙ ap (λ l. l ++ given) same,
          accrues i flow (subst (λ t. Settles t rest given (held after)) moved settles),
        )
    walk-Settled (lifecycle i event ∷ rest) state after h =
        let (next, step, later) = >>=-ok (lifecycle_step isclose i event state) _ h in
        let (given, grown, settles) = walk-Settled rest next after later in
        elim (lifecycle-Moved i event state next step) [
          | inl (closing, (amount, added, gives)) ↦ (
            (i, event.key, amount) ∷ given,
            grown
                ∙ ap (λ l. l ++ given) added
                ∙ append_assoc state.released ((i, event.key, amount) ∷ []) given,
            closes i event amount closing gives settles,
          )
          | inr (entering, (same, kept)) ↦ (
            given,
            grown ∙ ap (λ l. l ++ given) same,
            enters i event entering (subst (λ t. Settles t rest given (held after)) kept settles),
          )
        ]

-- A timeline that the attribution accepts from its beginning, told for each position by a total that
-- begins at zero: a payment to the position is added to it; each event that closes has one amount, in
-- order, and no other event has one; a close of the position gives all of the total where the quantity
-- that it leaves is within the tolerance, after which the total is zero, and otherwise the share of the
-- quantity that it closes, which is taken off; nothing else changes the total; and at the end it is what
-- the position still holds.
pub attribute_walk-Settles :
    {R : Type 0} ⦃num : Number R⦄ (isclose : R → R → Bool) (k : PositionKey)
    (timeline : List (TimelineItem R)) (after : Attribution R)
    → attribute_walk isclose timeline (begun isclose) ≡ ok after
    → Settles k zero timeline after.released (held k after)
unfolding lookup
attribute_walk-Settles isclose k timeline after h =
    let (given, grown, settles) = walk-Settled k isclose timeline (begun isclose) after h in
    subst (λ l. Settles k zero timeline l (held k after)) (sym grown) settles
