-- ===== src/Core/Decisions/Admitted.antt =====
-- What an accepted list of intents satisfies.
use librae.Base.{
  some_inj, some-none, nat_beq_iff, String, ◌≡◌, sym, inl, inr, Bool, Bool-cases, true, false, not,
  ◌&&◌, Option, none, some, List, [], ◌∷◌, ◌++◌, ◌==◌, string_eq, Dict, ok, true-false, mem, All,
  Distinct,
}
use librae.Core.Intents.{
  OrderIntent, intents, TimeInForce, is_resting, is_some, symbol_of, symbols_of,
}
use librae.Core.Number.{Number}
use librae.Core.Decisions.{
  venue_at, taken_by, group_without_bars, unknown_symbols, shorts, venue_accepts, is_fok, is_short,
  absent_from, needs_quantity, check_intent, check_intents, with_member, with_leg, groups_from,
  check_groups, check_shorts, validate_strategy_decision,
}
use librae.Core.Decisions.Checks.{
  both, not_raised, negated, none_of-All, distinct_of-Distinct, select-none, All-mono, All-zip,
  All-append, All-unmap, All-unselect,
}

taken_by-venue :
    (venue : Option String) (is_limit : Bool) (lifetime : Option TimeInForce)
    → taken_by venue is_limit lifetime ≡ ok tt
    → (broker : String) (tif : TimeInForce) → venue ≡ some broker
    → lifetime ≡ some tif
    → venue_accepts broker is_limit tif ≡ true
taken_by-venue (some b) is_limit (some t) h broker tif venue lifetime =
    rw (sym (some_inj venue), sym (some_inj lifetime)) (negated _ (not_raised _ _ h))
taken_by-venue none is_limit lifetime h broker tif venue at = absurd (some-none (sym venue))
taken_by-venue (some b) is_limit none h broker tif venue at = absurd (some-none (sym at))

module _ {F : Type 0} (primary : String) where
  check_intents-All :
      (broker_for : Option (String → Option String)) (l : List (OrderIntent F))
      → check_intents primary broker_for l ≡ ok tt
      → All (λ i. check_intent primary broker_for i ≡ ok tt) l
  unfolding check_intents
  check_intents-All broker_for [] h = tt
  check_intents-All broker_for (i ∷ l) h =
      let (first, rest) = both _ _ h in (first, check_intents-All broker_for l rest)

  -- A leg of a group: its quantity is given or it is a close, and its symbol has a bar.
  abbrev pub IsLeg : List String → OrderIntent F → Type 0
  IsLeg bars i = (needs_quantity primary i ≡ false) × (mem (symbol_of primary i) bars ≡ true)

  abbrev AllLegs : List String → Dict String (List (OrderIntent F)) → Type 0
  AllLegs bars [] = Unit
  AllLegs bars ((_, members) ∷ rest) = All (IsLeg bars) members × AllLegs bars rest

  check_groups-AllLegs :
      (bars : List String) (groups : Dict String (List (OrderIntent F)))
      → check_groups primary bars groups ≡ ok tt
      → AllLegs bars groups
  unfolding check_groups
  check_groups-AllLegs bars [] h = tt
  check_groups-AllLegs bars ((g, members) ∷ rest) h =
      let (sized, later) = both _ _ h in
      let (priced, last) = both _ _ later in
      let quantities =
        select-none (needs_quantity primary) members (negated _ (not_raised _ _ sized)) in
      let symbols =
        none_of-All group_without_bars (absent_from bars) (symbols_of primary members) priced in
      let present =
        All-unmap (λ s. absent_from bars s ≡ false) (symbol_of primary) members symbols in
      (
        All-mono _ (IsLeg bars) (λ i (sized, here). (sized, negated _ here)) members
            (All-zip _ _ members quantities present),
        check_groups-AllLegs bars rest last,
      )

  with_member-AllLegs :
      (bars : List String) (g : String) (i : OrderIntent F)
      (groups : Dict String (List (OrderIntent F)))
      → AllLegs bars (with_member primary g i groups)
      → IsLeg bars i × AllLegs bars groups
  with_member-AllLegs bars g i [] h = (h.0.0, tt)
  with_member-AllLegs bars g i ((k, members) ∷ rest) h = elim (Bool-cases (k == g)) [
    | inl same ↦
        let whole : All (IsLeg bars) (members ++ i ∷ []) × AllLegs bars rest = rw same at h in
        let (old, new) = All-append (IsLeg bars) members (i ∷ []) (whole.0) in
        (new.0, (old, whole.1))
    | inr other ↦
        let whole : All (IsLeg bars) members × AllLegs bars (with_member primary g i rest) =
          rw other at h in
        let (leg, left) = with_member-AllLegs bars g i rest (whole.1) in (leg, (whole.0, left))
  ]

  groups_from-AllLegs :
      (bars : List String) (groups : Dict String (List (OrderIntent F))) (l : List (OrderIntent F))
      → AllLegs bars (groups_from primary groups l)
      → AllLegs bars groups × All (λ i. is_some i.group_id ≡ true → IsLeg bars i) l
  unfolding groups_from
  groups_from-AllLegs bars groups [] h = (h, tt)
  groups_from-AllLegs bars groups (i ∷ l) h =
      let (before, later) = groups_from-AllLegs bars (with_leg primary i.group_id i groups) l h in
      let (old, leg) = at i.group_id before in (old, (leg, later))
    where
      at :
          (group : Option String)
          → AllLegs bars (with_leg primary group i groups)
          → AllLegs bars groups × (is_some group ≡ true → IsLeg bars i)
      at none held = (held, λ some_group. absurd (true-false (sym some_group)))
      at (some g) held =
          let (leg, old) = with_member-AllLegs bars g i groups held in (old, λ _. leg)

  -- What the checks of one intent leave: a fill-or-kill entry has a quantity, the venue takes the lifetime,
  -- and no resting lifetime is in a group.
  abbrev pub Sound : Option (String → Option String) → OrderIntent F → Type 0
  Sound broker_for i =
      ((is_fok i.time_in_force && needs_quantity primary i) ≡ false)
      × ((broker : String) (tif : TimeInForce)
          → venue_at broker_for (symbol_of primary i) ≡ some broker
          → i.time_in_force ≡ some tif
          → venue_accepts broker (is_some i.limit_price) tif ≡ true)
      × ((is_resting i.time_in_force && is_some i.group_id) ≡ false)

  check_intent-Sound :
      (broker_for : Option (String → Option String)) (i : OrderIntent F)
      → check_intent primary broker_for i ≡ ok tt
      → Sound broker_for i
  unfolding check_intent
  check_intent-Sound broker_for i h =
      let (sized, later) = both _ _ h in
      let (taken, ungrouped) = both _ _ later in
      (not_raised _ _ sized, taken_by-venue _ _ _ taken, not_raised _ _ ungrouped)

  -- Where shorts are refused, a short names a symbol that can be short.
  abbrev pub MayShort : Option (String → Bool) → OrderIntent F → Type 0
  MayShort none i = Unit
  MayShort (some can_short) i = is_short i.action ≡ true → can_short (symbol_of primary i) ≡ true

module _ {R : Type 0} ⦃num : Number R⦄ (primary : String) where
  check_shorts-MayShort :
      (can_short : Option (String → Bool)) (l : List (OrderIntent R))
      → check_shorts primary can_short (intents l) ≡ ok tt
      → All (MayShort primary can_short) l
  check_shorts-MayShort none l h = always l
    where
      always : (l : List (OrderIntent R)) → All (λ _. Unit {0}) l
      always [] = tt
      always (x ∷ l) = (tt, always l)
  check_shorts-MayShort (some can_short) l h =
      All-mono _ (MayShort primary (some can_short)) (λ i may short. negated _ (may short)) l
        (All-unselect (λ s. not (can_short s) ≡ false) (symbol_of primary) (λ i. is_short i.action)
          l (none_of-All shorts (λ s. not (can_short s)) _ h))

  -- A list of intents that is accepted has no symbol twice, and each intent has a symbol of the universe;
  -- an explicit quantity where it is a fill-or-kill entry; a lifetime that its venue, where it has one, takes
  -- for its type of order; no resting lifetime in a group; in a group, a quantity unless it is a close, and a
  -- bar; and where shorts are refused, it is no short of a symbol that refuses them.
  pub validate_strategy_decision-Admits :
      (universe bars held : List String) (broker_for : Option (String → Option String))
      (can_short : Option (String → Bool)) (decision : List (OrderIntent R))
      → validate_strategy_decision primary universe bars held broker_for can_short
          (intents decision)
        ≡ ok tt
      → Distinct (symbols_of primary decision)
        × All (λ i. mem (symbol_of primary i) universe ≡ true) decision
        × All (Sound primary broker_for) decision
        × All (λ i. is_some i.group_id ≡ true → IsLeg primary bars i) decision
        × All (MayShort primary can_short) decision
  unfolding validate_strategy_decision
  validate_strategy_decision-Admits universe bars held broker_for can_short decision h =
      let symbols = symbols_of primary decision in
      let (body, after) = both _ _ h in
      let (once, checked) = both _ _ body in
      let (each, grouped) = both _ _ checked in
      let (known, shorted) = both _ _ after in
      (
        distinct_of-Distinct symbols ((nat_beq_iff _ _).0 (negated _ (not_raised _ _ once))),
        All-mono _ (λ i. mem (symbol_of primary i) universe ≡ true) (λ i here. negated _ here)
            decision
            (All-unmap (λ s. absent_from universe s ≡ false) (symbol_of primary) decision
              (none_of-All unknown_symbols (absent_from universe) symbols known)),
        All-mono _ (Sound primary broker_for) (check_intent-Sound primary broker_for) decision
            (check_intents-All primary broker_for decision each),
        (groups_from-AllLegs primary bars [] decision
            (check_groups-AllLegs primary bars (groups_from primary [] decision) grouped)).1,
        check_shorts-MayShort can_short decision shorted,
      )
