-- ===== src/Core/Rebalance/Cancelled.antt =====
-- What a protective exit takes out of a rebalance: exactly the legs of its symbols.
use librae.Base.{
  ℕ, ==_refl, String, ◌≡◌, refl, sym, ap, ◌∙◌, Bool, true, false, not, ◌&&◌, ◌||◌, Option, List, [],
  ◌∷◌, ◌++◌, map, ◌==◌, string_eq, Dict, lookup, contains, sorted_set, select, mem, All,
}
use librae.Core.Intents.{contains-eq}
use librae.Core.Number.{Number}
use librae.Core.Rebalance.{RebalanceOrderState, UnresolvedRebalanceLeg, PortfolioRebalanceState}
use librae.Core.Rebalance.Cancel.{
  Cancellation, split_walk, names, order_symbol, leg_symbol, with_order, with_leg, split_orders,
  split_legs, retained_state, cancelled_phase, cancellation, cancel_rebalance_symbols,
}
use librae.Core.Rebalance.Split.{
  mem-append, mem-sorted_set, mem-names, split_walk-retained, split_walk-contains,
  split_orders-lookup,
}

cancelled_names :
    {A B C : Type 0} (symbol_of : A → String) (added : A → Option B → B) (leg_of : C → String)
    (put : C → Option C → C) (exits : Dict String String) (items : List A) (legs : List C)
    (s : String)
    → mem s (
        sorted_set (
          names (split_walk symbol_of added exits ([], []) items).0
          ++ names (split_walk leg_of put exits ([], []) legs).0))
      ≡ (contains s exits && (mem s (map symbol_of items) || mem s (map leg_of legs)))
unfolding lookup
cancelled_names {B = B} {C = C} symbol_of added leg_of put exits items legs s =
    let k = names (split_walk symbol_of added exits ([], []) items).0 in
    let l = names (split_walk leg_of put exits ([], []) legs).0 in
    rw
      (
        mem-sorted_set s (k ++ l),
        mem-append s k l,
        mem-names s (split_walk symbol_of added exits ([], []) items).0,
        mem-names s (split_walk leg_of put exits ([], []) legs).0,
        split_walk-contains symbol_of added exits s [] [] items,
        split_walk-contains leg_of put exits s [] [] legs,
        contains-eq {V = B} s [],
        contains-eq {V = C} s [],
      )
      (either (contains s exits) (mem s (map symbol_of items)) (mem s (map leg_of legs)))
  where
    either : (exit a b : Bool) → (exit && a || exit && b) ≡ (exit && (a || b))
    either true a b = refl
    either false a b = refl

and_left : (a b : Bool) → (a && b) ≡ true → a ≡ true
and_left true b h = refl
and_left false b h = h

All-map :
    {B : Type 0} (P : B → Type 0) (f : String → B) (l : List String)
    → ((s : String) → mem s l ≡ true → P (f s))
    → All P (map f l)
unfolding mem
All-map P f [] h = tt
All-map P f (x ∷ l) h = (
  h x (rw (==_refl x)),
  All-map P f l (λ s at. h s (ap (λ b. x == s || b) at ∙ or_true (x == s))),
)
  where
    or_true : (b : Bool) → (b || true) ≡ true
    or_true true = refl
    or_true false = refl

module _ {R : Type 0} ⦃num : Number R⦄ (exits : Dict String String) (ts : ℕ) where
  symbols-cancellation :
      (orders : Dict String (List (RebalanceOrderState R)))
      (legs : Dict String (UnresolvedRebalanceLeg R)) (l : List String)
      → map (λ (e : Cancellation R). e.symbol) (map (cancellation exits ts orders legs) l) ≡ l
  symbols-cancellation orders legs [] = refl
  symbols-cancellation orders legs (s ∷ l) = ap (λ t. s ∷ t) (symbols-cancellation orders legs l)

  -- An event names a symbol that exits, with its reason, and its orders in their order.
  abbrev pub Reports : PortfolioRebalanceState R → Cancellation R → Type 0
  Reports state event =
      (contains event.symbol exits ≡ true)
      × (event.exit_reason ≡ lookup event.symbol exits)
      × (event.phases
          ≡ map cancelled_phase
              (select (λ (o : RebalanceOrderState R). order_symbol o == event.symbol) state.orders))

  -- The cancellation of the symbols of protective exits: the state keeps, in order, exactly the orders and
  -- legs of the other symbols, and is none where there is none; the symbols of the events are exactly those
  -- of an order or a leg that exit; and each event carries the reason of the exit and a phase for each order
  -- of its symbol, in order.
  pub cancel_rebalance_symbols-Exact :
      (state : PortfolioRebalanceState R)
      → ((cancel_rebalance_symbols state exits ts).0
          ≡ retained_state state
              (select (λ o. not (contains (order_symbol o) exits)) state.orders)
              (select (λ leg. not (contains (leg_symbol leg) exits)) state.unresolved_legs))
        × ((s : String)
            → mem s
                (map (λ (e : Cancellation R). e.symbol) (cancel_rebalance_symbols state exits ts).1)
              ≡ (contains s exits
                  && (mem s (map order_symbol state.orders)
                      || mem s (map leg_symbol state.unresolved_legs))))
        × All (Reports state) (cancel_rebalance_symbols state exits ts).1
  unfolding cancel_rebalance_symbols lookup
  cancel_rebalance_symbols-Exact state =
      let orders = (split_orders exits state.orders).0 in
      let legs = (split_legs exits state.unresolved_legs).0 in
      let symbols = sorted_set (names orders ++ names legs) in
      let named =
        cancelled_names order_symbol with_order leg_symbol with_leg exits state.orders
          state.unresolved_legs in
      (
        rw (
          split_walk-retained order_symbol with_order exits [] [] state.orders,
          split_walk-retained leg_symbol with_leg exits [] [] state.unresolved_legs,
        ),
        (λ s. ap (mem s) (symbols-cancellation orders legs symbols) ∙ named s),
        All-map (Reports state) (cancellation exits ts orders legs) symbols (λ s at.
            let exit = and_left (contains s exits) _ (sym (named s) ∙ at) in
            (
              exit,
              refl,
              ap (map cancelled_phase) (split_orders-lookup exits s exit [] [] state.orders),
            )),
      )
