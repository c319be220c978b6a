-- ===== src/Live/Halts/Ready.antt =====
-- A halt is reset exactly when every open position can be valued.
use librae.Base.{
  refl, cons-nil, true-false, sorted_set, ℕ, String, ◌≡◌, refl, sym, ◌↔◌, inl, inr, Bool, true,
  false, Option, none, some, List, [], ◌∷◌, Bool-cases, lookup, All, mem, string_eq,
}
use librae.Core.Readiness.{evaluate_observation}
use librae.Live.Halts.{
  Mark, is_missing, is_stale, Marks, mark_at, mark_of, marked, judged, evaluate_reset_readiness,
}

module _ {S : Type 0} (marks : Marks S) where
  -- The instrument has a price, a subscription and an observation, which is current.
  abbrev pub IsValued : String → Type 0
  IsValued symbol =
      (mem symbol marks.last_prices ≡ true)
      × ((subscription : S) × (lookup symbol marks.subscriptions ≡ some subscription)
          × ((observed_at : ℕ) × (lookup symbol marks.last_bar_ts ≡ some observed_at)
              × ((evaluate_observation (marks.calendar_of subscription) marks.now
                    (marks.staleness_grace subscription) (some observed_at)).fresh
                  ≡ true)))

  abbrev IsCurrent : Mark → Type 0
  IsCurrent mark = (is_missing mark ≡ false) × (is_stale mark ≡ false)

  valued-IsCurrent : (symbol : String) → IsValued symbol → IsCurrent (mark_of marks symbol)
  valued-IsCurrent symbol (priced, (subscription, subscribed, (observed_at, observed, fresh))) =
      rw (priced, subscribed, observed, fresh) (refl, refl)

  current-IsValued : (symbol : String) → IsCurrent (mark_of marks symbol) → IsValued symbol
  current-IsValued symbol h = elim (Bool-cases (mem symbol marks.last_prices)) [
    | inl priced ↦ (
      priced,
      found (lookup symbol marks.subscriptions) (lookup symbol marks.last_bar_ts) refl refl
          (rw priced at h),
    )
    | inr unpriced ↦ absurd (true-false ((rw unpriced at h).0))
  ]
    where
      found :
          (subscription : Option S) (observed : Option ℕ)
          → lookup symbol marks.subscriptions ≡ subscription
          → lookup symbol marks.last_bar_ts ≡ observed
          → IsCurrent (mark_at marks subscription observed)
          → (s : S) × (lookup symbol marks.subscriptions ≡ some s)
            × ((t : ℕ) × (lookup symbol marks.last_bar_ts ≡ some t)
                × ((evaluate_observation
                      (marks.calendar_of s)
                      marks.now
                      (marks.staleness_grace s)
                      (some t)).fresh
                    ≡ true))
      found none observed hs ho g = absurd (true-false (g.0))
      found (some s) none hs ho g = absurd (true-false (g.0))
      found (some s) (some t) hs ho g =
          elim (Bool-cases
            (evaluate_observation (marks.calendar_of s) marks.now (marks.staleness_grace s)
              (some t)).fresh) [
                | inl fresh ↦ (s, hs, (t, ho, fresh))
                | inr late ↦ absurd (true-false ((rw late at g).1))
              ]

  -- No symbol is missing or stale.
  judged-current :
      (symbols : List String)
      → All (λ s. IsCurrent (mark_of marks s)) symbols
      → (marked marks is_missing symbols ≡ []) × (marked marks is_stale symbols ≡ [])
  judged-current [] h = (refl, refl)
  judged-current (s ∷ rest) ((present, timely), later) =
      let (missing, stale) = judged-current rest later in (rw (present) missing, rw (timely) stale)

  IsCurrent-judged :
      (symbols : List String)
      → marked marks is_missing symbols ≡ []
      → marked marks is_stale symbols ≡ []
      → All (λ s. IsCurrent (mark_of marks s)) symbols
  IsCurrent-judged [] missing stale = tt
  IsCurrent-judged (s ∷ rest) missing stale = elim (Bool-cases (is_missing (mark_of marks s))) [
    | inl absent ↦ absurd (cons-nil (rw absent at missing))
    | inr present ↦ elim (Bool-cases (is_stale (mark_of marks s))) [
      | inl late ↦ absurd (cons-nil (rw late at stale))
      | inr timely ↦
          ((present, timely), IsCurrent-judged rest (rw present at missing) (rw timely at stale))
    ]
  ]

  judged-ready :
      (missing stale : List String)
      → (judged missing stale).ready ≡ true
      → (missing ≡ []) × (stale ≡ [])
  judged-ready (s ∷ missing) stale h = absurd (true-false (sym h))
  judged-ready [] (s ∷ stale) h = absurd (true-false (sym h))
  judged-ready [] [] h = (refl, refl)

  All-map :
      (P Q : String → Type 0) (symbols : List String)
      → ((s : String) → P s → Q s)
      → All P symbols
      → All Q symbols
  All-map P Q [] f h = tt
  All-map P Q (s ∷ rest) f (h, later) = (f s h, All-map P Q rest f later)

-- A halt may be reset exactly when its checkpoint is saved, no order at the broker is open, and every
-- symbol with a position has a price, a subscription and an observation that is current.
pub evaluate_reset_readiness-ready_iff :
    {S O : Type 0} (marks : Marks S) (halt_persisted : Bool) (active_orders : List O)
    (positions : List String)
    → ((evaluate_reset_readiness marks halt_persisted active_orders positions).ready ≡ true) ↔ (
        (halt_persisted ≡ true)
        × (active_orders ≡ [])
        × All (IsValued marks) (sorted_set positions))
unfolding evaluate_reset_readiness
evaluate_reset_readiness-ready_iff marks false active_orders positions =
    (λ h. absurd (true-false (sym h)), λ h. absurd (true-false (sym h.0)))
evaluate_reset_readiness-ready_iff marks true (o ∷ active_orders) positions =
    (λ h. absurd (true-false (sym h)), λ h. absurd (cons-nil h.1))
evaluate_reset_readiness-ready_iff marks true [] positions = (
  λ h.
      let (missing, stale) = judged-ready marks _ _ h in
      (
        refl,
        refl,
        All-map marks _ _ (sorted_set positions) (current-IsValued marks)
            (IsCurrent-judged marks (sorted_set positions) missing stale),
      ),
  λ h.
      let (missing, stale) =
        judged-current marks (sorted_set positions)
          (All-map marks _ _ (sorted_set positions) (valued-IsCurrent marks) h.2) in
      rw (missing, stale),
)
