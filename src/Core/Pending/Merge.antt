-- ===== src/Core/Pending/Merge.antt =====
-- When pending and new decisions merge.
use librae.Base.{
  String, ◌≡◌, refl, ap, ◌↔◌, Bool, true, false, ◌||◌, List, [], ◌∷◌, ◌++◌, arith, ok, is_nil,
  select, All, mem, Distinct, string_eq, Bool-cases, inl, inr, if◌then◌else◌, err,
}
use mathlib.Core.List.{append-nil}
use librae.Core.Intents.{OrderIntent, intents, symbol_of, symbols_of}
use librae.Core.Pending.{overlap, merge_pending_decisions, duplicate_intents}

-- No text of one list stands in the other.
abbrev pub Disjoint : List String → List String → Type 0
Disjoint xs ys = All (λ s. mem s ys ≡ false) xs

select-nil :
    (keep : String → Bool) (xs : List String)
    → is_nil (select keep xs) ≡ true
    → All (λ s. keep s ≡ false) xs
select-nil keep [] h = tt
select-nil keep (x ∷ xs) h = ground (arith, select-nil keep xs)

nil-select :
    (keep : String → Bool) (xs : List String)
    → All (λ s. keep s ≡ false) xs
    → is_nil (select keep xs) ≡ true
nil-select keep [] h = refl
nil-select keep (x ∷ xs) h = ground (arith, nil-select keep xs)

mem-append : (s : String) (xs ys : List String) → mem s (xs ++ ys) ≡ (mem s xs || mem s ys)
unfolding mem
mem-append s [] ys = refl
mem-append s (x ∷ xs) ys = ground (arith, mem-append s xs ys)

pub Distinct-append :
    (xs ys : List String) → Distinct xs → Distinct ys → Disjoint xs ys → Distinct (xs ++ ys)
Distinct-append [] ys dx dy h = dy
Distinct-append (x ∷ xs) ys dx dy h =
    (rw (mem-append x xs ys, dx.0, h.0), Distinct-append xs ys dx.1 dy h.1)

map-append_symbols :
    {F : Type 0} (primary : String) (xs ys : List (OrderIntent F))
    → symbols_of primary (xs ++ ys) ≡ symbols_of primary xs ++ symbols_of primary ys
map-append_symbols primary [] ys = refl
map-append_symbols primary (x ∷ xs) ys =
    ap (λ l. symbol_of primary x ∷ l) (map-append_symbols primary xs ys)

none_mem : (xs : List String) → All (λ s. mem s [] ≡ false) xs
unfolding mem
none_mem [] = tt
none_mem (x ∷ xs) = (refl, none_mem xs)

module _ {F : Type 0} (primary : String) where
  merge_intents :
      (pending new : List (OrderIntent F))
      → merge_pending_decisions primary (intents pending) (intents new) ≡ (
          if is_nil (overlap primary pending new)
          then ok (intents (pending ++ new))
          else err (duplicate_intents (overlap primary pending new)))
  unfolding merge_pending_decisions overlap
  merge_intents [] new = refl
  merge_intents (x ∷ xs) [] = rw (
    nil-select (λ s. mem s []) (symbols_of primary (x ∷ xs))
        (none_mem (symbols_of primary (x ∷ xs))),
    append-nil,
  )
  merge_intents (x ∷ xs) (y ∷ ys) = refl

  -- Two lists of intents merge, into the one followed by the other, exactly when they share no
  -- symbol.
  pub merge-ok_iff :
      (pending new : List (OrderIntent F))
      → (merge_pending_decisions primary (intents pending) (intents new)
          ≡ ok (intents (pending ++ new)))
        ↔ Disjoint (symbols_of primary pending) (symbols_of primary new)
  unfolding overlap
  merge-ok_iff pending new =
      rw (merge_intents pending new) (elim (Bool-cases (is_nil (overlap primary pending new))) [
        | inl apart ↦ rw apart (λ _. select-nil _ (symbols_of primary pending) apart, λ _. refl)
        | inr shared ↦ rw shared (λ h. cc, λ d. cc (nil-select _ (symbols_of primary pending) d))
      ])

  -- At most one intent for each symbol is ever pending: merging keeps that, from lists of intents
  -- that have it.
  pub merge-Distinct :
      (pending new merged : List (OrderIntent F))
      → Distinct (symbols_of primary pending)
      → Distinct (symbols_of primary new)
      → merge_pending_decisions primary (intents pending) (intents new) ≡ ok (intents merged)
      → Distinct (symbols_of primary merged)
  unfolding overlap
  merge-Distinct pending new merged dp dn h =
      let e = rw (merge_intents pending new) at h in
      elim (Bool-cases (is_nil (overlap primary pending new))) [
        | inl apart ↦
            let same : pending ++ new ≡ merged = cc in
            rw (← same, map-append_symbols primary pending new)
              (Distinct-append (symbols_of primary pending) (symbols_of primary new) dp dn
                (select-nil _ (symbols_of primary pending) apart))
        | inr shared ↦ absurd cc
      ]
