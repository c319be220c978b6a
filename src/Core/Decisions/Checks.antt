-- ===== src/Core/Decisions/Checks.antt =====
-- What the checks of `validate_strategy_decision` that raise nothing say of their lists.
use librae.Base.{
  length, ℕ, suc, ◌≤◌, String, ◌≡◌, refl, sym, ap, ◌∙◌, inl, inr, Bool, Bool-cases, true, false,
  not, List, [], ◌∷◌, ◌++◌, map, arith, ◌==◌, string_eq, Result, ok, err, err-ok, true-false, ◌>>◌,
  raise_if, is_nil, select, mem, All, Distinct,
}
use librae.Core.Decisions.{DecisionError, distinct_of, none_of}

pub both : {E : Type 0} (m k : Result E (Unit {0})) → m >> k ≡ ok tt → (m ≡ ok tt) × (k ≡ ok tt)
both (ok _) k h = (refl, h)
both (err e) k h = absurd (err-ok h)

pub not_raised : {E : Type 0} (test : Bool) (e : E) → raise_if test e ≡ ok tt → test ≡ false
not_raised true e h = absurd (err-ok h)
not_raised false e h = refl

pub negated : (b : Bool) → not b ≡ false → b ≡ true
negated true h = refl
negated false h = absurd (true-false h)

module _ {A : Type 0} where
  pub select-none :
      (test : A → Bool) (l : List A) → is_nil (select test l) ≡ true → All (λ x. test x ≡ false) l
  select-none test [] h = tt
  select-none test (x ∷ l) h = elim (Bool-cases (test x)) [
    | inl kept ↦ absurd (true-false (sym (rw kept at h)))
    | inr left ↦ (left, select-none test l (rw left at h))
  ]

  pub All-mono : (P Q : A → Type 0) (f : (x : A) → P x → Q x) (l : List A) → All P l → All Q l
  All-mono P Q f [] h = tt
  All-mono P Q f (x ∷ l) h = (f x (h.0), All-mono P Q f l (h.1))

  pub All-zip : (P Q : A → Type 0) (l : List A) → All P l → All Q l → All (λ x. P x × Q x) l
  All-zip P Q [] h k = tt
  All-zip P Q (x ∷ l) h k = ((h.0, k.0), All-zip P Q l (h.1) (k.1))

  pub All-append : (P : A → Type 0) (k l : List A) → All P (k ++ l) → All P k × All P l
  All-append P [] l h = (tt, h)
  All-append P (x ∷ k) l h = let (first, rest) = All-append P k l (h.1) in ((h.0, first), rest)

  pub All-unmap :
      (P : String → Type 0) (f : A → String) (l : List A) → All P (map f l) → All (λ x. P (f x)) l
  All-unmap P f [] h = tt
  All-unmap P f (x ∷ l) h = (h.0, All-unmap P f l (h.1))

  pub All-unselect :
      (P : String → Type 0) (f : A → String) (keep : A → Bool) (l : List A)
      → All P (map f (select keep l))
      → All (λ x. keep x ≡ true → P (f x)) l
  All-unselect P f keep [] h = tt
  All-unselect P f keep (x ∷ l) h = elim (Bool-cases (keep x)) [
    | inl kept ↦
        let both_h : P (f x) × All P (map f (select keep l)) = rw kept at h in
        ((λ _. both_h.0), All-unselect P f keep l (both_h.1))
    | inr left ↦
        ((λ kept. absurd (true-false (sym kept ∙ left))), All-unselect P f keep l (rw left at h))
  ]

pub none_of-All :
    (raised : List String → DecisionError) (test : String → Bool) (l : List String)
    → none_of raised test l ≡ ok tt
    → All (λ s. test s ≡ false) l
none_of-All raised test l h = select-none test l (negated _ (not_raised _ _ h))

mem-distinct_of : (s : String) (l : List String) → mem s (distinct_of l) ≡ mem s l
unfolding distinct_of mem
mem-distinct_of s [] = refl
mem-distinct_of s (x ∷ l) = elim (Bool-cases (mem x (distinct_of l))) [
  | inl twice ↦ elim (Bool-cases (x == s)) [
    | inl same ↦
        rw (twice, same)
          (ap (λ t. mem t (distinct_of l)) (sym ((string_eq.beq_iff x s).0 same)) ∙ twice)
    | inr other ↦ rw (twice, other, mem-distinct_of s l)
  ]
  | inr once ↦ rw (once, mem-distinct_of s l)
]

length-distinct_of : (l : List String) → length (distinct_of l) ≤ length l
unfolding distinct_of
length-distinct_of [] = omega arith
length-distinct_of (x ∷ l) = ground (arith, length-distinct_of l)

shorter : (m n : ℕ) → suc m ≡ suc n → m ≡ n
shorter m n h = omega (arith, h)

pub distinct_of-Distinct : (l : List String) → length l ≡ length (distinct_of l) → Distinct l
unfolding distinct_of
distinct_of-Distinct [] h = tt
distinct_of-Distinct (x ∷ l) h = elim (Bool-cases (mem x (distinct_of l))) [
  | inl twice ↦
      let longer : suc (length l) ≡ length (distinct_of l) = rw twice at h in
      absurd (omega (arith, longer, length-distinct_of l))
  | inr once ↦
      (sym (mem-distinct_of x l) ∙ once, distinct_of-Distinct l (shorter _ _ (rw once at h)))
]
