-- ===== src/Backtest/Envelopes/Replaced.antt =====
-- The live runtime and the backtest replace the same resting orders when a strategy decides anew.
use librae.Base.{
  ◌≡◌, refl, ap, inl, inr, Bool, true, not, ◌&&◌, List, [], ◌∷◌, arith, Bool-cases, Eq, ◌==◌,
  nat_eq, string_eq, select, All, mem, String, Option, ℕ, ◌++◌, none, false, ◌∙◌, some, sym,
}
use mathlib.Core.List.{append-nil, append_assoc}
use librae.Core.Intents.{
  OrderIntent, Decision, intents, portfolio, symbol_of, symbols_of, intents_of,
}
use librae.Live.Resting.{is_replaced}
use librae.Backtest.Envelopes.{
  Envelope, survives, replace_in, replace_from, keep_live, String, Option, ℕ, none, false, some,
}
use librae.Backtest.Envelopes.Expiry.{flat, pendings, since_each}

module _ {A : Type 0} ⦃same : Eq A⦄ where
  mem-select : (keep : A → Bool) (a : A) (l : List A) → mem a (select keep l) ≡ (keep a && mem a l)
  unfolding mem
  mem-select keep a [] = ground arith
  mem-select keep a (x ∷ l) = elim (Bool-cases (x == a)) [
    | inl h ↦
        let x≡a : x ≡ a = (same.beq_iff x a).0 h in
        let same_keep : keep x ≡ keep a = ap keep x≡a in ground (arith, mem-select keep a l)
    | inr h ↦ ground (arith, mem-select keep a l)
  ]

  -- The elements that are not in the selection are those that were not selected.
  select-others :
      (keep : A → Bool) (l whole : List A)
      → All (λ a. mem a whole ≡ true) l
      → select (λ a. not (mem a (select keep whole))) l ≡ select (λ a. not (keep a)) l
  select-others keep [] whole h = refl
  select-others keep (x ∷ l) whole h =
      ground (arith, mem-select keep x whole, select-others keep l whole (h.1), h.0)

  All-mem_more :
      (x : A) (xs l : List A) → All (λ a. mem a xs ≡ true) l → All (λ a. mem a (x ∷ xs) ≡ true) l
  unfolding mem
  All-mem_more x xs [] h = tt
  All-mem_more x xs (y ∷ l) h = (ground (arith, h.0), All-mem_more x xs l (h.1))

  All-mem : (l : List A) → All (λ a. mem a l ≡ true) l
  unfolding mem
  All-mem [] = tt
  All-mem (x ∷ l) = (ground (arith, same.beq_iff x x), All-mem_more x l l (All-mem l))

survives-eq :
    {F : Type 0} ⦃same : Eq (OrderIntent F)⦄ (primary : String) (replacing : Option (List String))
    (i : OrderIntent F)
    → survives primary replacing i ≡ not (is_replaced replacing (symbol_of primary i))
unfolding is_replaced
survives-eq primary none i = refl
survives-eq primary (some symbols) i = refl

flat-keep_live :
    {F : Type 0} (v : Envelope F) (live : List (OrderIntent F)) → flat (keep_live v live) ≡ live
flat-keep_live v [] = refl
flat-keep_live v (i ∷ rest) = append-nil (i ∷ rest)

flat-joined : {F : Type 0} (xs ys : List (Envelope F)) → flat (xs ++ ys) ≡ flat xs ++ flat ys
flat-joined [] ys = refl
flat-joined (v ∷ xs) ys = rw (flat-joined xs ys, append_assoc)

module _ {F : Type 0} (primary : String) (replacing : Option (List String)) where
  abbrev pub is_gone : OrderIntent F → Option ℕ → Bool
  is_gone i none = false
  is_gone i (some _) = is_replaced replacing (symbol_of primary i)

  abbrev pub sorted_out :
      Bool
      → OrderIntent F
      → String
      → List (OrderIntent F) × List String
      → List (OrderIntent F) × List String
  sorted_out true i s (kept, gone) = (kept, s ∷ gone)
  sorted_out false i s (kept, gone) = (i ∷ kept, gone)

  -- The specification of both: the intents that stay, and the symbols of those that are replaced.
  unfoldable pub replacement : List (OrderIntent F × Option ℕ) → List (OrderIntent F) × List String
  replacement [] = ([], [])
  replacement ((i, since) ∷ rest) =
      sorted_out (is_gone i since) i (symbol_of primary i) (replacement rest)

  abbrev joined_pairs :
      List (OrderIntent F) × List String
      → List (OrderIntent F) × List String
      → List (OrderIntent F) × List String
  joined_pairs (a, b) (c, d) = (a ++ c, b ++ d)

  sorted_out-joined :
      (t : Bool) (i : OrderIntent F) (s : String) (p q : List (OrderIntent F) × List String)
      → sorted_out t i s (joined_pairs p q) ≡ joined_pairs (sorted_out t i s p) q
  sorted_out-joined true i s p q = refl
  sorted_out-joined false i s p q = refl

  replacement-append :
      (xs ys : List (OrderIntent F × Option ℕ))
      → replacement (xs ++ ys) ≡ joined_pairs (replacement xs) (replacement ys)
  unfolding replacement
  replacement-append [] ys = refl
  replacement-append ((i, since) ∷ xs) ys =
      ap (sorted_out (is_gone i since) i (symbol_of primary i)) (replacement-append xs ys)
      ∙ sorted_out-joined (is_gone i since) i (symbol_of primary i) (replacement xs)
          (replacement ys)

  replacement-none : (l : List (OrderIntent F)) → replacement (since_each none l) ≡ (l, [])
  unfolding replacement
  replacement-none [] = refl
  replacement-none (i ∷ l) = ap (sorted_out false i (symbol_of primary i)) (replacement-none l)

  module _ ⦃same : Eq (OrderIntent F)⦄ where
    replacement-some :
        (since : ℕ) (l : List (OrderIntent F))
        → replacement (since_each (some since) l) ≡ (
          select (survives primary replacing) l,
          symbols_of primary (select (λ i. not (survives primary replacing i)) l),
        )
    unfolding replacement
    replacement-some since [] = refl
    replacement-some since (i ∷ l) =
        elim (Bool-cases (is_replaced replacing (symbol_of primary i))) [
          | inl gone ↦ rw (survives-eq primary replacing i, gone, replacement-some since l)
          | inr stays ↦ rw (survives-eq primary replacing i, stays, replacement-some since l)
        ]

    replace_in-eq :
        (v : Envelope F) (d : Decision F) (since : Option ℕ)
        → v.decision ≡ d
        → (
          flat (replace_in primary replacing v d since).0,
          (replace_in primary replacing v d since).1,
        )
          ≡ replacement (since_each since (intents_of d))
    unfolding replace_in
    replace_in-eq v (portfolio w) since e = rw e (unfold replacement in refl)
    replace_in-eq v (intents l) none e = rw (e, append-nil) (sym (replacement-none l))
    replace_in-eq v (intents l) (some since) e =
        rw
          (
            flat-keep_live v (select (survives primary replacing) l),
            select-others (survives primary replacing) l l (All-mem l),
          )
          (sym (replacement-some since l))

    -- The backtest's replacement of its envelopes leaves the intents and the replaced symbols that
    -- the specification `replacement` of their intents gives, in order.
    pub replace_from-eq :
        (envelopes : List (Envelope F))
        → (
          flat (replace_from primary replacing envelopes).0,
          (replace_from primary replacing envelopes).1,
        )
          ≡ replacement (pendings envelopes)
    unfolding replace_from
    replace_from-eq [] = unfold replacement in refl
    replace_from-eq (v ∷ envelopes) =
        rw
          (flat-joined (replace_in primary replacing v v.decision v.resting_since).0
            (replace_from primary replacing envelopes).0)
          (ap
              (λ p. joined_pairs p (
                flat (replace_from primary replacing envelopes).0,
                (replace_from primary replacing envelopes).1,
              ))
              (replace_in-eq v v.decision v.resting_since refl)
            ∙ ap (joined_pairs (replacement (since_each v.resting_since (intents_of v.decision))))
                (replace_from-eq envelopes)
            ∙ sym (
                replacement-append (since_each v.resting_since (intents_of v.decision))
                  (pendings envelopes)))
