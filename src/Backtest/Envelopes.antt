-- ===== src/Backtest/Envelopes.antt =====
-- librae/backtest/engine.py: decisions that wait, each with the instant of the information that
-- caused it and the instant since when it rests.
pub mod Expiry
pub mod Mirror
pub mod Replaced
pub mod Replacing
mod Tests
use librae.Base.{
  ℕ, String, Bool, false, not, ◌&&◌, ◌||◌, Option, none, some, List, [], ◌∷◌, ◌++◌, leb,
  if◌then◌else◌, Eq, ◌==◌, nat_eq, string_eq, Dict, lookup, insert, Result, ok, err, ◌>>=◌, is_nil,
  select, mem,
}
use librae.Core.Intents.{
  OrderIntent, PortfolioWeights, Decision, intents, portfolio, is_empty, symbol_of, symbols_of,
  is_some, intents_of, TimeInForce, day,
}
use librae.Core.Pending.{MergeError, merge_pending_decisions, partition_pending_decision}

-- `_DecisionEnvelope`
pub record Envelope (F : Type 0) : Type 0 where
  pub decision : Decision F
  pub decision_at : Option ℕ
  pub resting_since : Option ℕ

pub data EnvelopeError : Type 0 where
  merge_error : MergeError → EnvelopeError
  reused_group_ids : List String → EnvelopeError

-- `rests` of `_expire_day_intents`
unfoldable pub rests_day : Option TimeInForce → Bool → Bool
rests_day (some day) limited = limited
rests_day _ limited = false

unfoldable pub starts_late : Option ℕ → ℕ → Bool
starts_late none ts = false
starts_late (some decision_at) ts = leb ts decision_at

abbrev pub lift_merge : {A : Type 0} → Result MergeError A → Result EnvelopeError A
lift_merge (ok a) = ok a
lift_merge (err e) = err (merge_error e)

abbrev pub or_now : Option ℕ → ℕ → Option ℕ
or_now none ts = some ts
or_now (some since) ts = some since

module _ {F : Type 0} where
  abbrev pub rests : OrderIntent F → Bool
  rests i = rests_day i.time_in_force (is_some i.limit_price)

  -- `_enveloped_decision`: the envelopes merged from the left, with the primary symbol "".
  unfoldable pub merge_all : Decision F → List (Envelope F) → Result MergeError (Decision F)
  merge_all decision [] = ok decision
  merge_all decision (envelope ∷ rest) =
      merge_pending_decisions "" decision envelope.decision >>= λ merged. merge_all merged rest

  unfoldable pub enveloped_decision : List (Envelope F) → Result MergeError (Decision F)
  unfolding merge_all
  enveloped_decision = merge_all (intents [])

  -- `{intent.group_id for intent in ... if intent.group_id is not None}`
  unfoldable pub group_ids : List (OrderIntent F) → List String
  group_ids [] = []
  group_ids (i ∷ rest) = elim i.group_id [ none ↦ group_ids rest | some g ↦ g ∷ group_ids rest ]

  unfoldable pub pending_group_ids : List (Envelope F) → List String
  unfolding group_ids
  pending_group_ids [] = []
  pending_group_ids (envelope ∷ rest) =
      group_ids (intents_of envelope.decision) ++ pending_group_ids rest

  unfoldable pub check_groups : List (Envelope F) → Decision F → Result EnvelopeError (Unit {0})
  unfolding pending_group_ids
  check_groups envelopes (portfolio _) = ok tt
  check_groups envelopes (intents new) =
      let reused = select (λ g. mem g (group_ids new)) (pending_group_ids envelopes) in
      if is_nil reused then ok tt else err (reused_group_ids reused)

  unfoldable pub add_envelope : Decision F → List (Envelope F) → Envelope F → List (Envelope F)
  add_envelope (portfolio _) envelopes envelope = envelope ∷ []
  add_envelope (intents _) envelopes envelope = envelopes ++ envelope ∷ []

  unfoldable pub merge_enveloped_decision :
      List (Envelope F) → Decision F → Option ℕ → String → Result EnvelopeError (List (Envelope F))
  unfolding enveloped_decision check_groups add_envelope
  merge_enveloped_decision envelopes new decision_at primary =
      lift_merge (enveloped_decision envelopes) >>= λ pending.
      lift_merge (merge_pending_decisions primary pending new) >>= λ _.
      check_groups envelopes new >>= λ _. ok (
        if is_empty new
        then envelopes
        else add_envelope pending envelopes
            (record { decision = new; decision_at = decision_at; resting_since = none }))

  abbrev pub cons_filled : Decision F → Envelope F → List (Envelope F) → List (Envelope F)
  cons_filled d envelope rest = if is_empty d then rest else record envelope { decision = d } ∷ rest

  -- The lists that the loop of `_partition_enveloped_decisions` fills, ready and waiting.
  unfoldable pub partition_envelopes :
      List (Envelope F) → ℕ → List String → String → List (Envelope F) × List (Envelope F)
  unfolding starts_late
  partition_envelopes [] ts bars primary = ([], [])
  partition_envelopes (envelope ∷ rest) ts bars primary =
      let (ready, waiting) = partition_envelopes rest ts bars primary in
      let (executable, data_waiting) = partition_pending_decision primary bars envelope.decision in
      if starts_late envelope.decision_at ts
      then (ready, envelope ∷ waiting)
      else (cons_filled executable envelope ready, cons_filled data_waiting envelope waiting)

  unfoldable pub partition_enveloped_decisions :
      List (Envelope F)
      → ℕ
      → List String
      → String
      → Result MergeError (Decision F × List (Envelope F) × List (Envelope F))
  unfolding partition_envelopes enveloped_decision
  partition_enveloped_decisions envelopes ts bars primary =
      let (ready, waiting) = partition_envelopes envelopes ts bars primary in
      enveloped_decision ready >>= λ decision. ok (decision, waiting, ready)

  abbrev pub any_rests : List (OrderIntent F) → Bool
  any_rests [] = false
  any_rests (i ∷ rest) = rests i || any_rests rest

  abbrev pub keep_live : Envelope F → List (OrderIntent F) → List (Envelope F)
  keep_live envelope live = cons_filled (intents live) envelope []

module _ {E S : Type 0} ⦃label : Eq S⦄ (session_of : String → ℕ → Result E S) where
  unfoldable pub sessions_differ : String → ℕ → ℕ → Result E Bool
  sessions_differ symbol ts since =
      session_of symbol ts >>= λ now. session_of symbol since >>= λ first. ok (not (now == first))

module _ {F E S : Type 0} ⦃label : Eq S⦄ (primary : String)
    (session_of : String → ℕ → Result E S) where
  -- The inner loop of `_expire_day_intents`: the intents that live on, and the expired symbols.
  unfoldable pub expire_intents :
      List String → ℕ → ℕ → List (OrderIntent F) → Result E (List (OrderIntent F) × List String)
  unfolding sessions_differ rests_day
  expire_intents priced ts since [] = ok ([], [])
  expire_intents priced ts since (i ∷ rest) =
      let symbol = symbol_of primary i in
      (if rests i && mem symbol priced
        then sessions_differ session_of symbol ts since
        else ok false)
      >>= λ gone. expire_intents priced ts since rest >>= λ others.
          ok (if gone then (others.0, symbol ∷ others.1) else (i ∷ others.0, others.1))

  unfoldable pub expire_envelope :
      List String
      → ℕ
      → Envelope F
      → Decision F
      → Option ℕ
      → Result E (List (Envelope F) × List String)
  unfolding expire_intents
  expire_envelope priced ts envelope (portfolio _) since = ok (envelope ∷ [], [])
  expire_envelope priced ts envelope (intents l) none = ok (envelope ∷ [], [])
  expire_envelope priced ts envelope (intents l) (some since) =
      if any_rests l
      then (expire_intents priced ts since l >>= λ r. ok (keep_live envelope r.0, r.1))
      else ok (envelope ∷ [], [])

  unfoldable pub expire_day_intents :
      List String → ℕ → List (Envelope F) → Result E (List (Envelope F) × List String)
  unfolding expire_envelope
  expire_day_intents priced ts [] = ok ([], [])
  expire_day_intents priced ts (envelope ∷ rest) =
      expire_envelope priced ts envelope envelope.decision envelope.resting_since >>= λ first.
      expire_day_intents priced ts rest >>= λ others. ok (first.0 ++ others.0, first.1 ++ others.1)

module _ {F : Type 0} ⦃same : Eq (OrderIntent F)⦄ (primary : String) where
  -- `replacing is not None and symbol not in replacing`
  abbrev survives : Option (List String) → OrderIntent F → Bool
  survives none i = false
  survives (some replacing) i = not (mem (symbol_of primary i) replacing)

  abbrev pub replacing_of : Decision F → Option (List String)
  replacing_of (portfolio _) = none
  replacing_of (intents l) = some (symbols_of primary l)

  unfoldable pub replace_in :
      Option (List String) → Envelope F → Decision F → Option ℕ → List (Envelope F) × List String
  replace_in replacing envelope (portfolio _) since = (envelope ∷ [], [])
  replace_in replacing envelope (intents l) none = (envelope ∷ [], [])
  replace_in replacing envelope (intents l) (some _) =
      let live = select (survives replacing) l in
      (keep_live envelope live, symbols_of primary (select (λ i. not (mem i live)) l))

  unfoldable pub replace_from :
      Option (List String) → List (Envelope F) → List (Envelope F) × List String
  unfolding replace_in
  replace_from replacing [] = ([], [])
  replace_from replacing (envelope ∷ rest) =
      let (kept, replaced) =
        replace_in replacing envelope envelope.decision envelope.resting_since in
      let (kept_after, replaced_after) = replace_from replacing rest in
      (kept ++ kept_after, replaced ++ replaced_after)

  -- `_replace_resting_intents`
  unfoldable pub replace_resting_intents :
      List (Envelope F) → Decision F → List (Envelope F) × List String
  unfolding replace_from
  replace_resting_intents envelopes new = replace_from (replacing_of new) envelopes

module _ {F : Type 0} (primary : String) where
  -- `{intent.symbol or primary_symbol: intent for intent in resting_intents}`
  unfoldable pub by_symbol :
      List (OrderIntent F) → Dict String (OrderIntent F) → Dict String (OrderIntent F)
  by_symbol [] d = d
  by_symbol (i ∷ rest) d = by_symbol rest (insert (symbol_of primary i) i d)

  unfoldable pub still_resting_in :
      Dict String (OrderIntent F) → List (OrderIntent F) → List (OrderIntent F)
  still_resting_in d [] = []
  still_resting_in d (i ∷ rest) = elim (lookup (symbol_of primary i) d) [
    | none ↦ still_resting_in d rest
    | some resting ↦ resting ∷ still_resting_in d rest
  ]

  unfoldable pub rest_envelope :
      Dict String (OrderIntent F) → ℕ → Envelope F → Decision F → List (Envelope F)
  unfolding still_resting_in
  rest_envelope d ts envelope (portfolio _) = []
  rest_envelope d ts envelope (intents l) =
      keep_live (record envelope { resting_since = or_now envelope.resting_since ts })
        (still_resting_in d l)

  unfoldable pub rest_envelopes :
      Dict String (OrderIntent F) → ℕ → List (Envelope F) → List (Envelope F)
  unfolding rest_envelope
  rest_envelopes d ts [] = []
  rest_envelopes d ts (envelope ∷ rest) =
      rest_envelope d ts envelope envelope.decision ++ rest_envelopes d ts rest

  -- `_resting_envelopes`
  unfoldable pub resting_envelopes :
      List (Envelope F) → List (OrderIntent F) → ℕ → List (Envelope F)
  unfolding rest_envelopes by_symbol
  resting_envelopes ready [] ts = []
  resting_envelopes ready (i ∷ rest) ts = rest_envelopes (by_symbol (i ∷ rest) []) ts ready
