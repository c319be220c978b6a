-- ===== src/Core/Events/Key.antt =====
-- The persistence identity of a runtime event.
use librae.Base.{
  ℕ, String, ◌≡◌, ◌↔◌, Bool, true, false, ◌&&◌, Option, none, some, arith, nat_beq, Eq, ◌==◌,
  nat_eq, string_eq,
}

pub data RuntimeEventType : Type 0 where
  state_recovered decision_skipped halted halt_reset group_failed : RuntimeEventType

type_code : RuntimeEventType → ℕ
type_code state_recovered = 0
type_code decision_skipped = 1
type_code halted = 2
type_code halt_reset = 3
type_code group_failed = 4

unfoldable pub type_beq : RuntimeEventType → RuntimeEventType → Bool
unfolding type_code
type_beq s t = nat_beq (type_code s) (type_code t)

pub type_beq_iff : (s t : RuntimeEventType) → (type_beq s t ≡ true) ↔ (s ≡ t)
unfolding type_beq
type_beq_iff s t = ground arith

instance abbrev pub type_eq : Eq RuntimeEventType
type_eq = record { beq = type_beq; beq_iff = type_beq_iff }

unfoldable pub symbol_beq : Option String → Option String → Bool
symbol_beq none none = true
symbol_beq (some s) (some t) = s == t
symbol_beq _ _ = false

pub record EventKey : Type 0 where
  pub ts : ℕ
  pub event_type : RuntimeEventType
  pub symbol : Option String

unfoldable pub key_beq : EventKey → EventKey → Bool
key_beq a b = a.ts == b.ts && type_beq a.event_type b.event_type && symbol_beq a.symbol b.symbol

symbol_beq_iff : (s t : Option String) → (symbol_beq s t ≡ true) ↔ (s ≡ t)
unfolding symbol_beq
symbol_beq_iff none none = ground arith
symbol_beq_iff none (some t) = ground arith
symbol_beq_iff (some s) none = ground arith
symbol_beq_iff (some s) (some t) = ground (arith, string_eq.beq_iff s t)

pub key_beq_iff : (a b : EventKey) → (key_beq a b ≡ true) ↔ (a ≡ b)
unfolding key_beq
key_beq_iff a b =
    ground (arith, type_beq_iff a.event_type b.event_type, symbol_beq_iff a.symbol b.symbol)

instance abbrev pub key_eq : Eq EventKey
key_eq = record { beq = key_beq; beq_iff = key_beq_iff }
