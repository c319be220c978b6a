-- ===== src/Core/Number/Int.antt =====
-- Whole numbers as an arithmetic of prices and quantities, to evaluate the models on. A quotient is
-- cut to a whole number, and the tolerance is one.
use librae.Base.{ℕ, suc, ◌+◌, ◌-◌, ◌*◌, ◌/◌, Bool, true, ◌≡◌, false, leb, ltb, if◌then◌else◌, arith}
use librae.Core.Number.{Number}

-- `negsuc n` is -(n + 1)
pub data ℤ : Type 0 where
  pos : ℕ → ℤ
  negsuc : ℕ → ℤ

abbrev pos_part : ℤ → ℕ
pos_part (pos n) = n
pos_part (negsuc _) = 0

abbrev neg_part : ℤ → ℕ
neg_part (pos _) = 0
neg_part (negsuc n) = suc n

abbrev sub_ℕ : ℕ → ℕ → ℤ
sub_ℕ a b = if leb b a then pos (a - b) else negsuc (b - a - 1)

unfoldable pub add_int : ℤ → ℤ → ℤ
add_int a b = sub_ℕ (pos_part a + pos_part b) (neg_part a + neg_part b)

unfoldable pub sub_int : ℤ → ℤ → ℤ
sub_int a b = sub_ℕ (pos_part a + neg_part b) (neg_part a + pos_part b)

unfoldable pub neg_int : ℤ → ℤ
neg_int a = sub_ℕ (neg_part a) (pos_part a)

unfoldable pub mul_int : ℤ → ℤ → ℤ
mul_int a b =
    sub_ℕ (pos_part a * pos_part b + neg_part a * neg_part b)
      (pos_part a * neg_part b + neg_part a * pos_part b)

unfoldable pub div_int : ℤ → ℤ → ℤ
div_int a b =
    sub_ℕ (pos_part a / pos_part b + neg_part a / neg_part b)
      (pos_part a / neg_part b + neg_part a / pos_part b)

unfoldable pub abs_int : ℤ → ℤ
abs_int a = pos (pos_part a + neg_part a)

abbrev pub lt_int : ℤ → ℤ → Bool
lt_int a b = ltb (pos_part a + neg_part b) (pos_part b + neg_part a)

abbrev pub le_int : ℤ → ℤ → Bool
le_int a b = leb (pos_part a + neg_part b) (pos_part b + neg_part a)

instance abbrev pub int_number : Number ℤ
int_number = record {
  add = add_int;
  sub = sub_int;
  mul = mul_int;
  div = div_int;
  neg = neg_int;
  abs = abs_int;
  lt = lt_int;
  le = le_int;
  is_finite = λ _. true;
  zero = pos 0;
  one = pos 1;
  hundred = pos 100;
  infinity = pos 1000000000;
  epsilon = pos 1;
}

pub sub-neg_int : (a b : ℤ) → sub_int a b ≡ add_int a (neg_int b)
unfolding sub_int add_int neg_int
sub-neg_int (pos a) (pos b) = ground arith
sub-neg_int (pos a) (negsuc b) = ground arith
sub-neg_int (negsuc a) (pos b) = ground arith
sub-neg_int (negsuc a) (negsuc b) = ground arith

pub apart_int :
    (q c : ℤ)
    → le_int (sub_int q (pos 1)) c ≡ false
    → le_int (sub_int q c) (pos 1) ≡ true
    → lt_int (pos 0) (sub_int q c) ≡ true
unfolding sub_int
apart_int q c h within = ground arith

pub tiny_int : (a : ℤ) → le_int a (pos 1) ≡ false → le_int a (pos 0) ≡ false
tiny_int a h = ground arith

pub not_above_int : (a b : ℤ) → le_int a b ≡ true → lt_int b a ≡ false
not_above_int a b h = ground arith

pub over_int : (q c : ℤ) → lt_int q c ≡ true → le_int (sub_int q (pos 1)) q ≡ true
unfolding sub_int
over_int q c h = ground arith

pub irrefl_int : (a : ℤ) → lt_int a a ≡ false
irrefl_int a = ground arith

pub asym_int : (a b : ℤ) → lt_int a b ≡ true → lt_int b a ≡ false
asym_int a b h = ground arith

pub self_int : (a b : ℤ) → le_int a b ≡ true → (le_int a a ≡ true) × (le_int b b ≡ true)
self_int a b h = (ground arith, ground arith)

pub sum_int :
    (a b : ℤ)
    → le_int a (pos 0) ≡ false
    → le_int b (pos 0) ≡ false
    → le_int (add_int a b) (pos 0) ≡ false
unfolding add_int
sum_int a b ha hb = ground arith
