-- ===== src/Core/Number.antt =====
-- Python's `float` as an interface: the arithmetic of the machine's floating-point numbers is not
-- written in the repository. `min` and `max` are Python's, which compare by `<`.
pub mod Int
use librae.Base.{Bool, true, ◌&&◌, List, [], ◌∷◌, if◌then◌else◌}

pub record Number (R : Type 0) : Type 0 where
  pub add : R → R → R
  pub sub : R → R → R
  pub mul : R → R → R
  pub div : R → R → R
  pub neg : R → R
  pub abs : R → R
  pub lt : R → R → Bool
  pub le : R → R → Bool
  pub is_finite : R → Bool
  pub zero : R
  pub one : R
  pub hundred : R
  pub infinity : R
  -- `EPSILON` of librae/core/__init__.py
  pub epsilon : R

module _ {R : Type 0} ⦃num : Number R⦄ where
  infixl 65 ◌+◌ ◌-◌
  infixl 70 ◌*◌ ◌/◌
  infix 50 ◌<◌ ◌≤◌
  abbrev pub ◌+◌ : R → R → R
  ◌+◌ = num.add

  abbrev pub ◌-◌ : R → R → R
  ◌-◌ = num.sub

  abbrev pub ◌*◌ : R → R → R
  ◌*◌ = num.mul

  abbrev pub ◌/◌ : R → R → R
  ◌/◌ = num.div

  abbrev pub neg : R → R
  neg = num.neg

  abbrev pub abs : R → R
  abs = num.abs

  abbrev pub ◌<◌ : R → R → Bool
  ◌<◌ = num.lt

  abbrev pub ◌≤◌ : R → R → Bool
  ◌≤◌ = num.le

  abbrev pub min : R → R → R
  min a b = if b < a then b else a

  abbrev pub max : R → R → R
  max a b = if a < b then b else a

  abbrev pub zero : R
  zero = num.zero

  abbrev pub one : R
  one = num.one

  abbrev pub hundred : R
  hundred = num.hundred

  -- `float("inf")`
  abbrev pub infinity : R
  infinity = num.infinity

  abbrev pub epsilon : R
  epsilon = num.epsilon

  abbrev pub is_finite : R → Bool
  is_finite = num.is_finite

  -- `all(isfinite(value) for value in values)`
  abbrev pub all_finite : List R → Bool
  all_finite [] = true
  all_finite (x ∷ xs) = is_finite x && all_finite xs
