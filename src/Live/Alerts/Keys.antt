-- ===== src/Live/Alerts/Keys.antt =====
-- Which problems `retain` keeps.
use librae.Base.{
  ℕ, ◌≡◌, refl, false, Bool, not, none, List, [], ◌∷◌, Eq, ◌==◌, mem, select, map, if◌then◌else◌,
  Dict, lookup, lookup-erase, arith, contains,
}
use librae.Live.Alerts.{Open, Alerts, resolve, drop_key, drop_all, retain}

module _ {K : Type 0} ⦃e : Eq K⦄ where
  drop_key-lookup :
      (key other : K) (now : ℕ) (a : Alerts K)
      → lookup other (drop_key key now a).problems
        ≡ (if key == other then none else lookup other a.problems)
  unfolding drop_key resolve
  drop_key-lookup key other now a = grind (arith, lookup-erase, e.beq_iff key other)

  drop_all-lookup :
      (keys : List K) (other : K) (now : ℕ) (a : Alerts K)
      → lookup other (drop_all keys now a).problems
        ≡ (if mem other keys then none else lookup other a.problems)
  unfolding drop_all mem
  drop_all-lookup [] other now a = refl
  drop_all-lookup (k ∷ ks) other now a =
      ground (arith, drop_all-lookup ks other now (drop_key k now a), drop_key-lookup k other now a)

  -- `[key for key in self._open if key not in keys]`
  mem-dropped :
      (keep : K → Bool) (other : K) (d : Dict K Open)
      → mem other (select keep (map (λ (entry : K × Open). entry.0) d))
        ≡ (if contains other d then keep other else false)
  unfolding mem contains lookup
  mem-dropped keep other [] = refl
  mem-dropped keep other ((k, p) ∷ d) = ground (arith, mem-dropped keep other d, e.beq_iff k other)

  -- After `retain keys` a problem is open exactly when it was open and its key is in `keys`, and
  -- it is unchanged.
  pub retain-lookup :
      (keys : List K) (other : K) (now : ℕ) (a : Alerts K)
      → lookup other (retain keys now a).problems
        ≡ (if mem other keys then lookup other a.problems else none)
  unfolding retain contains
  retain-lookup keys other now a = ground (
    arith,
    drop_all-lookup
        (select (λ k. not (mem k keys)) (map (λ (entry : K × Open). entry.0) a.problems)) other now
        a,
    mem-dropped (λ k. not (mem k keys)) other a.problems,
  )
