-- ===== src/Live/Alerts/Text.antt =====
-- `_duration` and `_times` of librae/live/persistent_alerts.py.
use Prim.Native.String.{◌++◌ as ◌^^◌}
use librae.Base.{
  ℕ, zero, suc, ◌/◌, ◌%◌, List, [], ◌∷◌, String, ◌==◌, ◌≡◌, refl, if◌then◌else◌, nat_eq,
}

unfoldable pub joined : List String → String
joined [] = ""
joined (s ∷ rest) = ◌^^◌ s (joined rest)

digit : ℕ → String
digit d =
    if d == 0
    then "0"
    else if d == 1
    then "1"
    else if d == 2
    then "2"
    else if d == 3
    then "3"
    else if d == 4
    then "4"
    else if d == 5
    then "5"
    else if d == 6
    then "6"
    else if d == 7
    then "7"
    else if d == 8
    then "8"
    else "9"

-- The digits of a number, the last one first computed; a number has at most as many as its value.
decimal_fuel : ℕ → ℕ → String
unfolding digit
decimal_fuel zero n = digit n
decimal_fuel (suc f) n =
    let more = ◌^^◌ (decimal_fuel f (n / 10)) (digit (n % 10)) in
    if n / 10 == 0 then digit n else more

-- `str(n)`
unfoldable pub decimal : ℕ → String
unfolding decimal_fuel
decimal n = decimal_fuel n n

unfoldable pub duration : ℕ → String
unfolding decimal joined
duration elapsed =
    let total = elapsed / 1000000 in
    let all_minutes = total / 60 in
    let seconds = total % 60 in
    let hours = all_minutes / 60 in
    let minutes = all_minutes % 60 in
    if hours == 0
    then (if minutes == 0
        then joined (decimal seconds ∷ "s" ∷ [])
        else joined (decimal minutes ∷ "m " ∷ decimal seconds ∷ "s" ∷ []))
    else joined (decimal hours ∷ "h " ∷ decimal minutes ∷ "m" ∷ [])

unfoldable pub times : ℕ → String
unfolding decimal joined
times count = if count == 1 then "once" else joined (decimal count ∷ " times" ∷ [])

duration_example : duration 3725000000 ≡ "1h 2m"
unfolding duration
duration_example = refl
