-- ===== src/Live/State/Json.antt =====
-- The documents of librae/live/state.py, and the builtins of Python that read their values.
use librae.Base.{
  refl, ℕ, String, ◌≡◌, refl, Bool, true, ◌&&◌, Option, none, some, List, [], ◌∷◌, if◌then◌else◌,
  ◌==◌, nat_eq, string_eq, Dict, Result, ok, err, ◌>>=◌, All, mem,
}
use librae.Core.Intents.{is_some}
use librae.Core.Number.Int.{ℤ}

mutual
  pub data Json (R : Type 0) : Type 0 where
    null : Json R
    flag : Bool → Json R
    integer : ℤ → Json R
    float : R → Json R
    text : String → Json R
    array : Items R → Json R
    object : Members R → Json R

  pub data Items (R : Type 0) : Type 0 where
    nil : Items R
    item : Json R → Items R → Items R

  pub data Members (R : Type 0) : Type 0 where
    end : Members R
    member : String → Json R → Members R → Members R

-- The errors that are raised, with the field that they name.
pub data StateError : Type 0 where
  value_error type_error key_error : String → StateError

-- `float`, `int`, the number that an `int` is, `isoformat` and `fromisoformat` in UTC.
pub record Python (R : Type 0) : Type 0 where
  pub to_float : Json R → Result StateError R
  pub to_int : Json R → Result StateError ℤ
  pub of_int : ℤ → R
  pub isoformat : ℕ → String
  pub from_isoformat : String → Result StateError ℕ

-- What Python documents of them.
pub record IsPython {R : Type 0} (python : Python R) : Type 0 where
  pub to_float-float : (x : R) → python.to_float (float x) ≡ ok x
  pub to_int-integer : (n : ℤ) → python.to_int (integer n) ≡ ok n
  pub from-isoformat : (t : ℕ) → python.from_isoformat (python.isoformat t) ≡ ok t

-- `raw.get(k)`
unfoldable pub get : {R : Type 0} → String → Members R → Option (Json R)
get k end = none
get k (member j v rest) = if j == k then some v else get k rest

abbrev pub needed : {R : Type 0} → String → Option (Json R) → Result StateError (Json R)
needed k none = err (key_error k)
needed k (some v) = ok v

-- `raw[k]`
abbrev pub at : {R : Type 0} → String → Members R → Result StateError (Json R)
at k members = needed k (get k members)

-- The keys are among those allowed, and none but them.
unfoldable pub keys_within : {R : Type 0} → List String → Members R → Bool
keys_within allowed end = true
keys_within allowed (member k v rest) = mem k allowed && keys_within allowed rest

abbrev pub has_all : {R : Type 0} → List String → Members R → Bool
has_all [] members = true
has_all (k ∷ rest) members = is_some (get k members) && has_all rest members

abbrev pub keys_are : {R : Type 0} → List String → Members R → Bool
keys_are keys members = keys_within keys members && has_all keys members

abbrev pub or_null : {R A : Type 0} → (A → Json R) → Option A → Json R
or_null f none = null
or_null f (some a) = f a

abbrev pub members_of : {R A : Type 0} → (A → Json R) → Dict String A → Members R
members_of f [] = end
members_of f ((k, v) ∷ rest) = member k (f v) (members_of f rest)

abbrev pub items_of : {R A : Type 0} → (A → Json R) → List A → Items R
items_of f [] = nil
items_of f (a ∷ rest) = item (f a) (items_of f rest)

-- `raw.items()`, each value read.
unfoldable pub read_members :
    {R A : Type 0}
    → (String → Json R → Result StateError A)
    → Members R
    → Result StateError (Dict String A)
read_members read end = ok []
read_members read (member k v rest) =
    read k v >>= λ a. read_members read rest >>= λ later. ok ((k, a) ∷ later)

abbrev pub read_object :
    {R A : Type 0}
    → (String → Json R → Result StateError A)
    → Json R
    → Result StateError (Dict String A)
read_object read (object members) = read_members read members
read_object read _ = err (type_error "items")

-- What is written by `f` and read back.
pub read-members_of :
    {R A : Type 0} (read : String → Json R → Result StateError A) (f : A → Json R)
    (d : Dict String A)
    → All (λ (e : String × A). read e.0 (f e.1) ≡ ok e.1) d
    → read_members read (members_of f d) ≡ ok d
unfolding read_members
read-members_of read f [] h = refl
read-members_of read f ((k, v) ∷ rest) (h, later) = rw (h, read-members_of read f rest later)

pub All-each : {A : Type 0} (P : A → Type 0) (xs : List A) → ((a : A) → P a) → All P xs
All-each P [] h = tt
All-each P (x ∷ xs) h = (h x, All-each P xs h)

-- `_to_utc`, of a value of a document.
unfoldable pub to_utc : {R : Type 0} → Python R → Json R → Result StateError (Option ℕ)
to_utc python null = ok none
to_utc python (text s) = python.from_isoformat s >>= λ t. ok (some t)
to_utc python _ = err (type_error "fromisoformat")

abbrev pub time_of : {R : Type 0} → Python R → ℕ → Json R
time_of python t = text (python.isoformat t)

pub to_utc-time_of :
    {R : Type 0} (python : Python R)
    → IsPython python
    → (t : Option ℕ) → to_utc python (or_null (time_of python) t) ≡ ok t
unfolding to_utc
to_utc-time_of python lawful none = refl
to_utc-time_of python lawful (some t) = rw (lawful.from-isoformat t)
