-- ===== src/Core/Events/Detail.antt =====
-- The detail of a runtime event: a dict of plain values.
use librae.Base.{
  ℕ, String, ◌≡◌, refl, Option, none, some, arith, if◌then◌else◌, ◌==◌, nat_eq, string_eq, ==_refl,
}

mutual
  pub data Value : Type 0 where
    text : String → Value
    number : ℕ → Value
    entries : Items → Value
    fields : Fields → Value

  pub data Items : Type 0 where
    nil : Items
    item : Value → Items → Items

  pub data Fields : Type 0 where
    end : Fields
    field : String → Value → Fields → Fields

-- `d.get(k)`
unfoldable pub get : String → Fields → Option Value
get k end = none
get k (field j v d) = if j == k then some v else get k d

-- `d` after `d.pop(k, ...)`
unfoldable pub drop : String → Fields → Fields
drop k end = end
drop k (field j v d) = let rest = drop k d in if j == k then rest else field j v rest

-- `d[k] = v`
unfoldable pub put : String → Value → Fields → Fields
put k v end = field k v end
put k v (field j w d) = if j == k then field j v d else field j w (put k v d)

unfoldable pub items_of : Option Value → Items
items_of (some (entries l)) = l
items_of _ = nil

-- The list under "related_events", empty where there is none.
unfoldable pub related_of : Fields → Items
unfolding items_of
related_of d = items_of (get "related_events" d)

unfoldable pub text_of : Option Value → String
text_of (some (text s)) = s
text_of _ = "None"

-- `str(detail.get("reason"))`, for a reason that is a text; of any other value only that it is no
-- known reason matters.
unfoldable pub reason_of : Fields → String
unfolding text_of
reason_of d = text_of (get "reason" d)

unfoldable pub joined_items : Items → Items → Items
joined_items nil l = l
joined_items (item v k) l = item v (joined_items k l)

pub get-put_self : (k : String) (v : Value) (d : Fields) → get k (put k v d) ≡ some v
unfolding get put
get-put_self k v end = ground (arith, ==_refl k)
get-put_self k v (field j w d) = ground (arith, get-put_self k v d)

pub drop-put-drop : (k : String) (v : Value) (d : Fields) → drop k (put k v (drop k d)) ≡ drop k d
unfolding drop put
drop-put-drop k v end = ground (arith, ==_refl k)
drop-put-drop k v (field j w d) = ground (arith, drop-put-drop k v d)

pub drop_idem : (k : String) (d : Fields) → drop k (drop k d) ≡ drop k d
unfolding drop
drop_idem k end = refl
drop_idem k (field j w d) = ground (arith, drop_idem k d)

pub related_of-put : (l : Items) (d : Fields) → related_of (put "related_events" (entries l) d) ≡ l
unfolding related_of
related_of-put l d = rw (get-put_self "related_events" (entries l) d)
