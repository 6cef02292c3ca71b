-- ===== src/Comfyctl/Machine/Printed.antt =====
-- `json.dumps(payload, sort_keys=True)` of comfyctl/cli.py, as the object that its text stands for.
use Prim.Native.Nat.{lt, eq, gt, Ordering}
use text.Mathlib.Text.{is_eq}
use Prim.Native.String.{compare}
use comfy_shell_v.Prelude.{
  String, Bool, true, false, ◌≡◌, refl, subst, ◌∙◌, arith, Option, none, some, ◌==◌, eq_iff,
  Bool-cases, inl, inr, if◌then◌else◌,
}
use comfy_shell_v.Prelude.Dict.{get}
use comfy_shell_v.Prelude.Json.{
  Json, Items, Fields, null, bool, number, str, array, object, nil, cons, end, field, fields,
}

-- The order of keys, by code point
unfoldable pub text_before : String → String → Bool
text_before a b = elim (compare a b) [ lt ↦ true | eq ↦ false | gt ↦ false ]

unfoldable pub insert_field : String → Json → Fields → Fields
unfolding text_before
insert_field k v end = field k v end
insert_field k v (field k' v' rest) =
    let later = insert_field k v rest in
    if text_before k' k then field k' v' later else field k v (field k' v' rest)

unfoldable mutual
  unfolding insert_field

  pub sorted : Json → Json
  sorted (array vs) = array (sorted_items vs)
  sorted (object fs) = object (sorted_fields fs)
  sorted null = null
  sorted (bool b) = bool b
  sorted (number s z) = number s z
  sorted (str s) = str s

  pub sorted_items : Items → Items
  sorted_items nil = nil
  sorted_items (cons v vs) = cons (sorted v) (sorted_items vs)

  pub sorted_fields : Fields → Fields
  sorted_fields end = end
  sorted_fields (field k v rest) = insert_field k (sorted v) (sorted_fields rest)

abbrev pub map_sorted : Option Json → Option Json
map_sorted none = none
map_sorted (some v) = some (sorted v)

order_differs :
    (o : Ordering) → (elim o [ lt ↦ true | eq ↦ false | gt ↦ false ]) ≡ true → is_eq o ≡ false
order_differs lt h = refl
order_differs eq h = cc
order_differs gt h = refl

before-differs : (a b : String) → text_before a b ≡ true → (a == b) ≡ false
unfolding text_before
before-differs a b h = order_differs (compare a b) h

-- Two keys that are found are not in order.
both_found : (k k' q : String) → text_before k' k ≡ true → (k == q) ≡ true → (k' == q) ≡ false
both_found k k' q h same =
    subst (λ x. (k' == x) ≡ false) ((eq_iff k q).0 same) (before-differs k' k h)

get-insert_field :
    (k : String) (v : Json) (fs : Fields) (q : String)
    → get (fields (insert_field k v fs)) q ≡ (if k == q then some v else get (fields fs) q)
unfolding insert_field
get-insert_field k v end q = refl
get-insert_field k v (field k' v' rest) q = elim (Bool-cases (text_before k' k)) [
  | inr after ↦ rw after refl
  | inl before ↦ rw before (ground (arith, both_found k k' q before, get-insert_field k v rest q))
]

pub get-sorted_fields :
    (fs : Fields) (q : String) → get (fields (sorted_fields fs)) q ≡ map_sorted (get (fields fs) q)
unfolding sorted
get-sorted_fields end q = refl
get-sorted_fields (field k v rest) q =
    get-insert_field k (sorted v) (sorted_fields rest) q ∙ ground (arith, get-sorted_fields rest q)
