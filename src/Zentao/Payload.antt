-- ===== src/Zentao/Payload.antt =====
-- internal/service/zentao/client.go: what the package reads of a list payload.
use zentao_mcp.Base.{Option, none, some, List, [], ◌∷◌, if◌then◌else◌}
use zentao_mcp.Base.Text.{Text, codes}
use zentao_mcp.Base.Strings.{text_less}
use zentao_mcp.Json.{
  Value, null, bool, float, int, str, arr, obj, Items, nil, cons, Fields, end, entry, at,
}

abbrev pub list_keys : List Text
list_keys =
    codes "bugs"
    ∷ codes "tasks"
    ∷ codes "stories"
    ∷ codes "products"
    ∷ codes "projects"
    ∷ codes "executions"
    ∷ codes "programs"
    ∷ codes "users"
    ∷ codes "testcases"
    ∷ codes "cases"
    ∷ codes "builds"
    ∷ codes "releases"
    ∷ codes "productplans"
    ∷ codes "plans"
    ∷ codes "feedbacks"
    ∷ codes "tickets"
    ∷ codes "data"
    ∷ codes "list"
    ∷ []

insert_key : Text → List Text → List Text
unfolding text_less
insert_key k [] = k ∷ []
insert_key k (j ∷ js) = if text_less j k then j ∷ insert_key k js else k ∷ j ∷ js

module _ {F : Type 0} where
  unfoldable pub to_records : Items F → List (Fields F)
  to_records nil = []
  to_records (cons (obj rec) vs) = rec ∷ to_records vs
  to_records (cons null vs) = to_records vs
  to_records (cons (bool b) vs) = to_records vs
  to_records (cons (float t) vs) = to_records vs
  to_records (cons (int n) vs) = to_records vs
  to_records (cons (str s) vs) = to_records vs
  to_records (cons (arr ws) vs) = to_records vs

  array_of : Value F → Option (Items F)
  array_of (arr vs) = some vs
  array_of null = none
  array_of (bool b) = none
  array_of (float t) = none
  array_of (int n) = none
  array_of (str s) = none
  array_of (obj m) = none

  -- `slices.Sorted(maps.Keys(body))`
  unfoldable pub sorted_keys : Fields F → List Text
  unfolding insert_key
  sorted_keys end = []
  sorted_keys (entry k v m) = insert_key k (sorted_keys m)

  -- The first of the keys that holds an array.
  unfoldable pub first_array : List Text → Fields F → Option (Items F)
  unfolding array_of
  first_array [] body = none
  first_array (k ∷ ks) body =
      let rest = first_array ks body in
      elim (array_of (at k body)) [ some vs ↦ some vs | none ↦ rest ]

  unfoldable pub pick_list : Fields F → List (Fields F)
  unfolding sorted_keys
  pick_list body = elim (first_array list_keys body) [
    | some vs ↦ to_records vs
    | none ↦ elim (first_array (sorted_keys body) body) [ some vs ↦ to_records vs | none ↦ [] ]
  ]
