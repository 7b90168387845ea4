-- ===== src/JsonPatch/Ops.antt =====
-- The operations on a value. A mutable reference that `json_get_mut` returns is the pair of
-- `json_get`, which reads at a path, and `json_put`, which writes where the path exists.
use hamsy_proxy.Shared.{Option, none, some, List, [], ◌∷◌, unwrap_or}
use hamsy_proxy.Shared.Text.{Text}
use hamsy_proxy.JsonPatch.Value.{
  Value, null, array, object, Values, nil, item, Members, end, item_at, set_item, push, remove_item,
  pad, get_member, insert_member, remove_member, insert_all,
}
use hamsy_proxy.JsonPatch.Path.{PathSegment, key, index, parse_path}

infixl 5 ◌>>=◌
abbrev ◌>>=◌ {ℓ κ} : {A : Type ℓ} {B : Type κ} → Option A → (A → Option B) → Option B
none >>= f = none
some a >>= f = f a

-- One step of the loop of `json_get_mut`.
unfoldable pub child : Value → PathSegment → Option Value
unfolding get_member item_at
child (object ms) (key k) = get_member ms k
child (array vs) (index i) = item_at vs i
child v seg = none

unfoldable pub json_get : Value → List PathSegment → Option Value
unfolding child
json_get v [] = some v
json_get v (seg ∷ rest) = elim (child v seg) [ none ↦ none | some w ↦ json_get w rest ]

-- A write through one step of the path.
unfoldable pub put_child : Value → PathSegment → Value → Value
unfolding insert_member set_item
put_child (object ms) (key k) new = object (insert_member ms k new)
put_child (array vs) (index i) new = array (set_item vs i new)
put_child v seg new = v

unfoldable pub json_put : Value → List PathSegment → Value → Value
unfolding child put_child
json_put v [] new = new
json_put v (seg ∷ rest) new = elim (child v seg) [
  | none ↦ v
  | some w ↦ put_child v seg (json_put w rest new)
]

-- `if !current.is_object() { *current = Object(Map::new()) }`
abbrev pub as_object : Value → Members
as_object (object ms) = ms
as_object v = end

abbrev pub as_array : Value → Values
as_array (array vs) = vs
as_array v = nil

unfoldable pub json_set : Value → List PathSegment → Value → Value
unfolding insert_member get_member pad set_item item_at
json_set current [] value = value
json_set current (key k ∷ rest) value =
    let map = as_object current in
    object (insert_member map k (json_set (unwrap_or (get_member map k) null) rest value))
json_set current (index i ∷ rest) value =
    let arr = pad (as_array current) i in
    array (set_item arr i (json_set (unwrap_or (item_at arr i) null) rest value))

unfoldable pub split_last {ℓ} : {A : Type ℓ} → List A → Option (A × List A)
split_last [] = none
split_last (x ∷ xs) = elim (split_last xs) [
  | none ↦ some (x, [])
  | some (last, init) ↦ some (last, x ∷ init)
]

unfoldable pub remove_child : Value → PathSegment → Value
unfolding remove_member remove_item
remove_child (object ms) (key k) = object (remove_member ms k)
remove_child (array vs) (index i) = array (remove_item vs i)
remove_child v seg = v

unfoldable pub json_remove : Value → List PathSegment → Value
unfolding split_last json_get json_put remove_child
json_remove current segments = elim (split_last segments) [
  | none ↦ current
  | some (last, init) ↦ elim (json_get current init) [
    | none ↦ current
    | some parent ↦ json_put current init (remove_child parent last)
  ]
]

-- What is written over the value that stands at the path of a merge.
unfoldable pub merged : Value → Members → Value
unfolding insert_all
merged (object existing) new = object (insert_all existing new)
merged v new = object new

unfoldable pub json_merge : Value → List PathSegment → Value → Value
unfolding json_get json_put json_set merged
json_merge root segments (object new) = elim (json_get root segments) [
  | none ↦ json_set root segments (object new)
  | some existing ↦ json_put root segments (merged existing new)
]
json_merge root segments value = json_set root segments value

unfoldable pub appended : Value → Value → Value
unfolding push
appended (array vs) value = array (push vs value)
appended v value = array (item value nil)

unfoldable pub json_append : Value → List PathSegment → Value → Value
unfolding json_get json_put json_set appended
json_append root segments value = elim (json_get root segments) [
  | none ↦ json_set root segments (array (item value nil))
  | some existing ↦ json_put root segments (appended existing value)
]

pub data JsonOpKind : Type 0 where
  set remove merge append : JsonOpKind

pub record JsonOp : Type 0 where
  pub op : JsonOpKind
  pub path : Text
  pub value : Option Value

-- One round of the loop of `apply_json_ops`.
unfoldable pub run_op : JsonOpKind → Value → List PathSegment → Value → Value
unfolding json_set json_remove json_merge json_append
run_op set v segments value = json_set v segments value
run_op remove v segments value = json_remove v segments
run_op merge v segments value = json_merge v segments value
run_op append v segments value = json_append v segments value

unfoldable pub run_ops : Value → List JsonOp → Value
unfolding run_op parse_path
run_ops v [] = v
run_ops v (o ∷ ops) = run_ops (run_op (o.op) v (parse_path (o.path)) (unwrap_or (o.value) null)) ops
