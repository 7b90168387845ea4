-- ===== src/JsonPatch/Value.antt =====
-- The values of serde_json, with the methods of arrays and maps that the patch operations call.
use hamsy_proxy.Shared.{ℕ, zero, suc, Bool, Option, none, some, if◌then◌else◌}
use hamsy_proxy.Shared.Text.{Text, text_eq}

-- A number is kept as its text.
mutual
  pub data Value : Type 0 where
    null : Value
    bool : Bool → Value
    number : Text → Value
    string : Text → Value
    array : Values → Value
    object : Members → Value

  pub data Values : Type 0 where
    nil : Values
    item : Value → Values → Values

  pub data Members : Type 0 where
    end : Members
    member : Text → Value → Members → Members

-- `arr.get(i)`
unfoldable pub item_at : Values → ℕ → Option Value
item_at nil i = none
item_at (item v vs) zero = some v
item_at (item v vs) (suc i) = item_at vs i

-- `arr[i] = new`
unfoldable pub set_item : Values → ℕ → Value → Values
set_item nil i new = nil
set_item (item v vs) zero new = item new vs
set_item (item v vs) (suc i) new = item v (set_item vs i new)

-- `arr.push(new)`
unfoldable pub push : Values → Value → Values
push nil new = item new nil
push (item v vs) new = item v (push vs new)

-- `arr.remove(i)`, where `i` is in range; nothing otherwise
unfoldable pub remove_item : Values → ℕ → Values
remove_item nil i = nil
remove_item (item v vs) zero = vs
remove_item (item v vs) (suc i) = item v (remove_item vs i)

-- `while arr.len() <= i { arr.push(Null) }`
unfoldable pub pad : Values → ℕ → Values
pad nil zero = item null nil
pad nil (suc i) = item null (pad nil i)
pad (item v vs) zero = item v vs
pad (item v vs) (suc i) = item v (pad vs i)

-- `map.get(k)`
unfoldable pub get_member : Members → Text → Option Value
get_member end k = none
get_member (member j v ms) k = if text_eq j k then some v else get_member ms k

-- `map.insert(k, new)`
unfoldable pub insert_member : Members → Text → Value → Members
insert_member end k new = member k new end
insert_member (member j v ms) k new =
    if text_eq j k then member k new ms else member j v (insert_member ms k new)

-- `map.remove(k)`
unfoldable pub remove_member : Members → Text → Members
remove_member end k = end
remove_member (member j v ms) k =
    let rest = remove_member ms k in if text_eq j k then rest else member j v rest

-- `for (k, v) in new { existing.insert(k, v); }`
unfoldable pub insert_all : Members → Members → Members
insert_all existing end = existing
insert_all existing (member k v new) = insert_all (insert_member existing k v) new
