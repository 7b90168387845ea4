-- ===== src/JsonPatch/Members.antt =====
-- What can be read from a map or an array after a write.
use hamsy_proxy.Shared.{ℕ, zero, suc, ◌≡◌, ◌≢◌, refl, ap, none, some, arith, if◌then◌else◌}
use hamsy_proxy.Shared.Text.{Text, text_eq, text_eq_iff}
use hamsy_proxy.JsonPatch.Value.{
  Value, Values, nil, item, Members, end, member, item_at, set_item, pad, get_member, insert_member,
  remove_member,
}

pub get_member-insert_member :
    (ms : Members) (k j : Text) (v : Value)
    → get_member (insert_member ms k v) j ≡ (if text_eq k j then some v else get_member ms j)
unfolding get_member insert_member
get_member-insert_member end k j v = refl
get_member-insert_member (member i w ms) k j v =
    ground
      (arith, text_eq_iff i k, text_eq_iff i j, text_eq_iff k j, get_member-insert_member ms k j v)

pub get_member-remove_member : (ms : Members) (k : Text) → get_member (remove_member ms k) k ≡ none
unfolding get_member remove_member
get_member-remove_member end k = refl
get_member-remove_member (member i w ms) k = ground (arith, get_member-remove_member ms k)

pub get_member-remove_member_other :
    (ms : Members) (k j : Text) → k ≢ j → get_member (remove_member ms k) j ≡ get_member ms j
unfolding get_member remove_member
get_member-remove_member_other end k j h = refl
get_member-remove_member_other (member i w ms) k j h =
    ground (arith, text_eq_iff i k, text_eq_iff i j, get_member-remove_member_other ms k j h)

pub item_at-set_item :
    (vs : Values) (i : ℕ) (v w : Value)
    → item_at vs i ≡ some w
    → item_at (set_item vs i v) i ≡ some v
unfolding item_at set_item
item_at-set_item nil i v w h = cc
item_at-set_item (item u vs) zero v w h = refl
item_at-set_item (item u vs) (suc i) v w h = item_at-set_item vs i v w h

pub item_at-set_item_ne :
    (vs : Values) (i j : ℕ) (v : Value) → i ≢ j → item_at (set_item vs i v) j ≡ item_at vs j
unfolding item_at set_item
item_at-set_item_ne nil i j v h = refl
item_at-set_item_ne (item u vs) zero zero v h = absurd (h refl)
item_at-set_item_ne (item u vs) zero (suc j) v h = refl
item_at-set_item_ne (item u vs) (suc i) zero v h = refl
item_at-set_item_ne (item u vs) (suc i) (suc j) v h =
    item_at-set_item_ne vs i j v (λ e. h (ap suc e))

-- After the padding the index exists.
pub item_at-pad_self : (vs : Values) (i : ℕ) → (w : Value) × (item_at (pad vs i) i ≡ some w)
unfolding item_at pad
item_at-pad_self nil zero = (_, refl)
item_at-pad_self nil (suc i) = item_at-pad_self nil i
item_at-pad_self (item v vs) zero = (v, refl)
item_at-pad_self (item v vs) (suc i) = item_at-pad_self vs i

-- The padding keeps what is there.
pub item_at-pad :
    (vs : Values) (i j : ℕ) (w : Value) → item_at vs j ≡ some w → item_at (pad vs i) j ≡ some w
unfolding item_at pad
item_at-pad nil i j w h = cc
item_at-pad (item v vs) zero j w h = h
item_at-pad (item v vs) (suc i) zero w h = h
item_at-pad (item v vs) (suc i) (suc j) w h = item_at-pad vs i j w h
