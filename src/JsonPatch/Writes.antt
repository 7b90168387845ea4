-- ===== src/JsonPatch/Writes.antt =====
-- What can be read at a path after a removal, an append or a merge there.
use hamsy_proxy.Shared.{
  ◌≡◌, ◌≢◌, ap, sym, refl, none, some, List, [], ◌∷◌, ◌++◌, ◌∙◌, arith, Option-cases, inl, inr,
  unwrap_or,
}
use hamsy_proxy.Shared.Text.{Text, text_eq_refl}
use hamsy_proxy.JsonPatch.Value.{
  Value, null, bool, number, string, array, object, nil, item, Members,
}
use hamsy_proxy.JsonPatch.Path.{PathSegment, key, index}
use hamsy_proxy.JsonPatch.Members.{
  get_member-insert_member, get_member-remove_member, get_member-remove_member_other,
  item_at-set_item,
}
use hamsy_proxy.JsonPatch.Ops.{
  child, put_child, json_get, json_put, split_last, json_remove, remove_child, appended,
  json_append, merged, json_merge,
}
use hamsy_proxy.JsonPatch.Laws.{json_get-cons, json_get-cons_none, child-cases, json_get-json_set}

child-put_child :
    (v u new : Value) (seg : PathSegment)
    → child v seg ≡ some u
    → child (put_child v seg new) seg ≡ some new
unfolding child put_child
child-put_child (object ms) u new (key k) h =
    ground (arith, get_member-insert_member ms k k new, text_eq_refl k)
child-put_child (array vs) u new (index i) h = item_at-set_item vs i new u h
child-put_child v u new seg h = cc

json_put-cons :
    (v w new : Value) (seg : PathSegment) (rest : List PathSegment)
    → child v seg ≡ some w
    → json_put v (seg ∷ rest) new ≡ put_child v seg (json_put w rest new)
unfolding json_put
json_put-cons v w new seg rest h = rw (h, json_put)

-- A write through the reference at an existing path is read back there.
json_get-json_put :
    (v u new : Value) (path : List PathSegment)
    → json_get v path ≡ some u
    → json_get (json_put v path new) path ≡ some new
unfolding json_get json_put
json_get-json_put v u new [] h = refl
json_get-json_put v u new (seg ∷ rest) h =
    let (w, found, h') = child-cases v seg rest u h in
    rw (json_put-cons v w new seg rest found) (
      json_get-cons _ _ seg rest (child-put_child v w (json_put w rest new) seg found)
      ∙ json_get-json_put w u new rest h')

split_last-append {ℓ} :
    {A : Type ℓ} (xs : List A) (x : A) → split_last (xs ++ x ∷ []) ≡ some (x, xs)
unfolding split_last
split_last-append [] x = refl
split_last-append (y ∷ xs) x = rw (split_last-append xs x)

json_get-append :
    (v u : Value) (p q : List PathSegment)
    → json_get v p ≡ some u
    → json_get v (p ++ q) ≡ json_get u q
unfolding json_get
json_get-append v u [] q h = ground arith
json_get-append v u (seg ∷ p) q h =
    let (w, found, h') = child-cases v seg p u h in
    json_get-cons v w seg (p ++ q) found ∙ json_get-append w u p q h'

json_get-append_none :
    (v : Value) (p q : List PathSegment) → json_get v p ≡ none → json_get v (p ++ q) ≡ none
unfolding json_get
json_get-append_none v [] q h = cc
json_get-append_none v (seg ∷ p) q h = elim (Option-cases (child v seg)) [
  | inl e ↦ json_get-cons_none v seg (p ++ q) e
  | inr (w, e) ↦ json_get-cons v w seg (p ++ q) e ∙ json_get-append_none w p q (ground arith)
]

child-remove_child : (v : Value) (k : Text) → child (remove_child v (key k)) (key k) ≡ none
unfolding child remove_child
child-remove_child (object ms) k = get_member-remove_member ms k
child-remove_child v k = refl

-- After the removal of a member nothing can be read at its path, whether or not there was one.
pub json_get-json_remove :
    (v : Value) (init : List PathSegment) (k : Text)
    → json_get (json_remove v (init ++ key k ∷ [])) (init ++ key k ∷ []) ≡ none
unfolding json_remove
json_get-json_remove v init k = elim (Option-cases (json_get v init)) [
  | inl e ↦ rw (split_last-append init (key k), e, json_remove) (json_get-append_none v init _ e)
  | inr (u, e) ↦
      rw (split_last-append init (key k), e, json_remove)
        (json_get-append _ _ init _ (json_get-json_put v u (remove_child u (key k)) init e)
          ∙ json_get-cons_none _ (key k) [] (child-remove_child u k))
]

child-remove_child_other :
    (v : Value) (k j : Text) → k ≢ j → child (remove_child v (key k)) (key j) ≡ child v (key j)
unfolding child remove_child
child-remove_child_other (object ms) k j h = get_member-remove_member_other ms k j h
child-remove_child_other null k j h = refl
child-remove_child_other (bool b) k j h = refl
child-remove_child_other (number n) k j h = refl
child-remove_child_other (string s) k j h = refl
child-remove_child_other (array vs) k j h = refl

json_get_of_child :
    (v w : Value) (seg : PathSegment) (rest : List PathSegment)
    → child v seg ≡ child w seg
    → json_get v (seg ∷ rest) ≡ json_get w (seg ∷ rest)
unfolding json_get
json_get_of_child v w seg rest h =
    ap (λ found. elim found [ none ↦ none | some x ↦ json_get x rest ]) h

-- The removal of a member leaves what is read, or not found, at and below its siblings as it was.
pub json_remove_siblings :
    (v : Value) (init rest : List PathSegment) (k j : Text)
    → k ≢ j
    → json_get (json_remove v (init ++ key k ∷ [])) (init ++ key j ∷ rest)
      ≡ json_get v (init ++ key j ∷ rest)
unfolding json_remove
json_remove_siblings v init rest k j h = elim (Option-cases (json_get v init)) [
  | inl e ↦ rw (split_last-append init (key k), e, json_remove) refl
  | inr (u, e) ↦
      rw (split_last-append init (key k), e, json_remove)
        (json_get-append _ _ init _ (json_get-json_put v u (remove_child u (key k)) init e)
          ∙ json_get_of_child _ u (key j) rest (child-remove_child_other u k j h)
          ∙ sym (json_get-append v u init (key j ∷ rest) e))
]

-- After an append the path holds the array that was there with the value behind it; where there
-- was no array, or nothing, it holds an array of the value alone.
pub json_get-json_append :
    (v : Value) (path : List PathSegment) (new : Value)
    → json_get (json_append v path new) path
      ≡ some (appended (unwrap_or (json_get v path) (array nil)) new)
unfolding json_append appended
json_get-json_append v path new = elim (Option-cases (json_get v path)) [
  | inl e ↦ rw (e, json_append) (json_get-json_set v path (array (item new nil)))
  | inr (u, e) ↦ rw (e, json_append) (json_get-json_put v u (appended u new) path e)
]

-- After a merge of an object the path holds the object that was there with the new members
-- inserted; where there was no object, or nothing, it holds the new object.
pub json_get-json_merge :
    (v : Value) (path : List PathSegment) (new : Members)
    → json_get (json_merge v path (object new)) path
      ≡ some (merged (unwrap_or (json_get v path) null) new)
unfolding json_merge merged
json_get-json_merge v path new = elim (Option-cases (json_get v path)) [
  | inl e ↦ rw (e, json_merge) (json_get-json_set v path (object new))
  | inr (u, e) ↦ rw (e, json_merge) (json_get-json_put v u (merged u new) path e)
]
