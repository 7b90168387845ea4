-- ===== src/JsonPatch/Laws.antt =====
-- What can be read at a path after a patch operation.
use hamsy_proxy.Shared.{
  ℕ, ◌≡◌, ◌≢◌, refl, none, some, List, [], ◌∷◌, ◌∙◌, arith, Option-cases, inl, inr, unwrap_or,
}
use hamsy_proxy.Shared.Text.{Text, text_eq_iff, text_eq_refl}
use hamsy_proxy.JsonPatch.Value.{Value, null, array, object, item_at, pad, get_member}
use hamsy_proxy.JsonPatch.Path.{PathSegment, key, index}
use hamsy_proxy.JsonPatch.Members.{
  get_member-insert_member, item_at-set_item, item_at-set_item_ne, item_at-pad_self, item_at-pad,
}
use hamsy_proxy.JsonPatch.Ops.{child, json_get, json_set, as_object, as_array}

-- One step of a read.
pub json_get-cons :
    (v w : Value) (seg : PathSegment) (rest : List PathSegment)
    → child v seg ≡ some w
    → json_get v (seg ∷ rest) ≡ json_get w rest
unfolding json_get
json_get-cons v w seg rest h = rw (h, json_get)

pub json_get-cons_none :
    (v : Value) (seg : PathSegment) (rest : List PathSegment)
    → child v seg ≡ none
    → json_get v (seg ∷ rest) ≡ none
unfolding json_get
json_get-cons_none v seg rest h = rw (h, json_get)

-- The value that `json_set` goes on with below a segment.
abbrev below : Value → PathSegment → Value
below v (key k) = unwrap_or (get_member (as_object v) k) null
below v (index i) = unwrap_or (item_at (pad (as_array v) i) i) null

child-json_set :
    (v : Value) (seg : PathSegment) (rest : List PathSegment) (new : Value)
    → child (json_set v (seg ∷ rest) new) seg ≡ some (json_set (below v seg) rest new)
unfolding json_set child
child-json_set v (key k) rest new = ground (
  arith,
  get_member-insert_member (as_object v) k k (json_set (below v (key k)) rest new),
  text_eq_refl k,
)
child-json_set v (index i) rest new =
    let (w, found) = item_at-pad_self (as_array v) i in
    item_at-set_item (pad (as_array v) i) i _ w found

below_of_child : (v w : Value) (seg : PathSegment) → child v seg ≡ some w → below v seg ≡ w
unfolding child
below_of_child (object ms) w (key k) h = rw h
below_of_child (array vs) w (index i) h = rw (item_at-pad vs i i w h)
below_of_child v w seg h = cc

-- Whatever the value was, the value that `json_set` writes at a path is the one read back there:
-- missing or mistyped containers on the way are created.
pub json_get-json_set :
    (v : Value) (path : List PathSegment) (new : Value)
    → json_get (json_set v path new) path ≡ some new
unfolding json_get json_set
json_get-json_set v [] new = refl
json_get-json_set v (seg ∷ rest) new =
    json_get-cons _ _ seg rest (child-json_set v seg rest new)
    ∙ json_get-json_set (below v seg) rest new

-- Two segments part if they are different keys or different indices.
pub data Parts : PathSegment → PathSegment → Type 0 where
  keys : {k j : Text} → k ≢ j → Parts (key k) (key j)
  indices : {i j : ℕ} → i ≢ j → Parts (index i) (index j)

child-json_set_key :
    (v w : Value) (k j : Text) (rest : List PathSegment) (new : Value)
    → k ≢ j
    → child v (key j) ≡ some w
    → child (json_set v (key k ∷ rest) new) (key j) ≡ some w
unfolding json_set child
child-json_set_key (object ms) w k j rest new h e = ground (
  arith,
  get_member-insert_member ms k j (json_set (below (object ms) (key k)) rest new),
  text_eq_iff k j,
)
child-json_set_key v w k j rest new h e = cc

child-json_set_index :
    (v w : Value) (i j : ℕ) (rest : List PathSegment) (new : Value)
    → i ≢ j
    → child v (index j) ≡ some w
    → child (json_set v (index i ∷ rest) new) (index j) ≡ some w
unfolding json_set child
child-json_set_index (array vs) w i j rest new h e =
    item_at-set_item_ne (pad vs i) i j _ h ∙ item_at-pad vs i j w e
child-json_set_index v w i j rest new h e = cc

child-json_set_other :
    (v w : Value) (s t : PathSegment) (rest : List PathSegment) (new : Value)
    → Parts s t
    → child v t ≡ some w
    → child (json_set v (s ∷ rest) new) t ≡ some w
child-json_set_other v w _ _ rest new (keys {k} {j} h) e = child-json_set_key v w k j rest new h e
child-json_set_other v w _ _ rest new (indices {i} {j} h) e =
    child-json_set_index v w i j rest new h e

-- Two paths diverge if, behind a common prefix, their next segments part.
pub data Diverges : List PathSegment → List PathSegment → Type 0 where
  now : {s t : PathSegment} {p q : List PathSegment} → Parts s t → Diverges (s ∷ p) (t ∷ q)
  later : {s : PathSegment} {p q : List PathSegment} → Diverges p q → Diverges (s ∷ p) (s ∷ q)

pub child-cases :
    (v : Value) (seg : PathSegment) (rest : List PathSegment) (w : Value)
    → json_get v (seg ∷ rest) ≡ some w
    → (u : Value) × (child v seg ≡ some u) × (json_get u rest ≡ some w)
unfolding json_get
child-cases v seg rest w h = elim (Option-cases (child v seg)) [
  | inl e ↦ absurd (ground arith)
  | inr (u, e) ↦ (u, e, ground arith)
]

-- `json_set` at a path leaves every value that can be read at a diverging path as it is.
pub json_set_frame :
    {p q : List PathSegment} (v w new : Value)
    → Diverges p q
    → json_get v q ≡ some w
    → json_get (json_set v p new) q ≡ some w
json_set_frame v w new (now {s} {t} {p} {q} h) e =
    let (u, found, e') = child-cases v t q w e in
    json_get-cons _ u t q (child-json_set_other v u s t p new h found) ∙ e'
json_set_frame v w new (later {s} {p} {q} d) e =
    let (u, found, e') = child-cases v s q w e in
    json_get-cons _ _ s q (child-json_set v s p new)
    ∙ rw (below_of_child v u s found) (json_set_frame u w new d e')
