-- ===== src/RulesStore/Reorder.antt =====
-- `reorder` only rearranges, and the rules that are not listed keep their order.
use mathlib.Core.List.{Perm, append-nil, append_assoc, perm_middle}
use mathlib.Core.List.Perm
use hamsy_proxy.Shared.{
  any, not, filter, refl, ap, Bool, true, false, ◌∙◌, ◌≡◌, Option, none, some, List, [], ◌∷◌, ◌++◌,
  arith, Bool-cases, Option-cases, inl, inr,
}
use hamsy_proxy.Shared.Text.{Text, text_eq}
use hamsy_proxy.Rules.Model.{Rule}
use hamsy_proxy.Rules.Externals.{Externals}
use hamsy_proxy.RulesStore.{CoreError, take_by_id, reorder_from, RulesStore, persist, reorder, run}

-- What is taken out is a rule with the id, from some place of the list.
take_by_id-split :
    (id : Text) (rules : List Rule) (r : Rule) (rest : List Rule)
    → take_by_id id rules ≡ some (r, rest)
    → (front : List Rule) × (back : List Rule) × (rules ≡ front ++ r ∷ back)
      × (rest ≡ front ++ back)
      × (text_eq (r.id) id ≡ true)
unfolding take_by_id
take_by_id-split id [] r rest h = absurd (ground arith)
take_by_id-split id (x ∷ xs) r rest h = elim (Bool-cases (text_eq (x.id) id)) [
  | inl here ↦ ([], xs, ground arith, ground arith, ground arith)
  | inr later ↦ elim (Option-cases (take_by_id id xs)) [
    | inl missing ↦ absurd (ground arith)
    | inr ((y, ys), found) ↦
        let (front, back, whole, left, same) = take_by_id-split id xs y ys found in
        (x ∷ front, back, ground arith, ground arith, ground arith)
  ]
]

regroup :
    (front back : List Rule) (r : Rule) (rules rest : List Rule)
    → rules ≡ front ++ r ∷ back
    → rest ≡ front ++ back
    → Perm (r ∷ rest) rules
regroup front back r rules rest whole left = rw (whole, left) (Perm.symm (perm_middle front back))

reorder_from-perm :
    (ids : List Text) (rules done : List Rule) → Perm (reorder_from ids rules done) (done ++ rules)
unfolding reorder_from
reorder_from-perm [] rules done = Perm.rfl
reorder_from-perm (id ∷ ids) rules done = elim (Option-cases (take_by_id id rules)) [
  | inl missing ↦ rw (missing, reorder_from) (reorder_from-perm ids rules done)
  | inr ((r, rest), found) ↦
      let (front, back, whole, left, same) = take_by_id-split id rules r rest found in
      rw (found, reorder_from)
        (Perm.trans (reorder_from-perm ids rest (done ++ r ∷ [])) (
          rw (append_assoc done (r ∷ []) rest)
            (Perm.append_left done (regroup front back r rules rest whole left))))
]

-- A predicate that fails on each rule with one of the ids.
abbrev Excludes : (Rule → Bool) → List Text → Type 0
Excludes q [] = Unit
Excludes q (id ∷ ids) = ((r : Rule) → text_eq (r.id) id ≡ true → q r ≡ false) × Excludes q ids

filter-append :
    (q : Rule → Bool) (xs ys : List Rule) → filter q (xs ++ ys) ≡ filter q xs ++ filter q ys
filter-append q [] ys = refl
filter-append q (x ∷ xs) ys = ground (arith, filter-append q xs ys)

filter-drop :
    (q : Rule → Bool) (front back : List Rule) (r : Rule)
    → q r ≡ false
    → filter q (front ++ back) ≡ filter q (front ++ r ∷ back)
filter-drop q front back r h =
    rw (filter-append q front back, filter-append q front (r ∷ back), h) refl

filter-reorder_from :
    (q : Rule → Bool) (ids : List Text) (rules done : List Rule)
    → Excludes q ids
    → filter q (reorder_from ids rules done) ≡ filter q done ++ filter q rules
unfolding reorder_from
filter-reorder_from q [] rules done h = filter-append q done rules
filter-reorder_from q (id ∷ ids) rules done (h, hs) = elim (Option-cases (take_by_id id rules)) [
  | inl missing ↦ rw (missing, reorder_from) (filter-reorder_from q ids rules done hs)
  | inr ((r, rest), found) ↦
      let (front, back, whole, left, same) = take_by_id-split id rules r rest found in
      rw (found, reorder_from)
        (filter-reorder_from q ids rest (done ++ r ∷ []) hs
          ∙ rw (filter-append q done (r ∷ []), h r same, append-nil (filter q done), whole, left)
              (ap (λ fs. filter q done ++ fs) (filter-drop q front back r (h r same))))
]

-- The rules whose id is not listed.
abbrev pub is_unlisted : List Text → Rule → Bool
is_unlisted ids r = not (any (text_eq (r.id)) ids)

Excludes-weaken :
    (q q' : Rule → Bool) (ids : List Text)
    → ((r : Rule) → q r ≡ false → q' r ≡ false)
    → Excludes q ids
    → Excludes q' ids
Excludes-weaken q q' [] w h = tt
Excludes-weaken q q' (id ∷ ids) w (h, hs) =
    (λ r same. w r (h r same), Excludes-weaken q q' ids w hs)

is_unlisted-Excludes : (ids : List Text) → Excludes (is_unlisted ids) ids
is_unlisted-Excludes [] = tt
is_unlisted-Excludes (id ∷ ids) = (
  λ r same. ground arith,
  Excludes-weaken (is_unlisted ids) (is_unlisted (id ∷ ids)) ids (λ r h. ground arith)
      (is_unlisted-Excludes ids),
)

module _ (ext : Externals) where
  -- `reorder` loses, invents and duplicates no rule, whatever ids it is given: the rules after it are
  -- a rearrangement of the rules before, also when the write to the file fails.
  pub reorder-perm :
      (ids : List Text) (write : Option CoreError) (s : RulesStore ext)
      → Perm ((run ext (reorder ids) write s).0.rules) (s.rules)
  unfolding run persist
  reorder-perm ids none s = reorder_from-perm ids (s.rules) []
  reorder-perm ids (some e) s = reorder_from-perm ids (s.rules) []

  -- The rules whose id is not listed keep their order in a `reorder`.
  pub reorder_keeps_unlisted :
      (ids : List Text) (write : Option CoreError) (s : RulesStore ext)
      → filter (is_unlisted ids) ((run ext (reorder ids) write s).0.rules)
        ≡ filter (is_unlisted ids) (s.rules)
  unfolding run persist
  reorder_keeps_unlisted ids none s =
      filter-reorder_from (is_unlisted ids) ids (s.rules) [] (is_unlisted-Excludes ids)
  reorder_keeps_unlisted ids (some e) s =
      filter-reorder_from (is_unlisted ids) ids (s.rules) [] (is_unlisted-Excludes ids)
