-- ===== src/Rules/Compile/Order.antt =====
-- The sort of `RuleSet::new` orders by priority and keeps the order of
-- rules with one priority.
use Prim.Native.Nat.{◌≤◌}
use hamsy_proxy.Shared.{
  ℕ, ◌+◌, ◌≡◌, refl, ◌∙◌, Bool, true, false, List, [], ◌∷◌, ◌&&◌, arith, Bool-cases, inl, inr, map,
  filter,
}
use hamsy_proxy.Shared.Int.{ℤ, leb_ℤ, ◌≤ℤ◌}
use hamsy_proxy.Rules.Model.{Rule}
use hamsy_proxy.Rules.Compile.Sort.{enumerate, not_after, insert, sort_indexed}

-- Whether a rule has a priority.
abbrev pub has_priority : ℤ → Rule → Bool
has_priority p r = leb_ℤ p (r.priority) && leb_ℤ (r.priority) p

abbrev pub rules_of : List (ℕ × Rule) → List Rule
rules_of pairs = map (λ e. e.1) pairs

-- A priority is at most that of every rule of a list.
abbrev pub IsBelow : ℤ → List (ℕ × Rule) → Type 0
IsBelow p [] = Unit
IsBelow p ((j, b) ∷ rest) = (p ≤ℤ b.priority) × IsBelow p rest

abbrev pub IsSorted : List (ℕ × Rule) → Type 0
IsSorted [] = Unit
IsSorted ((i, a) ∷ rest) = IsBelow (a.priority) rest × IsSorted rest

-- The index is at most every index of a list.
abbrev IsFirst : ℕ → List (ℕ × Rule) → Type 0
IsFirst i [] = Unit
IsFirst i ((j, b) ∷ rest) = (i ≤ j) × IsFirst i rest

IsBelow-trans : (a b : ℤ) (l : List (ℕ × Rule)) → a ≤ℤ b → IsBelow b l → IsBelow a l
IsBelow-trans a b [] h k = tt
IsBelow-trans a b ((j, c) ∷ rest) h (k, ks) = (omega arith, IsBelow-trans a b rest h ks)

IsBelow-insert :
    (a : ℤ) (x : ℕ × Rule) (l : List (ℕ × Rule))
    → a ≤ℤ x.1.priority
    → IsBelow a l
    → IsBelow a (insert x l)
unfolding insert
IsBelow-insert a x [] h k = (h, tt)
IsBelow-insert a x ((j, b) ∷ rest) h k = elim (Bool-cases (not_after x (j, b))) [
  | inl e ↦ rw e (h, k)
  | inr e ↦ rw e (k.0, IsBelow-insert a x rest h (k.1))
]

le_of_not_after : (i j : ℕ) (a b : Rule) → not_after (i, a) (j, b) ≡ true → a.priority ≤ℤ b.priority
unfolding not_after
le_of_not_after i j a b h = ground arith

ge_of_not_after :
    (i j : ℕ) (a b : Rule) → not_after (i, a) (j, b) ≡ false → b.priority ≤ℤ a.priority
unfolding not_after
ge_of_not_after i j a b h = ground arith

insert-IsSorted : (x : ℕ × Rule) (l : List (ℕ × Rule)) → IsSorted l → IsSorted (insert x l)
unfolding insert
insert-IsSorted x [] s = (tt, tt)
insert-IsSorted (i, a) ((j, b) ∷ rest) (below, s) = elim (Bool-cases (not_after (i, a) (j, b))) [
  | inl e ↦
      let h = le_of_not_after i j a b e in
      rw e ((h, IsBelow-trans (a.priority) (b.priority) rest h below), (below, s))
  | inr e ↦ rw e (
    IsBelow-insert (b.priority) (i, a) rest (ge_of_not_after i j a b e) below,
    insert-IsSorted (i, a) rest s,
  )
]

pub sort_indexed-IsSorted : (l : List (ℕ × Rule)) → IsSorted (sort_indexed l)
unfolding sort_indexed
sort_indexed-IsSorted [] = tt
sort_indexed-IsSorted (x ∷ xs) = insert-IsSorted x (sort_indexed xs) (sort_indexed-IsSorted xs)

IsFirst-insert :
    (i : ℕ) (x : ℕ × Rule) (l : List (ℕ × Rule)) → i ≤ x.0 → IsFirst i l → IsFirst i (insert x l)
unfolding insert
IsFirst-insert i x [] h k = (h, tt)
IsFirst-insert i x ((j, b) ∷ rest) h k = elim (Bool-cases (not_after x (j, b))) [
  | inl e ↦ rw e (h, k)
  | inr e ↦ rw e (k.0, IsFirst-insert i x rest h (k.1))
]

IsFirst-sort_indexed : (i : ℕ) (l : List (ℕ × Rule)) → IsFirst i l → IsFirst i (sort_indexed l)
unfolding sort_indexed
IsFirst-sort_indexed i [] h = tt
IsFirst-sort_indexed i ((j, b) ∷ rest) (h, hs) =
    IsFirst-insert i (j, b) (sort_indexed rest) h (IsFirst-sort_indexed i rest hs)

IsFirst-enumerate : (i j : ℕ) (l : List Rule) → i ≤ j → IsFirst i (enumerate j l)
unfolding enumerate
IsFirst-enumerate i j [] h = tt
IsFirst-enumerate i j (r ∷ rs) h = (h, IsFirst-enumerate i (j + 1) rs (omega arith))

-- An earlier rule that is sorted behind a later one has another priority.
priorities_differ :
    (p : ℤ) (i j : ℕ) (a b : Rule)
    → i ≤ j
    → not_after (i, a) (j, b) ≡ false
    → has_priority p a ≡ true
    → has_priority p b ≡ false
unfolding not_after
priorities_differ p i j a b h e k = ground arith

-- The insertion of an earlier rule puts it before the rules of its priority.
insert_stable :
    (p : ℤ) (i : ℕ) (a : Rule) (l : List (ℕ × Rule))
    → IsFirst i l
    → filter (has_priority p) (rules_of (insert (i, a) l))
      ≡ filter (has_priority p) (a ∷ rules_of l)
unfolding insert
insert_stable p i a [] h = refl
insert_stable p i a ((j, b) ∷ rest) (h, hs) = elim (Bool-cases (not_after (i, a) (j, b))) [
  | inl e ↦ rw e refl
  | inr e ↦ rw e (ground (arith, insert_stable p i a rest hs, priorities_differ p i j a b h e))
]

-- Sorting keeps the order of the rules of one priority.
pub sort_stable :
    (p : ℤ) (i : ℕ) (l : List Rule)
    → filter (has_priority p) (rules_of (sort_indexed (enumerate i l))) ≡ filter (has_priority p) l
unfolding sort_indexed enumerate
sort_stable p i [] = refl
sort_stable p i (r ∷ rs) =
    insert_stable p i r (sort_indexed (enumerate (i + 1) rs))
      (IsFirst-sort_indexed i _ (IsFirst-enumerate i (i + 1) rs (omega arith)))
    ∙ ground (arith, sort_stable p (i + 1) rs)
