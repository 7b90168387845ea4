-- ===== src/Rules/Compile/Sort.antt =====
-- The stable sort of `RuleSet::new`: by priority, then by position. The standard library's
-- `sort_by` is an insertion sort here; the order is total on the pairs that are sorted.
use hamsy_proxy.Shared.{ℕ, ◌+◌, Bool, true, List, [], ◌∷◌, ◌&&◌, leb, if◌then◌else◌}
use hamsy_proxy.Shared.Int.{leb_ℤ}
use hamsy_proxy.Rules.Model.{Rule}

-- `into_iter().enumerate()`
unfoldable pub enumerate {ℓ} : {A : Type ℓ} → ℕ → List A → List (ℕ × A)
enumerate i [] = []
enumerate i (x ∷ xs) = (i, x) ∷ enumerate (i + 1) xs

-- `a.priority.cmp(&b.priority).then(ia.cmp(ib))` is not `Greater`
unfoldable pub not_after : ℕ × Rule → ℕ × Rule → Bool
not_after (i, a) (j, b) =
    if leb_ℤ (b.priority) (a.priority) then leb_ℤ (a.priority) (b.priority) && leb i j else true

unfoldable pub insert : ℕ × Rule → List (ℕ × Rule) → List (ℕ × Rule)
unfolding not_after
insert x [] = x ∷ []
insert x (y ∷ ys) = let rest = y ∷ insert x ys in if not_after x y then x ∷ y ∷ ys else rest

unfoldable pub sort_indexed : List (ℕ × Rule) → List (ℕ × Rule)
unfolding insert
sort_indexed [] = []
sort_indexed (x ∷ xs) = insert x (sort_indexed xs)
