-- ===== src/Store/Listing.antt =====
-- What `list` returns under a limit, and in which order.
use Prim.Native.Nat.{min}
use hamsy_proxy.Shared.{
  ℕ, zero, suc, ◌-◌, ◌≡◌, refl, ap, none, some, List, [], ◌∷◌, ◌++◌, arith, length, drop, ltb,
  Bool-cases, inl, inr,
}
use hamsy_proxy.Flow.{FlowSummary}
use hamsy_proxy.Store.{Inner}
use hamsy_proxy.Store.Query.{FlowQuery, matches_query, last_results, list}

length-drop : {A : Type 0} (n : ℕ) (xs : List A) → length (drop n xs) ≡ length xs - n
length-drop zero xs = omega arith
length-drop (suc n) [] = omega arith
length-drop (suc n) (x ∷ xs) = omega (arith, length-drop n xs)

drop-end : {A : Type 0} (n : ℕ) (xs : List A) → (front : List A) × (xs ≡ front ++ drop n xs)
drop-end zero xs = ([], refl)
drop-end (suc n) [] = ([], refl)
drop-end (suc n) (x ∷ xs) = let (front, same) = drop-end n xs in (x ∷ front, ap (◌∷◌ x) same)

last_results-end :
    (limit : ℕ) (results : List FlowSummary)
    → ((front : List FlowSummary) × (results ≡ front ++ last_results (some limit) results))
      × (length (last_results (some limit) results) ≡ min limit (length results))
unfolding last_results
last_results-end limit results = elim (Bool-cases (ltb limit (length results))) [
  | inl long ↦ rw long (
    drop-end (length results - limit) results,
    ground (arith, length-drop (length results - limit) results),
  )
  | inr short ↦ rw short (([], refl), ground arith)
]

-- Under a limit `list` returns an end of what it returns without one: the most recently inserted
-- matches, as many as the limit allows.
pub list-end :
    {F64 : Type 0} (s : Inner F64) (query : FlowQuery) (limit : ℕ)
    → let full = list s (record query { limit = none }) in
      let limited = list s (record query { limit = some limit }) in
      ((front : List FlowSummary) × (full ≡ front ++ limited))
      × (length limited ≡ min limit (length full))
unfolding list matches_query
list-end s query limit = last_results-end limit _
