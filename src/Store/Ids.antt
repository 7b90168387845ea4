-- ===== src/Store/Ids.antt =====
-- Queues of flow ids: membership, distinctness, and the queue without an id.
use hamsy_proxy.Shared.{
  ◌≡◌, refl, Bool, false, not, List, [], ◌∷◌, ◌++◌, ◌==◌, ◌||◌, arith, filter, any, if◌then◌else◌,
}
use hamsy_proxy.Flow.{FlowId}

abbrev pub mem : FlowId → List FlowId → Bool
mem id l = any (λ j. j == id) l

abbrev pub IsDistinct : List FlowId → Type 0
IsDistinct [] = Unit
IsDistinct (j ∷ rest) = (mem j rest ≡ false) × IsDistinct rest

abbrev pub other_ids : FlowId → List FlowId → List FlowId
other_ids id l = filter (λ existing. not (existing == id)) l

pub mem-other_ids :
    (id j : FlowId) (l : List FlowId)
    → mem j (other_ids id l) ≡ (if j == id then false else mem j l)
mem-other_ids id j [] = ground arith
mem-other_ids id j (k ∷ rest) = ground (arith, mem-other_ids id j rest)

pub IsDistinct-other_ids :
    (id : FlowId) (l : List FlowId) → IsDistinct l → IsDistinct (other_ids id l)
IsDistinct-other_ids id [] h = tt
IsDistinct-other_ids id (k ∷ rest) (new_id, h) =
    ground (arith, mem-other_ids id k rest, IsDistinct-other_ids id rest h)

pub mem-append : (j id : FlowId) (l : List FlowId) → mem j (l ++ id ∷ []) ≡ (mem j l || (id == j))
mem-append j id [] = ground arith
mem-append j id (k ∷ rest) = ground (arith, mem-append j id rest)

pub IsDistinct-append :
    (id : FlowId) (l : List FlowId) → IsDistinct l → mem id l ≡ false → IsDistinct (l ++ id ∷ [])
IsDistinct-append id [] h fresh = (refl, tt)
IsDistinct-append id (k ∷ rest) (first, h) fresh =
    ground (arith, mem-append k id rest, IsDistinct-append id rest h)
