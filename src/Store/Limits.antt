-- ===== src/Store/Limits.antt =====
-- What eviction keeps, measured against the limits.
use hamsy_proxy.Shared.{
  ℕ, ◌≤◌, ◌≡◌, refl, ap, [], ◌∷◌, ◌++◌, ◌||◌, arith, length, ltb, Bool-cases, inl, inr,
}
use hamsy_proxy.Shared.Words.{u64_max}
use hamsy_proxy.Store.{Inner, evict_if_needed}
use hamsy_proxy.Store.Evict.{view, IsSound}
use hamsy_proxy.Store.Refine.{IsValid-evict_if_needed}
use hamsy_proxy.Store.Spec.{Queue, queue_bytes, trim}

module _ {F64 : Type 0} (capacity budget : ℕ) where
  abbrev pub Fits : Queue F64 → Type 0
  Fits q = (length q ≤ capacity) × (queue_bytes q ≤ budget)

  -- The queue that is kept is an end of the queue, it fits, and any end that fits is an end of it.
  trim-end : (q : Queue F64) → (dropped : Queue F64) × (q ≡ dropped ++ trim capacity budget q)
  unfolding trim
  trim-end [] = ([], refl)
  trim-end (e ∷ rest) =
      let (dropped, same) = trim-end rest in
      elim (Bool-cases (ltb capacity (length (e ∷ rest)) || ltb budget (queue_bytes (e ∷ rest)))) [
        | inl over ↦ (e ∷ dropped, rw (over, trim) (ap (◌∷◌ e) same))
        | inr fits ↦ ([], rw (fits, trim) refl)
      ]

  trim-Fits : (q : Queue F64) → Fits (trim capacity budget q)
  unfolding trim
  trim-Fits [] = (omega arith, omega arith)
  trim-Fits (e ∷ rest) = ground (arith, trim-Fits rest)

  bytes-suffix : (p q : Queue F64) → queue_bytes q ≤ queue_bytes (p ++ q)
  bytes-suffix [] q = omega arith
  bytes-suffix (e ∷ p) q = omega (arith, bytes-suffix p q)

  length-suffix : (p q : Queue F64) → length q ≤ length (p ++ q)
  length-suffix [] q = omega arith
  length-suffix (e ∷ p) q = omega (arith, length-suffix p q)

  trim_of_Fits : (q : Queue F64) → Fits q → trim capacity budget q ≡ q
  unfolding trim
  trim_of_Fits [] h = refl
  trim_of_Fits (e ∷ rest) (few, light) = ground arith

  longest : (p q : Queue F64) → Fits q → length q ≤ length (trim capacity budget (p ++ q))
  unfolding trim
  longest [] q h = rw (trim_of_Fits q h) (omega arith)
  longest (e ∷ p) q h = ground (arith, longest p q h, length-suffix p q)

module _ {F64 : Type 0} where
  -- On a store whose bookkeeping is sound, in whatever excess of its limits, eviction keeps an end of
  -- the queue, that end fits both limits, and no end of the queue that fits is longer.
  pub evict_if_needed_longest :
      (s : Inner F64) (p r : Queue F64)
      → IsSound (s.flows) (s.order) (s.total_bytes)
      → 1 ≤ s.capacity
      → s.max_total_bytes ≤ u64_max
      → view s ≡ p ++ r
      → Fits (s.capacity) (s.max_total_bytes) r
      → let kept = view (evict_if_needed s) in
        ((dropped : Queue F64) × (view s ≡ dropped ++ kept))
        × Fits (s.capacity) (s.max_total_bytes) kept
        × (length r ≤ length kept)
  evict_if_needed_longest s p r sound positive word e h =
      let (valid, same) = IsValid-evict_if_needed s sound positive word in
      let cap = s.capacity in
      let budget = s.max_total_bytes in
      rw same (
        trim-end cap budget (view s),
        trim-Fits cap budget (view s),
        rw e (longest cap budget p r h),
      )
