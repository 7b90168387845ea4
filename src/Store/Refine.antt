-- ===== src/Store/Refine.antt =====
-- The operations of the store keep its invariant and do on the queue what `Store.Spec` says.
use hamsy_proxy.Shared.{
  ◌+◌, ◌≤◌, ◌≡◌, refl, ap, ◌∙◌, sym, true, false, Option, List, [], ◌∷◌, ◌++◌, arith, length,
  is_some, Bool-cases, inl, inr,
}
use hamsy_proxy.Shared.Words.{u64_max}
use hamsy_proxy.Flow.{FlowId, Flow}
use hamsy_proxy.Store.{
  Inner, remove_flow, insert_flow, bytes_of, evict_if_needed, drop_old, push_flow, insert,
}
use hamsy_proxy.Store.Payload.{stored_payload_bytes}
use hamsy_proxy.Store.Spec.{Queue, queue_bytes, trim, without, enqueue}
use hamsy_proxy.Store.Ids.{
  mem, IsDistinct, other_ids, mem-other_ids, IsDistinct-other_ids, mem-append, IsDistinct-append,
}
use hamsy_proxy.Store.Evict.{entries, view, IsSound, evict-IsTrimmed}

module _ {F64 : Type 0} where
  -- The store is sound and within its limits.
  pub record IsValid (s : Inner F64) : Type 0 where
    pub sound : IsSound (s.flows) (s.order) (s.total_bytes)
    pub few : length (s.order) ≤ s.capacity
    pub light : s.total_bytes ≤ s.max_total_bytes
    pub positive : 1 ≤ s.capacity
    pub word : s.max_total_bytes ≤ u64_max

  pub IsValid-evict_if_needed :
      (s : Inner F64)
      → IsSound (s.flows) (s.order) (s.total_bytes)
      → 1 ≤ s.capacity
      → s.max_total_bytes ≤ u64_max
      → IsValid (evict_if_needed s)
        × (view (evict_if_needed s) ≡ trim (s.capacity) (s.max_total_bytes) (view s))
  unfolding evict_if_needed
  IsValid-evict_if_needed s h p w =
      let t = evict-IsTrimmed (s.order) s h in
      (
        record {
          sound = t.sound;
          few = rw (t.same_capacity) (t.few);
          light = rw (t.same_budget) (t.light);
          positive = rw (t.same_capacity) p;
          word = rw (t.same_budget) w;
        },
        t.trimmed,
      )

  entries-other_ids :
      (id : FlowId) (flows : FlowId → Option (Flow F64)) (l : List FlowId)
      → entries (remove_flow id flows) (other_ids id l) ≡ without id (entries flows l)
  entries-other_ids id flows [] = refl
  entries-other_ids id flows (k ∷ rest) = ground (arith, entries-other_ids id flows rest)

  without-absent :
      (id : FlowId) (flows : FlowId → Option (Flow F64)) (l : List FlowId)
      → mem id l ≡ false
      → without id (entries flows l) ≡ entries flows l
  without-absent id flows [] h = refl
  without-absent id flows (k ∷ rest) h = ground (arith, without-absent id flows rest)

  queue_bytes-without :
      (id : FlowId) (flows : FlowId → Option (Flow F64)) (l : List FlowId)
      → IsDistinct l
      → mem id l ≡ true
      → queue_bytes (without id (entries flows l)) + bytes_of (flows id)
        ≡ queue_bytes (entries flows l)
  queue_bytes-without id flows [] d h = cc
  queue_bytes-without id flows (k ∷ rest) (fresh, d) h =
      ground (arith, queue_bytes-without id flows rest d, without-absent id flows rest)

  -- The first part of an insertion drops the id from a sound store.
  drop_old-IsSound :
      (id : FlowId) (s : Inner F64)
      → IsSound (s.flows) (s.order) (s.total_bytes)
      → IsSound ((drop_old id s).flows) ((drop_old id s).order) ((drop_old id s).total_bytes)
        × (view (drop_old id s) ≡ without id (view s))
        × (mem id ((drop_old id s).order) ≡ false)
        × ((drop_old id s).total_bytes ≤ s.total_bytes)
  unfolding drop_old
  drop_old-IsSound id s h = elim (Bool-cases (is_some (s.flows id))) [
    | inl old ↦
        let here : mem id (s.order) ≡ true = sym (h.stored id) ∙ old in
        rw (old, drop_old)
          (
            record {
              distinct = IsDistinct-other_ids id (s.order) (h.distinct);
              stored = λ j. ground (arith, h.stored j, mem-other_ids id j (s.order));
              counted = ground (
                arith,
                h.counted,
                entries-other_ids id (s.flows) (s.order),
                queue_bytes-without id (s.flows) (s.order) (h.distinct) here,
              );
            },
            entries-other_ids id (s.flows) (s.order),
            ground (arith, mem-other_ids id id (s.order)),
            omega arith,
          )
    | inr fresh ↦
        let absent : mem id (s.order) ≡ false = sym (h.stored id) ∙ fresh in
        rw (fresh, drop_old)
          (h, sym (without-absent id (s.flows) (s.order) absent), absent, omega arith)
  ]

  drop_old-limits :
      (id : FlowId) (s : Inner F64)
      → ((drop_old id s).capacity ≡ s.capacity)
        × ((drop_old id s).max_total_bytes ≡ s.max_total_bytes)
  unfolding drop_old
  drop_old-limits id s = ground arith

  entries-append :
      (id : FlowId) (flow : Flow F64) (flows : FlowId → Option (Flow F64)) (l : List FlowId)
      → mem id l ≡ false
      → entries (insert_flow id flow flows) (l ++ id ∷ []) ≡ entries flows l ++ (id, flow) ∷ []
  entries-append id flow flows [] fresh = ground arith
  entries-append id flow flows (k ∷ rest) fresh = ground (arith, entries-append id flow flows rest)

  queue_bytes-append :
      (q : Queue F64) (id : FlowId) (flow : Flow F64)
      → queue_bytes (q ++ (id, flow) ∷ []) ≡ queue_bytes q + stored_payload_bytes flow
  queue_bytes-append [] id flow = omega arith
  queue_bytes-append ((j, old) ∷ rest) id flow = omega (arith, queue_bytes-append rest id flow)

  push_flow-IsSound :
      (flow : Flow F64) (s : Inner F64)
      → IsSound (s.flows) (s.order) (s.total_bytes)
      → mem (flow.summary.id) (s.order) ≡ false
      → s.total_bytes + stored_payload_bytes flow ≤ u64_max
      → IsSound
          ((push_flow flow s).flows)
          ((push_flow flow s).order)
          ((push_flow flow s).total_bytes)
        × (view (push_flow flow s) ≡ view s ++ (flow.summary.id, flow) ∷ [])
  unfolding push_flow
  push_flow-IsSound flow s h fresh fits =
      let id = flow.summary.id in
      let shape = entries-append id flow (s.flows) (s.order) fresh in
      (
        record {
          distinct = IsDistinct-append id (s.order) (h.distinct) fresh;
          stored = λ j. ground (arith, h.stored j, mem-append j id (s.order));
          counted =
              omega (arith, h.counted, ap queue_bytes shape ∙ queue_bytes-append (view s) id flow);
        },
        shape,
      )

  push_flow-limits :
      (flow : Flow F64) (s : Inner F64)
      → let pushed = push_flow flow (drop_old (flow.summary.id) s) in
        (pushed.capacity ≡ s.capacity) × (pushed.max_total_bytes ≡ s.max_total_bytes)
  unfolding push_flow
  push_flow-limits flow s = drop_old-limits (flow.summary.id) s

  -- Insertion keeps a valid store valid, and its queue becomes the longest end that fits of the old
  -- queue with the flow at its end and without an older flow of the same id, as long as the byte
  -- count stays within the machine word.
  pub insert-enqueue :
      (flow : Flow F64) (s : Inner F64)
      → IsValid s
      → s.total_bytes + stored_payload_bytes flow ≤ u64_max
      → IsValid (insert flow s)
        × (view (insert flow s)
            ≡ trim (s.capacity) (s.max_total_bytes) (enqueue (flow.summary.id) flow (view s)))
  unfolding insert
  insert-enqueue flow s v fits =
      let id = flow.summary.id in
      let dropped = drop_old id s in
      let (sound, shape, fresh, lighter) = drop_old-IsSound id s (v.sound) in
      let (sound', shape') = push_flow-IsSound flow dropped sound fresh (omega arith) in
      let (cap, budget) = push_flow-limits flow s in
      let (valid, trimmed) =
        IsValid-evict_if_needed (push_flow flow dropped) sound' (rw cap (v.positive))
          (rw budget (v.word)) in
      (
        valid,
        trimmed
            ∙ ap (trim _ _) (shape' ∙ ap (λ q. q ++ (id, flow) ∷ []) shape)
            ∙ rw (cap, budget) refl,
      )
