-- ===== src/Store/Updates.antt =====
-- Updates in place, the changes of the limits, and all the stores that the operations can reach.
use Prim.Native.Nat.{max}
use hamsy_proxy.Shared.{
  ℕ, ◌+◌, ◌-◌, ◌%◌, ◌≤◌, ◌≡◌, refl, ap, ◌∙◌, sym, true, false, Option, none, some, List, [], ◌∷◌,
  arith, is_some,
}
use hamsy_proxy.Shared.Words.{u64_mod, u64_max}
use hamsy_proxy.Flow.{FlowId, Flow}
use hamsy_proxy.Store.{
  Inner, insert_flow, new, next_seq, insert, update, clear, set_capacity, set_max_total_bytes,
}
use hamsy_proxy.Store.Payload.{stored_payload_bytes}
use hamsy_proxy.Store.Spec.{queue_bytes, trim, replace}
use hamsy_proxy.Store.Ids.{mem, IsDistinct}
use hamsy_proxy.Store.Evict.{entries, view, IsSound}
use hamsy_proxy.Store.Refine.{IsValid, IsValid-evict_if_needed, insert-enqueue}

module _ {F64 : Type 0} where
  replace-absent :
      (id : FlowId) (flow : Flow F64) (flows : FlowId → Option (Flow F64)) (l : List FlowId)
      → mem id l ≡ false
      → replace id flow (entries flows l) ≡ entries flows l
  replace-absent id flow flows [] h = refl
  replace-absent id flow flows (k ∷ rest) h = ground (arith, replace-absent id flow flows rest)

  entries-replace :
      (id : FlowId) (flow before : Flow F64) (flows : FlowId → Option (Flow F64)) (l : List FlowId)
      → flows id ≡ some before
      → entries (insert_flow id flow flows) l ≡ replace id flow (entries flows l)
  entries-replace id flow before flows [] h = refl
  entries-replace id flow before flows (k ∷ rest) h =
      ground (arith, entries-replace id flow before flows rest)

  queue_bytes-replace :
      (id : FlowId) (flow before : Flow F64) (flows : FlowId → Option (Flow F64)) (l : List FlowId)
      → flows id ≡ some before
      → IsDistinct l
      → mem id l ≡ true
      → queue_bytes (replace id flow (entries flows l)) + stored_payload_bytes before
        ≡ queue_bytes (entries flows l) + stored_payload_bytes flow
  queue_bytes-replace id flow before flows [] e d h = cc
  queue_bytes-replace id flow before flows (k ∷ rest) e (fresh, d) h =
      ground (
        arith,
        queue_bytes-replace id flow before flows rest e d,
        replace-absent id flow flows rest,
      )

  payload-le :
      (id : FlowId) (before : Flow F64) (flows : FlowId → Option (Flow F64)) (l : List FlowId)
      → flows id ≡ some before
      → mem id l ≡ true
      → stored_payload_bytes before ≤ queue_bytes (entries flows l)
  payload-le id before flows [] e h = absurd (ground arith)
  payload-le id before flows (k ∷ rest) e h = ground (arith, payload-le id before flows rest e)

  -- An update of a missing flow changes nothing and returns nothing.
  pub update_missing :
      (id : FlowId) (f : Flow F64 → Flow F64) (s : Inner F64)
      → s.flows id ≡ none
      → update id f s ≡ (s, none)
  unfolding update
  update_missing id f s h = rw (h, update)

  -- The store that an update of a stored flow evicts from.
  abbrev rewritten : FlowId → Flow F64 → Flow F64 → Inner F64 → Inner F64
  rewritten id before flow s = record s {
    flows = insert_flow id flow (s.flows);
    total_bytes =
        (s.total_bytes - stored_payload_bytes before + stored_payload_bytes flow) % u64_mod;
  }

  rewritten-IsSound :
      (id : FlowId) (before flow : Flow F64) (s : Inner F64)
      → IsSound (s.flows) (s.order) (s.total_bytes)
      → s.flows id ≡ some before
      → s.total_bytes - stored_payload_bytes before + stored_payload_bytes flow ≤ u64_max
      → IsSound
          ((rewritten id before flow s).flows)
          (s.order)
          ((rewritten id before flow s).total_bytes)
        × (view (rewritten id before flow s) ≡ replace id flow (view s))
  rewritten-IsSound id before flow s h e fits =
      let shape = entries-replace id flow before (s.flows) (s.order) e in
      let here : mem id (s.order) ≡ true = sym (h.stored id) ∙ ap is_some e in
      (
        record {
          distinct = h.distinct;
          stored = λ j. ground (arith, h.stored j);
          counted = omega (
            arith,
            h.counted,
            ap queue_bytes shape,
            payload-le id before (s.flows) (s.order) e here,
            queue_bytes-replace id flow before (s.flows) (s.order) e (h.distinct) here,
          );
        },
        shape,
      )

  -- An update of a stored flow keeps a valid store valid: the flow is replaced where it stands in
  -- the queue, and then the longest end that fits is kept, as long as the byte count stays within
  -- the machine word.
  pub update-replace :
      (id : FlowId) (f : Flow F64 → Flow F64) (before : Flow F64) (s : Inner F64)
      → IsValid s
      → s.flows id ≡ some before
      → s.total_bytes - stored_payload_bytes before + stored_payload_bytes (f before) ≤ u64_max
      → IsValid ((update id f s).0)
        × (view ((update id f s).0)
            ≡ trim (s.capacity) (s.max_total_bytes) (replace id (f before) (view s)))
  unfolding update
  update-replace id f before s v e fits =
      let (sound, shape) = rewritten-IsSound id before (f before) s (v.sound) e fits in
      let (valid, trimmed) =
        IsValid-evict_if_needed (rewritten id before (f before) s) sound (v.positive) (v.word) in
      rw (e, update) (valid, trimmed ∙ ap (trim (s.capacity) (s.max_total_bytes)) shape)

  -- A new capacity, at least one, keeps the longest end of the queue that fits.
  pub set_capacity-trim :
      (cap : ℕ) (s : Inner F64)
      → IsValid s
      → IsValid (set_capacity cap s)
        × (view (set_capacity cap s) ≡ trim (max cap 1) (s.max_total_bytes) (view s))
  unfolding set_capacity
  set_capacity-trim cap s v = IsValid-evict_if_needed _ (v.sound) (omega arith) (v.word)

  -- A new budget within the machine word keeps the longest end of the queue that fits.
  pub set_max_total_bytes-trim :
      (budget : ℕ) (s : Inner F64)
      → IsValid s
      → budget ≤ u64_max
      → IsValid (set_max_total_bytes budget s)
        × (view (set_max_total_bytes budget s) ≡ trim (s.capacity) budget (view s))
  unfolding set_max_total_bytes
  set_max_total_bytes-trim budget s v w = IsValid-evict_if_needed _ (v.sound) (v.positive) w

  pub new-IsValid : (cap : ℕ) → IsValid (new {F64 = F64} cap)
  unfolding new
  new-IsValid cap = record {
    sound = record { distinct = tt; stored = λ id. refl; counted = refl };
    few = omega arith;
    light = omega arith;
    positive = omega arith;
    word = omega arith;
  }

  clear-IsValid : (s : Inner F64) → IsValid s → IsValid (clear s)
  unfolding clear
  clear-IsValid s v = record {
    sound = record { distinct = tt; stored = λ id. refl; counted = refl };
    few = omega arith;
    light = omega arith;
    positive = v.positive;
    word = v.word;
  }

  next_seq-IsValid : (s : Inner F64) → IsValid s → IsValid ((next_seq s).0)
  unfolding next_seq
  next_seq-IsValid s v = record {
    sound = v.sound;
    few = v.few;
    light = v.light;
    positive = v.positive;
    word = v.word;
  }

  -- One operation, at arguments for which the byte count stays within the machine word.
  pub data Step : Inner F64 → Inner F64 → Type 0 where
    allocates : (s : Inner F64) → Step s ((next_seq s).0)
    inserts :
        (s : Inner F64) (flow : Flow F64)
        → s.total_bytes + stored_payload_bytes flow ≤ u64_max
        → Step s (insert flow s)
    misses :
        (s : Inner F64) (id : FlowId) (f : Flow F64 → Flow F64)
        → s.flows id ≡ none
        → Step s ((update id f s).0)
    updates :
        (s : Inner F64) (id : FlowId) (f : Flow F64 → Flow F64) (before : Flow F64)
        → s.flows id ≡ some before
        → s.total_bytes - stored_payload_bytes before + stored_payload_bytes (f before) ≤ u64_max
        → Step s ((update id f s).0)
    clears : (s : Inner F64) → Step s (clear s)
    resizes : (s : Inner F64) (cap : ℕ) → Step s (set_capacity cap s)
    rebudgets :
        (s : Inner F64) (budget : ℕ) → budget ≤ u64_max → Step s (set_max_total_bytes budget s)

  pub data Reach : Inner F64 → Type 0 where
    start : (cap : ℕ) → Reach (new cap)
    next : {s t : Inner F64} → Reach s → Step s t → Reach t

  Step-IsValid : {s t : Inner F64} → Step s t → IsValid s → IsValid t
  Step-IsValid (allocates s) v = next_seq-IsValid s v
  Step-IsValid (inserts s flow fits) v = (insert-enqueue flow s v fits).0
  Step-IsValid (misses s id f e) v = rw (update_missing id f s e) v
  Step-IsValid (updates s id f before e fits) v = (update-replace id f before s v e fits).0
  Step-IsValid (clears s) v = clear-IsValid s v
  Step-IsValid (resizes s cap) v = (set_capacity-trim cap s v).0
  Step-IsValid (rebudgets s budget w) v = (set_max_total_bytes-trim budget s v w).0

  -- Every store that is reached from a new one by the operations is valid: the queue has distinct
  -- ids, exactly those with a flow in the map; the byte count is the sum of the payloads; and the
  -- number of flows and the byte count are within the limits.
  pub Reach-IsValid : {s : Inner F64} → Reach s → IsValid s
  Reach-IsValid (start cap) = new-IsValid cap
  Reach-IsValid (next r st) = Step-IsValid st (Reach-IsValid r)
