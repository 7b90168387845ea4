-- ===== src/Store/Evict.antt =====
-- What holds of the map, the queue and the byte count of a store, and what the eviction loop does.
use hamsy_proxy.Shared.{
  ℕ, ◌-◌, ◌≤◌, ◌≡◌, refl, ap, ◌∙◌, sym, Bool, true, false, Option, none, some, List, [], ◌∷◌, ◌||◌,
  arith, length, ltb, is_some, Bool-cases, Option-cases, inl, inr,
}
use hamsy_proxy.Flow.{FlowId, Flow}
use hamsy_proxy.Store.{Inner, remove_flow, insert_flow, bytes_of, evict}
use hamsy_proxy.Store.Ids.{mem, IsDistinct}
use hamsy_proxy.Store.Spec.{Queue, queue_bytes, trim}

-- The test of the eviction loop.
abbrev is_over : ℕ → ℕ → List FlowId → ℕ → Bool
is_over capacity budget order total = ltb capacity (length order) || ltb budget total

module _ {F64 : Type 0} where
  -- The flows of a queue of ids.
  abbrev pub entries : (FlowId → Option (Flow F64)) → List FlowId → Queue F64
  entries flows [] = []
  entries flows (id ∷ rest) =
      let more = entries flows rest in elim (flows id) [ none ↦ more | some f ↦ (id, f) ∷ more ]

  abbrev pub view : Inner F64 → Queue F64
  view s = entries (s.flows) (s.order)

  -- The ids are distinct, exactly those with a flow stand in the queue, and the count is the sum.
  pub record IsSound (flows : FlowId → Option (Flow F64)) (order : List FlowId) (total : ℕ)
      : Type 0 where
    pub distinct : IsDistinct order
    pub stored : (id : FlowId) → is_some (flows id) ≡ mem id order
    pub counted : total ≡ queue_bytes (entries flows order)

  pub entries-remove_flow :
      (id : FlowId) (flows : FlowId → Option (Flow F64)) (l : List FlowId)
      → mem id l ≡ false
      → entries (remove_flow id flows) l ≡ entries flows l
  entries-remove_flow id flows [] h = refl
  entries-remove_flow id flows (j ∷ rest) h = ground (arith, entries-remove_flow id flows rest)

  pub entries-insert_flow :
      (id : FlowId) (flow : Flow F64) (flows : FlowId → Option (Flow F64)) (l : List FlowId)
      → mem id l ≡ false
      → entries (insert_flow id flow flows) l ≡ entries flows l
  entries-insert_flow id flow flows [] h = refl
  entries-insert_flow id flow flows (j ∷ rest) h =
      ground (arith, entries-insert_flow id flow flows rest)

  -- Without the front of the queue the rest is sound.
  IsSound-tail :
      (oldest : FlowId) (rest : List FlowId) (flows : FlowId → Option (Flow F64)) (total : ℕ)
      → IsSound flows (oldest ∷ rest) total
      → IsSound (remove_flow oldest flows) rest (total - bytes_of (flows oldest))
  IsSound-tail oldest rest flows total h = record {
    distinct = h.distinct.1;
    stored = λ id. ground (arith, h.stored id, h.distinct.0);
    counted = ground (arith, h.counted, entries-remove_flow oldest flows rest (h.distinct.0));
  }

  some_of_front :
      (oldest : FlowId) (rest : List FlowId) (flows : FlowId → Option (Flow F64)) (total : ℕ)
      → IsSound flows (oldest ∷ rest) total
      → (f : Flow F64) × (flows oldest ≡ some f)
  some_of_front oldest rest flows total h = elim (Option-cases (flows oldest)) [
    | inl e ↦ absurd (ground (arith, h.stored oldest))
    | inr found ↦ found
  ]

  length-entries :
      (flows : FlowId → Option (Flow F64)) (l : List FlowId) (total : ℕ)
      → IsSound flows l total
      → length (entries flows l) ≡ length l
  length-entries flows [] total h = refl
  length-entries flows (oldest ∷ rest) total h =
      let (f, found) = some_of_front oldest rest flows total h in
      ground (
        arith,
        length-entries (remove_flow oldest flows) rest _ (IsSound-tail oldest rest flows total h),
        entries-remove_flow oldest flows rest (h.distinct.0),
      )

  entries-cons :
      (oldest : FlowId) (rest : List FlowId) (flows : FlowId → Option (Flow F64)) (f : Flow F64)
      → flows oldest ≡ some f
      → entries flows (oldest ∷ rest) ≡ (oldest, f) ∷ entries flows rest
  entries-cons oldest rest flows f h = rw (h, entries)

  module _ (capacity budget : ℕ) (oldest : FlowId) (rest : List FlowId)
      (flows : FlowId → Option (Flow F64)) (total : ℕ)
      (h : IsSound flows (oldest ∷ rest) total) where
    -- On a sound store the loop and the specification drop the front together.
    trim_over :
        is_over capacity budget (oldest ∷ rest) total ≡ true
        → trim capacity budget (entries flows (oldest ∷ rest))
          ≡ trim capacity budget (entries (remove_flow oldest flows) rest)
    unfolding trim
    trim_over over =
        let (f, found) = some_of_front oldest rest flows total h in
        let front = entries-cons oldest rest flows f found in
        rw front (
          ground (
            arith,
            h.counted ∙ ap queue_bytes front,
            sym (ap length front) ∙ length-entries flows (oldest ∷ rest) total h,
            entries-remove_flow oldest flows rest (h.distinct.0),
          ))

    trim_fits :
        is_over capacity budget (oldest ∷ rest) total ≡ false
        → trim capacity budget (entries flows (oldest ∷ rest)) ≡ entries flows (oldest ∷ rest)
    unfolding trim
    trim_fits fits =
        let (f, found) = some_of_front oldest rest flows total h in
        let front = entries-cons oldest rest flows f found in
        rw front (
          ground (
            arith,
            h.counted ∙ ap queue_bytes front,
            sym (ap length front) ∙ length-entries flows (oldest ∷ rest) total h,
          ))

  -- What the eviction of a sound store leaves.
  pub record IsTrimmed (q : Queue F64) (capacity budget : ℕ) (s : Inner F64) : Type 0 where
    pub sound : IsSound (s.flows) (s.order) (s.total_bytes)
    pub trimmed : view s ≡ trim capacity budget q
    pub few : length (s.order) ≤ capacity
    pub light : s.total_bytes ≤ budget
    pub same_capacity : s.capacity ≡ capacity
    pub same_budget : s.max_total_bytes ≡ budget

  pub evict-IsTrimmed :
      (l : List FlowId) (s : Inner F64)
      → IsSound (s.flows) l (s.total_bytes)
      → IsTrimmed (entries (s.flows) l) (s.capacity) (s.max_total_bytes) (evict l s)
  unfolding evict trim
  evict-IsTrimmed [] s h = record {
    sound = h;
    trimmed = refl;
    few = omega arith;
    light = ground (arith, h.counted);
    same_capacity = refl;
    same_budget = refl;
  }
  evict-IsTrimmed (oldest ∷ rest) s h =
      let popped = record s {
        order = rest;
        flows = remove_flow oldest (s.flows);
        total_bytes = s.total_bytes - bytes_of (s.flows oldest);
      } in
      elim (Bool-cases (is_over (s.capacity) (s.max_total_bytes) (oldest ∷ rest) (s.total_bytes))) [
        | inl over ↦
            let t =
              evict-IsTrimmed rest popped (IsSound-tail oldest rest (s.flows) (s.total_bytes) h) in
            rw (over, evict)
              (record {
                sound = t.sound;
                trimmed =
                    t.trimmed
                    ∙ sym (
                        trim_over (s.capacity) (s.max_total_bytes) oldest rest (s.flows)
                          (s.total_bytes) h over);
                few = t.few;
                light = t.light;
                same_capacity = t.same_capacity;
                same_budget = t.same_budget;
              })
        | inr fits ↦
            rw (fits, evict)
              (record {
                sound = h;
                trimmed = sym (
                    trim_fits (s.capacity) (s.max_total_bytes) oldest rest (s.flows) (s.total_bytes)
                      h fits);
                few = ground arith;
                light = ground arith;
                same_capacity = refl;
                same_budget = refl;
              })
      ]
