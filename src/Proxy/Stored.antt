-- ===== src/Proxy/Stored.antt =====
-- What becomes of a flow in the store while changes are made to it and other tasks work on the store.
use Prim.Native.Nat.{max}
use hamsy_proxy.Shared.{
  ◌==◌, ◌≡◌, ◌≢◌, ◌%◌, ◌+◌, inl, inr, refl, ap, sym, ◌∙◌, Bool, true, false, Option, none, some,
  List, [], ◌∷◌, ◌||◌, is_some, length, ltb, ◌-◌, if◌then◌else◌, Option-cases, arith,
}
use hamsy_proxy.Flow.{FlowId, Flow}
use hamsy_proxy.Store.{
  Inner, remove_flow, insert_flow, bytes_of, evict, evict_if_needed, drop_old, push_flow, next_seq,
  insert, update, clear, set_capacity, set_max_total_bytes,
}
use hamsy_proxy.Shared.Words.{u64_mod}
use hamsy_proxy.Store.Payload.{stored_payload_bytes}
use hamsy_proxy.Store.Updates.{update_missing}
use hamsy_proxy.Proxy.Run.{
  World, insert_and_send, update_and_send, Happening, changes, inserts, updates, allocates, clears,
  resizes, rebudgets, happen, happen_all, own_changes,
}

module _ {F64 : Type 0} where
  if-kept :
      (b : Bool) (s t : Inner F64) (id : FlowId) (flow : Flow F64) (from : Option (Flow F64))
      → (s.flows id ≡ some flow → from ≡ some flow)
      → (t.flows id ≡ some flow → from ≡ some flow)
      → (if b then s else t).flows id ≡ some flow
      → from ≡ some flow
  if-kept true s t id flow from h k = h
  if-kept false s t id flow from h k = k

  remove-kept :
      (oldest id : FlowId) (flow : Flow F64) (flows : FlowId → Option (Flow F64))
      → remove_flow oldest flows id ≡ some flow
      → flows id ≡ some flow
  remove-kept oldest id flow flows h = ground arith

  -- An eviction only removes flows.
  evict-kept :
      (l : List FlowId) (s : Inner F64) (id : FlowId) (flow : Flow F64)
      → (evict l s).flows id ≡ some flow
      → s.flows id ≡ some flow
  unfolding evict
  evict-kept [] s id flow = λ h. h
  evict-kept (oldest ∷ rest) s id flow =
      if-kept (ltb (s.capacity) (length (oldest ∷ rest)) || ltb (s.max_total_bytes) (s.total_bytes))
        _ (record s { order = oldest ∷ rest }) id flow (s.flows id)
        (λ h. remove-kept oldest id flow (s.flows) (
          evict-kept rest
            (record s {
              order = rest;
              flows = remove_flow oldest (s.flows);
              total_bytes = s.total_bytes - bytes_of (s.flows oldest);
            })
            id flow h))
        (λ h. h)

  none_is_not_some : (flow : Flow F64) → none ≢ some flow
  none_is_not_some flow h = ground arith

  -- The store without the old flow of an id, for another id.
  drop_old-kept :
      (id j : FlowId) (s : Inner F64) (flow : Flow F64)
      → (drop_old id s).flows j ≡ some flow
      → s.flows j ≡ some flow
  unfolding drop_old
  drop_old-kept id j s flow =
      if-kept (is_some (s.flows id)) _ s j flow (s.flows j) (remove-kept id j flow (s.flows))
        (λ h. h)

  insert_flow-kept :
      (id j : FlowId) (new flow : Flow F64) (flows : FlowId → Option (Flow F64))
      → (j == id) ≡ false
      → insert_flow id new flows j ≡ some flow
      → flows j ≡ some flow
  insert_flow-kept id j new flow flows apart h = ground arith

  insert_flow-own :
      (id : FlowId) (new flow : Flow F64) (flows : FlowId → Option (Flow F64))
      → insert_flow id new flows id ≡ some flow
      → flow ≡ new
  insert_flow-own id new flow flows h = ground arith

  -- An insertion of another flow.
  insert-kept :
      (new : Flow F64) (s : Inner F64) (id : FlowId) (flow : Flow F64)
      → (id == new.summary.id) ≡ false
      → (insert new s).flows id ≡ some flow
      → s.flows id ≡ some flow
  unfolding insert push_flow drop_old evict_if_needed
  insert-kept new s id flow apart h = drop_old-kept (new.summary.id) id s flow (
      insert_flow-kept (new.summary.id) id new flow ((drop_old (new.summary.id) s).flows) apart
        (evict-kept _ (push_flow new (drop_old (new.summary.id) s)) id flow h))

  -- The inserted flow itself.
  pub insert-own :
      (new : Flow F64) (s : Inner F64) (flow : Flow F64)
      → (insert new s).flows (new.summary.id) ≡ some flow
      → flow ≡ new
  unfolding insert push_flow drop_old evict_if_needed
  insert-own new s flow h =
      insert_flow-own (new.summary.id) new flow ((drop_old (new.summary.id) s).flows)
        (evict-kept _ (push_flow new (drop_old (new.summary.id) s)) (new.summary.id) flow h)

  -- The store that an update of a stored flow evicts from.
  abbrev changed : FlowId → Flow F64 → Flow F64 → Inner F64 → Inner F64
  changed id before flow s = record s {
    flows = insert_flow id flow (s.flows);
    total_bytes =
        (s.total_bytes - stored_payload_bytes before + stored_payload_bytes flow) % u64_mod;
  }

  update_found :
      (id : FlowId) (f : Flow F64 → Flow F64) (before : Flow F64) (s : Inner F64)
      → s.flows id ≡ some before
      → (update id f s).0 ≡ evict (s.order) (changed id before (f before) s)
  unfolding update evict_if_needed
  update_found id f before s e = rw (e, update) refl

  flows_of_eq :
      (s t : Inner F64) (id : FlowId) (flow : Flow F64)
      → s ≡ t
      → s.flows id ≡ some flow
      → t.flows id ≡ some flow
  flows_of_eq s t id flow e h = sym (ap (λ u. u.flows id) e) ∙ h

  -- An update: what is stored then was stored before, changed if it is the flow's.
  update-own :
      (id : FlowId) (f : Flow F64 → Flow F64) (s : Inner F64) (flow : Flow F64)
      → ((update id f s).0).flows id ≡ some flow
      → (before : Flow F64) × (s.flows id ≡ some before) × (flow ≡ f before)
  update-own id f s flow h = elim (Option-cases (s.flows id)) [
    | inl e ↦ absurd (
        none_is_not_some flow
          (sym e ∙ flows_of_eq _ s id flow (ap (λ u. u.0) (update_missing id f s e)) h))
    | inr (before, e) ↦ (
      before,
      e,
      insert_flow-own id (f before) flow (s.flows) (
          evict-kept (s.order) (changed id before (f before) s) id flow
            (flows_of_eq _ _ id flow (update_found id f before s e) h)),
    )
  ]

  update-kept :
      (j : FlowId) (f : Flow F64 → Flow F64) (s : Inner F64) (id : FlowId) (flow : Flow F64)
      → (id == j) ≡ false
      → ((update j f s).0).flows id ≡ some flow
      → s.flows id ≡ some flow
  update-kept j f s id flow apart h = elim (Option-cases (s.flows j)) [
    | inl e ↦ flows_of_eq _ s id flow (ap (λ u. u.0) (update_missing j f s e)) h
    | inr (before, e) ↦ insert_flow-kept j id (f before) flow (s.flows) apart (
        evict-kept (s.order) (changed j before (f before) s) id flow
          (flows_of_eq _ _ id flow (update_found j f before s e) h))
  ]

  -- All the changes that were made.
  abbrev pub apply_all : List (Flow F64 → Flow F64) → Flow F64 → Flow F64
  apply_all [] flow = flow
  apply_all (f ∷ fs) flow = apply_all fs (f flow)

  -- One step: the flow that is stored after it was stored before it, changed if the step is a change.
  happen-own :
      {id : FlowId} (h : Happening F64 id) (w : World F64) (flow : Flow F64)
      → ((happen h w).flows).flows id ≡ some flow
      → (before : Flow F64) × ((w.flows).flows id ≡ some before)
        × (flow ≡ apply_all (own_changes (h ∷ [])) before)
  unfolding happen insert_and_send update_and_send next_seq clear set_capacity set_max_total_bytes
      evict_if_needed
  happen-own {id} (changes f) w flow h = update-own id f (w.flows) flow h
  happen-own {id} (inserts new apart) w flow h =
      (flow, insert-kept new (w.flows) id flow apart h, refl)
  happen-own {id} (updates j f apart) w flow h =
      (flow, update-kept j f (w.flows) id flow apart h, refl)
  happen-own allocates w flow h = (flow, h, refl)
  happen-own clears w flow h = absurd (none_is_not_some flow h)
  happen-own {id} (resizes n) w flow h =
      (flow, evict-kept (w.flows.order) (record (w.flows) { capacity = max n 1 }) id flow h, refl)
  happen-own {id} (rebudgets n) w flow h =
      (flow, evict-kept (w.flows.order) (record (w.flows) { max_total_bytes = n }) id flow h, refl)

  apply-own_changes :
      {id : FlowId} (h : Happening F64 id) (hs : List (Happening F64 id)) (flow : Flow F64)
      → apply_all (own_changes (h ∷ hs)) flow
        ≡ apply_all (own_changes hs) (apply_all (own_changes (h ∷ [])) flow)
  apply-own_changes (changes f) hs flow = refl
  apply-own_changes (inserts new apart) hs flow = refl
  apply-own_changes (updates j f apart) hs flow = refl
  apply-own_changes allocates hs flow = refl
  apply-own_changes clears hs flow = refl
  apply-own_changes (resizes n) hs flow = refl
  apply-own_changes (rebudgets n) hs flow = refl

  -- Whatever other tasks do between the steps: a flow that is stored at the end is the one that was
  -- stored at the beginning, with its own changes made in their order.
  pub happen_all-own :
      {id : FlowId} (hs : List (Happening F64 id)) (w : World F64) (flow : Flow F64)
      → ((happen_all hs w).flows).flows id ≡ some flow
      → (before : Flow F64) × ((w.flows).flows id ≡ some before)
        × (flow ≡ apply_all (own_changes hs) before)
  unfolding happen_all
  happen_all-own [] w flow h = (flow, h, refl)
  happen_all-own (h ∷ hs) w flow e =
      let (mid, found, same) = happen_all-own hs (happen h w) flow e in
      let (before, found', same') = happen-own h w mid found in
      (
        before,
        found',
        same ∙ ap (apply_all (own_changes hs)) same' ∙ sym (apply-own_changes h hs before),
      )
