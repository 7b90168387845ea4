-- ===== src/Store.antt =====
-- crates/hamsy-core/src/store.rs: the flow store. The map from ids to flows is a function; each
-- operation holds the lock throughout and is one step. Reference counts are not modelled: a
-- snapshot is a value, which later steps cannot change.
pub mod Payload
pub mod Query
pub mod Listing
pub mod Spec
pub mod Ids
pub mod Evict
pub mod Refine
pub mod Updates
pub mod Limits
pub mod Tests
use hamsy_proxy.Shared.{
  ℕ, ◌+◌, ◌-◌, ◌%◌, ◌≡◌, Bool, true, false, not, Option, none, some, List, [], ◌∷◌, ◌++◌, ◌==◌,
  ◌||◌, filter, filter_map, length, ltb, is_some, is_empty, map, if◌then◌else◌,
}
use Prim.Native.Nat.{max}
use hamsy_proxy.Shared.Words.{u64_mod, u64_max}
use hamsy_proxy.Flow.{FlowId, FlowSummary, Flow}
use hamsy_proxy.Store.Payload.{stored_payload_bytes}

module _ {F64 : Type 0} where
  -- `flows.remove(&id)` and `flows.insert(id, flow)`
  abbrev pub remove_flow : FlowId → (FlowId → Option (Flow F64)) → FlowId → Option (Flow F64)
  remove_flow id flows j = if j == id then none else flows j

  abbrev pub insert_flow :
      FlowId → Flow F64 → (FlowId → Option (Flow F64)) → FlowId → Option (Flow F64)
  insert_flow id flow flows j = if j == id then some flow else flows j

  -- The payload of a flow that may be missing.
  abbrev pub bytes_of : Option (Flow F64) → ℕ
  bytes_of none = 0
  bytes_of (some flow) = stored_payload_bytes flow

pub record Inner (F64 : Type 0) : Type 0 where
  pub flows : FlowId → Option (Flow F64)
  pub order : List FlowId
  pub capacity : ℕ
  pub next_seq : ℕ
  pub total_bytes : ℕ
  pub max_total_bytes : ℕ

module _ {F64 : Type 0} where
  -- The loop of `evict_if_needed`, over the queue that is left. `saturating_sub` stops at 0, as
  -- subtraction does here.
  unfoldable pub evict : List FlowId → Inner F64 → Inner F64
  evict [] s = record s { order = [] }
  evict (oldest ∷ rest) s =
      let popped = evict rest (record s {
        order = rest;
        flows = remove_flow oldest (s.flows);
        total_bytes = s.total_bytes - bytes_of (s.flows oldest);
      }) in
      if ltb (s.capacity) (length (oldest ∷ rest)) || ltb (s.max_total_bytes) (s.total_bytes)
      then popped
      else record s { order = oldest ∷ rest }

  unfoldable pub evict_if_needed : Inner F64 → Inner F64
  unfolding evict
  evict_if_needed s = evict (s.order) s

  unfoldable pub new : ℕ → Inner F64
  new capacity = record {
    flows = λ id. none;
    order = [];
    capacity = max capacity 1;
    next_seq = 1;
    total_bytes = 0;
    max_total_bytes = u64_max;
  }

  -- The new store, and the number that was allocated.
  unfoldable pub next_seq : Inner F64 → Inner F64 × ℕ
  next_seq s = (record s { next_seq = (s.next_seq + 1) % u64_mod }, s.next_seq)

  -- `insert` up to the eviction.
  unfoldable pub drop_old : FlowId → Inner F64 → Inner F64
  drop_old id s =
      if is_some (s.flows id)
      then record s {
        flows = remove_flow id (s.flows);
        total_bytes = s.total_bytes - bytes_of (s.flows id);
        order = filter (λ existing. not (existing == id)) (s.order);
      }
      else s

  unfoldable pub push_flow : Flow F64 → Inner F64 → Inner F64
  push_flow flow s = record s {
    total_bytes = (s.total_bytes + stored_payload_bytes flow) % u64_mod;
    order = s.order ++ flow.summary.id ∷ [];
    flows = insert_flow (flow.summary.id) flow (s.flows);
  }

  unfoldable pub insert : Flow F64 → Inner F64 → Inner F64
  unfolding drop_old push_flow evict_if_needed
  insert flow s = evict_if_needed (push_flow flow (drop_old (flow.summary.id) s))

  -- The new store, and the summary if the flow is still stored.
  unfoldable pub update :
      FlowId → (Flow F64 → Flow F64) → Inner F64 → Inner F64 × Option FlowSummary
  unfolding evict_if_needed
  update id f s = elim (s.flows id) [
    | none ↦ (s, none)
    | some before ↦
        let flow = f before in
        let s' = evict_if_needed (record s {
          flows = insert_flow id flow (s.flows);
          total_bytes =
              (s.total_bytes - stored_payload_bytes before + stored_payload_bytes flow) % u64_mod;
        }) in
        (s', if is_some (s'.flows id) then some (flow.summary) else none)
  ]

  unfoldable pub get : Inner F64 → FlowId → Option (Flow F64)
  get s id = s.flows id

  -- The snapshots in insertion order, or of the given ids in their order.
  unfoldable pub snapshots : Inner F64 → Option (List FlowId) → List (Flow F64)
  snapshots s none = filter_map (s.flows) (s.order)
  snapshots s (some ids) = filter_map (s.flows) ids

  unfoldable pub all : Inner F64 → List (Flow F64)
  unfolding snapshots
  all s = snapshots s none

  unfoldable pub ids : Inner F64 → List FlowId → List (Flow F64)
  unfolding snapshots
  ids s wanted = snapshots s (some wanted)

  unfoldable pub clear : Inner F64 → Inner F64
  clear s = record s { flows = λ id. none; order = []; total_bytes = 0 }

  unfoldable pub len : Inner F64 → ℕ
  len s = length (s.order)

  unfoldable pub set_capacity : ℕ → Inner F64 → Inner F64
  unfolding evict_if_needed
  set_capacity cap s = evict_if_needed (record s { capacity = max cap 1 })

  unfoldable pub set_max_total_bytes : ℕ → Inner F64 → Inner F64
  unfolding evict_if_needed
  set_max_total_bytes limit s = evict_if_needed (record s { max_total_bytes = limit })
