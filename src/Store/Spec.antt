-- ===== src/Store/Spec.antt =====
-- What the store promises, over a queue of flows with their ids, oldest first: a queue keeps at most
-- `capacity` flows of at most `budget` bytes, by dropping from its front.
use hamsy_proxy.Shared.{
  ℕ, ◌+◌, not, List, [], ◌∷◌, ◌++◌, ◌==◌, ◌||◌, filter, length, ltb, if◌then◌else◌,
}
use hamsy_proxy.Flow.{FlowId, Flow}
use hamsy_proxy.Store.Payload.{stored_payload_bytes}

abbrev pub Queue : Type 0 → Type 0
Queue F64 = List (FlowId × Flow F64)

module _ {F64 : Type 0} where
  abbrev pub queue_bytes : Queue F64 → ℕ
  queue_bytes [] = 0
  queue_bytes ((id, flow) ∷ rest) = stored_payload_bytes flow + queue_bytes rest

  -- The longest end of the queue that fits.
  unfoldable pub trim : ℕ → ℕ → Queue F64 → Queue F64
  trim capacity budget [] = []
  trim capacity budget (entry ∷ rest) =
      let shorter = trim capacity budget rest in
      if ltb capacity (length (entry ∷ rest)) || ltb budget (queue_bytes (entry ∷ rest))
      then shorter
      else entry ∷ rest

  abbrev pub without : FlowId → Queue F64 → Queue F64
  without id q = filter (λ e. not (e.0 == id)) q

  -- A new flow goes to the end; an older one of its id is dropped.
  abbrev pub enqueue : FlowId → Flow F64 → Queue F64 → Queue F64
  enqueue id flow q = without id q ++ (id, flow) ∷ []

  -- A flow is replaced where it stands.
  abbrev pub replace : FlowId → Flow F64 → Queue F64 → Queue F64
  replace id flow [] = []
  replace id flow ((j, old) ∷ rest) = (j, if j == id then flow else old) ∷ replace id flow rest
