-- ===== src/Proxy/Run.antt =====
-- How the changes of an exchange meet the flow store, with the steps of other tasks between them. Each
-- is one step under the lock of the store, which is followed by an event.
use hamsy_proxy.Shared.{
  ℕ, zero, suc, ◌==◌, ◌≡◌, Bool, false, Option, none, some, List, [], ◌∷◌, ◌++◌,
}
use hamsy_proxy.Shared.Int.{ℤ}
use hamsy_proxy.Flow.{FlowId, FlowSummary, Flow}
use hamsy_proxy.BodyStream.{TeeState}
use hamsy_proxy.Store.{Inner, next_seq, insert, update, clear, set_capacity, set_max_total_bytes}
use hamsy_proxy.Rules.Externals.{Externals}
use hamsy_proxy.Proxy.Net.{Net}
use hamsy_proxy.Proxy.Exchange.{Handled}
use hamsy_proxy.Proxy.Event.{ServerEvent, flow_event}

-- The store, and the events that were sent.
pub record World (F64 : Type 0) : Type 0 where
  pub flows : Inner F64
  pub events : List (ServerEvent F64)

-- A change of the flow of an exchange, or a step of another task.
pub data Happening (F64 : Type 0) (id : FlowId) : Type 0 where
  changes : (f : Flow F64 → Flow F64) → Happening F64 id
  inserts : (flow : Flow F64) → (id == flow.summary.id) ≡ false → Happening F64 id
  updates : (j : FlowId) (f : Flow F64 → Flow F64) → (id == j) ≡ false → Happening F64 id
  allocates clears : Happening F64 id
  resizes rebudgets : ℕ → Happening F64 id

module _ {F64 : Type 0} where
  abbrev sent_for : Option FlowSummary → List (ServerEvent F64)
  sent_for none = []
  sent_for (some summary) = flow_event summary ∷ []

  -- `ctx.flows.insert(flow.clone())` and the event after it
  unfoldable pub insert_and_send : Flow F64 → World F64 → World F64
  unfolding insert
  insert_and_send flow w = record {
    flows = insert flow (w.flows);
    events = w.events ++ flow_event (flow.summary) ∷ [];
  }

  -- `if let Some(summary) = ctx.flows.update(id, f) { ... send ... }`
  unfoldable pub update_and_send : FlowId → (Flow F64 → Flow F64) → World F64 → World F64
  unfolding update
  update_and_send id f w = record {
    flows = (update id f (w.flows)).0;
    events = w.events ++ sent_for ((update id f (w.flows)).1);
  }

  unfoldable pub happen : {id : FlowId} → Happening F64 id → World F64 → World F64
  unfolding insert_and_send update_and_send next_seq clear set_capacity set_max_total_bytes
  happen {id} (changes f) w = update_and_send id f w
  happen (inserts flow h) w = insert_and_send flow w
  happen (updates j f h) w = update_and_send j f w
  happen allocates w = record w { flows = (next_seq (w.flows)).0 }
  happen clears w = record w { flows = clear (w.flows) }
  happen (resizes capacity) w = record w { flows = set_capacity capacity (w.flows) }
  happen (rebudgets budget) w = record w { flows = set_max_total_bytes budget (w.flows) }

  unfoldable pub happen_all : {id : FlowId} → List (Happening F64 id) → World F64 → World F64
  unfolding happen
  happen_all [] w = w
  happen_all (h ∷ hs) w = happen_all hs (happen h w)

  -- The changes of the exchange among them.
  abbrev pub own_changes : {id : FlowId} → List (Happening F64 id) → List (Flow F64 → Flow F64)
  own_changes [] = []
  own_changes (changes f ∷ hs) = f ∷ own_changes hs
  own_changes (inserts flow h ∷ hs) = own_changes hs
  own_changes (updates j f h ∷ hs) = own_changes hs
  own_changes (allocates ∷ hs) = own_changes hs
  own_changes (clears ∷ hs) = own_changes hs
  own_changes (resizes n ∷ hs) = own_changes hs
  own_changes (rebudgets n ∷ hs) = own_changes hs

-- How a wrapped body ends: whether its capture may be recorded, what the tee saw, and when.
pub record BodyEnd : Type 0 where
  pub capture : Bool
  pub state : TeeState
  pub now : ℤ

module _ {F64 : Type 0} where
  abbrev pub called :
      Option (Bool → TeeState → ℤ → Flow F64 → Flow F64) → BodyEnd → List (Flow F64 → Flow F64)
  called none e = []
  called (some finalize) e = finalize (e.capture) (e.state) (e.now) ∷ []

module _ {F64 : Type 0} where
  -- Some changes put between the others, behind a number of them.
  unfoldable pub woven :
      ℕ → List (Flow F64 → Flow F64) → List (Flow F64 → Flow F64) → List (Flow F64 → Flow F64)
  woven zero extra fs = extra ++ fs
  woven (suc n) extra [] = extra
  woven (suc n) extra (f ∷ fs) = f ∷ woven n extra fs

module _ {ext : Externals} {net : Net ext} {F64 : Type 0} where
  -- All the changes of an exchange, both bodies having ended. The callback on the request body may
  -- come at any place behind the changes before the body is handed on; the one on the response body
  -- comes last.
  unfoldable pub all_changes : Handled net F64 → ℕ → BodyEnd → BodyEnd → List (Flow F64 → Flow F64)
  unfolding woven
  all_changes h place request_end response_end =
      h.before
      ++ woven place (called (h.backfill) request_end) (h.after ++ called (h.finish) response_end)
