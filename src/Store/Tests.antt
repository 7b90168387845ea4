-- ===== src/Store/Tests.antt =====
-- A store of two flows.
use mathlib.Core.List.{append-nil}
use hamsy_proxy.Shared.{
  sym, ℕ, ◌+◌, ◌-◌, ◌≤◌, ◌≡◌, refl, false, some, none, [], ◌++◌, length, arith,
}
use hamsy_proxy.Shared.Words.{u64_max}
use hamsy_proxy.Shared.Text.{text}
use hamsy_proxy.Shared.Int.{pos}
use hamsy_proxy.Flow.{FlowSummary, Flow, FlowState, ResourceType}
use hamsy_proxy.Store.{Inner, evict_if_needed, new, insert, update}
use hamsy_proxy.Store.Payload.{stored_payload_bytes}
use hamsy_proxy.Store.Query.{FlowQuery}
use hamsy_proxy.Store.Spec.{trim, enqueue, replace, Queue}
use hamsy_proxy.Store.Evict.{view}
use hamsy_proxy.Store.Refine.{IsValid, insert-enqueue}
use hamsy_proxy.Store.Limits.{evict_if_needed_longest, Fits}
use hamsy_proxy.Store.Updates.{update-replace, new-IsValid, start, next, inserts, Reach-IsValid}

abbrev summary : ℕ → FlowSummary
summary id = record {
  id = id;
  seq = id;
  state = FlowState.pending;
  started_at = pos 0;
  duration_ms = none;
  method = text "GET";
  scheme = text "http";
  host = text "h";
  port = 80;
  path = text "/";
  url = text "http://h/";
  http_version = text "HTTP/1.1";
  status = none;
  status_text = none;
  mime_type = none;
  resource_type = ResourceType.other;
  request_size = 0;
  response_size = 0;
  client_addr = text "c";
  app = none;
  matched_rules = [];
  modified = false;
  error = none;
  websocket = false;
  from_cache = false;
}

abbrev flow : ℕ → Flow ℕ
flow id = record {
  summary = summary id;
  request = none;
  response = none;
  original_request = none;
  original_response = none;
  timings = record { blocked = 0; dns = 0; connect = 0; ssl = 0; send = 0; wait = 0; receive = 0 };
  ws_messages = [];
  server_addr = none;
  tls = none;
}

abbrev empty_store : Inner ℕ
empty_store = new 1

abbrev one_flow : Inner ℕ
one_flow = insert (flow 1) empty_store

fits_in_empty : empty_store.total_bytes + stored_payload_bytes (flow 1) ≤ u64_max
unfolding stored_payload_bytes new
fits_in_empty = omega arith

one_flow-IsValid : IsValid one_flow
one_flow-IsValid = (insert-enqueue (flow 1) empty_store (new-IsValid 1) fits_in_empty).0

fits_in_one : one_flow.total_bytes + stored_payload_bytes (flow 2) ≤ u64_max
unfolding stored_payload_bytes new insert
fits_in_one = omega arith

insert-enqueue_example :
    IsValid (insert (flow 2) one_flow)
    × (view (insert (flow 2) one_flow)
        ≡ trim (one_flow.capacity) (one_flow.max_total_bytes) (enqueue 2 (flow 2) (view one_flow)))
insert-enqueue_example = insert-enqueue (flow 2) one_flow one_flow-IsValid fits_in_one

abbrev rename : Flow ℕ → Flow ℕ
rename f = record f { server_addr = some (text "s") }

stored : one_flow.flows 1 ≡ some (flow 1)
unfolding stored_payload_bytes new insert
stored = refl

fits_renamed :
    one_flow.total_bytes - stored_payload_bytes (flow 1) + stored_payload_bytes (rename (flow 1))
    ≤ u64_max
unfolding stored_payload_bytes new insert
fits_renamed = omega arith

update-replace_example :
    IsValid ((update 1 rename one_flow).0)
    × (view ((update 1 rename one_flow).0)
        ≡ trim
            (one_flow.capacity)
            (one_flow.max_total_bytes)
            (replace 1 (rename (flow 1)) (view one_flow)))
update-replace_example =
    update-replace 1 rename (flow 1) one_flow one_flow-IsValid stored fits_renamed

Reach-IsValid_example : IsValid one_flow
Reach-IsValid_example = Reach-IsValid (next (start 1) (inserts empty_store (flow 1) fits_in_empty))

abbrev no_budget : Inner ℕ
no_budget = record one_flow { max_total_bytes = 0 }

evict_if_needed_longest_example :
    let kept = view (evict_if_needed no_budget) in
    ((dropped : Queue ℕ) × (view no_budget ≡ dropped ++ kept))
    × Fits (no_budget.capacity) 0 kept
    × (0 ≤ length kept)
evict_if_needed_longest_example =
    evict_if_needed_longest no_budget (view no_budget) [] (one_flow-IsValid.sound)
      (one_flow-IsValid.positive) (omega arith) (sym (append-nil (view no_budget)))
      (omega arith, omega arith)

abbrev everything : FlowQuery
everything = record {
  after_seq = none;
  limit = none;
  search = none;
  methods = [];
  status_class = none;
  resource_types = [];
  host = none;
  app = none;
  only_modified = false;
}
