-- ===== src/Store/Payload.antt =====
-- crates/hamsy-core/src/store.rs, `stored_payload_bytes`: the allocations of the bodies and messages
-- of a flow.
use hamsy_proxy.Shared.{ℕ, ◌+◌, Option, none, some, List, [], ◌∷◌}
use hamsy_proxy.Flow.{RequestRecord, ResponseRecord, WsMessage, Flow}

request_bytes : Option RequestRecord → ℕ
request_bytes none = 0
request_bytes (some r) = r.body.payload.capacity

response_bytes : Option ResponseRecord → ℕ
response_bytes none = 0
response_bytes (some r) = r.body.payload.capacity

message_bytes : List WsMessage → ℕ
message_bytes [] = 0
message_bytes (m ∷ ms) = m.payload.capacity + message_bytes ms

unfoldable pub stored_payload_bytes : {F64 : Type 0} → Flow F64 → ℕ
unfolding request_bytes response_bytes message_bytes
stored_payload_bytes flow =
    request_bytes (flow.request)
    + request_bytes (flow.original_request)
    + response_bytes (flow.response)
    + response_bytes (flow.original_response)
    + message_bytes (flow.ws_messages)
