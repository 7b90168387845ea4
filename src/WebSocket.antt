-- ===== src/WebSocket.antt =====
-- crates/hamsy-proxy/src/websocket.rs: recording the messages of a socket, within a number and a budget
-- of bytes. The byte count is that of the messages, so that its subtractions never stop at 0.
pub mod Caps
pub mod Tests
use hamsy_proxy.Shared.{
  ℕ, zero, suc, ◌+◌, ◌-◌, ◌*◌, leb, ltb, Bool, true, false, Option, none, some, List, [], ◌∷◌, ◌++◌,
  ◌&&◌, length, take, drop, if◌then◌else◌,
}
use hamsy_proxy.Shared.Text.{Text, text}
use hamsy_proxy.Shared.Utf8.{from_utf8}
use hamsy_proxy.Shared.Int.{ℤ}
use hamsy_proxy.Flow.{FlowId, FlowSummary, Flow, WsDirection, WsMessage}
use hamsy_proxy.Body.{Codecs}
use hamsy_proxy.Body.Payload.{string, boundary_before}
use hamsy_proxy.Store.{Inner, update}
use hamsy_proxy.Proxy.Event.{ServerEvent, ws_message}
use hamsy_proxy.Proxy.Run.{World}

abbrev pub max_ws_messages_per_flow : ℕ
max_ws_messages_per_flow = 1000

abbrev pub max_ws_payload_bytes_per_flow : ℕ
max_ws_payload_bytes_per_flow = 16 * 1024 * 1024

-- `messages.iter().map(|m| m.data.capacity()).sum()`
abbrev pub payload_sum : List WsMessage → ℕ
payload_sum [] = 0
payload_sum (m ∷ ms) = m.payload.capacity + payload_sum ms

-- The two loops of `cap_ws_messages`, over the messages that are left and the bytes that they hold.
unfoldable pub drop_excess : ℕ → ℕ → List WsMessage → List WsMessage × ℕ
drop_excess zero bytes ms = (ms, bytes)
drop_excess (suc excess) bytes [] = ([], bytes)
drop_excess (suc excess) bytes (m ∷ ms) = drop_excess excess (bytes - m.payload.capacity) ms

unfoldable pub drop_heavy : ℕ → List WsMessage → List WsMessage
drop_heavy bytes [] = []
drop_heavy bytes (m ∷ ms) =
    let rest = drop_heavy (bytes - m.payload.capacity) ms in
    if ltb max_ws_payload_bytes_per_flow bytes then rest else m ∷ ms

unfoldable pub cap_ws_messages : List WsMessage → List WsMessage
unfolding drop_excess drop_heavy
cap_ws_messages messages =
    let left =
      drop_excess (length messages - max_ws_messages_per_flow) (payload_sum messages) messages in
    drop_heavy (left.1) (left.0)

unfoldable pub cap_bytes : Text → ℕ → Text
cap_bytes bytes max_bytes = if ltb max_bytes (length bytes) then take max_bytes bytes else bytes

-- A boundary of characters before the end; the string is UTF-8, so that these are the prefixes that
-- are UTF-8.
unfoldable pub cap_str : Text → ℕ → Text
unfolding boundary_before
cap_str s max_bytes = if leb (length s) max_bytes then s else take (boundary_before s max_bytes) s

-- `tungstenite::Message`
pub data Message : Type 0 where
  text_message binary_message ping_message pong_message close_message frame_message : Text → Message

-- The opcode, the payload and the size that are recorded; raw frames are not.
unfoldable pub recorded_parts : Codecs → Message → ℕ → Option (Text × Text × ℕ)
unfolding cap_str cap_bytes
recorded_parts codecs (text_message t) max_bytes = some (text "text", cap_str t max_bytes, length t)
recorded_parts codecs (binary_message b) max_bytes =
    some (text "binary", codecs.base64_encode (cap_bytes b max_bytes), length b)
recorded_parts codecs (ping_message b) max_bytes = some (text "ping", [], 0)
recorded_parts codecs (pong_message b) max_bytes = some (text "pong", [], 0)
recorded_parts codecs (close_message b) max_bytes = some (text "close", [], 0)
recorded_parts codecs (frame_message b) max_bytes = none

module _ {F64 : Type 0} where
  -- The change of the flow.
  unfoldable pub push_message : WsMessage → Flow F64 → Flow F64
  unfolding cap_ws_messages
  push_message m flow = record flow { ws_messages = cap_ws_messages (flow.ws_messages ++ m ∷ []) }

  abbrev sent_for : FlowId → WsMessage → Option FlowSummary → List (ServerEvent F64)
  sent_for flow_id m none = []
  sent_for flow_id m (some summary) = ws_message flow_id m ∷ []

  unfoldable pub record_message :
      Codecs → FlowId → WsDirection → Message → ℕ → ℤ → World F64 → World F64
  unfolding recorded_parts push_message update
  record_message codecs flow_id direction msg max_bytes now w =
      elim (recorded_parts codecs msg max_bytes) [
        | none ↦ w
        | some (opcode, payload, size) ↦
            let m : WsMessage = record {
              direction = direction;
              opcode = opcode;
              timestamp = now;
              payload = string codecs payload;
              size = size;
            } in
            let updated = update flow_id (push_message m) (w.flows) in
            record { flows = updated.0; events = w.events ++ sent_for flow_id m (updated.1) }
      ]
