-- ===== src/WebSocket/Tests.antt =====
-- The messages of a socket, one of them too heavy.
use hamsy_proxy.Shared.{ℕ, ◌≤◌, ◌≡◌, refl, List, [], ◌∷◌, length}
use hamsy_proxy.Shared.Text.{text}
use hamsy_proxy.Shared.Int.{pos}
use hamsy_proxy.Flow.{WsMessage, send}
use hamsy_proxy.WebSocket.{
  max_ws_messages_per_flow, max_ws_payload_bytes_per_flow, payload_sum, cap_ws_messages, cap_str,
}
use hamsy_proxy.WebSocket.Caps.{IsEnd, cap_ws_messages_longest}

abbrev message : ℕ → WsMessage
message n = record {
  direction = send;
  opcode = text "text";
  timestamp = pos 0;
  payload = record { bytes = text "m"; capacity = n };
  size = 1;
}

abbrev messages : List WsMessage
messages = message 17000000 ∷ message 5 ∷ message 7 ∷ []

messages_capped : cap_ws_messages messages ≡ message 5 ∷ message 7 ∷ []
unfolding cap_ws_messages
messages_capped = refl

cap_ws_messages_longest_example :
    IsEnd (cap_ws_messages messages) messages
    × (length (cap_ws_messages messages) ≤ max_ws_messages_per_flow)
    × (payload_sum (cap_ws_messages messages) ≤ max_ws_payload_bytes_per_flow)
    × ((end : List WsMessage)
        → IsEnd end messages
        → length end ≤ max_ws_messages_per_flow
        → payload_sum end ≤ max_ws_payload_bytes_per_flow
        → length end ≤ length (cap_ws_messages messages))
cap_ws_messages_longest_example = cap_ws_messages_longest messages

-- The second character takes two bytes.
text_cut : cap_str (97 ∷ 0xc3 ∷ 0xa9 ∷ 98 ∷ []) 2 ≡ text "a"
unfolding cap_str
text_cut = refl
