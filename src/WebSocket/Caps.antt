-- ===== src/WebSocket/Caps.antt =====
-- What is left of the messages of a socket.
use hamsy_proxy.Shared.{
  ℕ, zero, suc, ◌+◌, ◌-◌, ◌≤◌, ◌≡◌, refl, ap, sym, ◌∙◌, ltb, Bool, true, false, List, [], ◌∷◌, ◌++◌,
  length, arith, if◌then◌else◌,
}
use mathlib.Core.List.{append_assoc}
use hamsy_proxy.Flow.{WsMessage}
use hamsy_proxy.WebSocket.{
  max_ws_messages_per_flow, max_ws_payload_bytes_per_flow, payload_sum, drop_excess, drop_heavy,
  cap_ws_messages,
}

-- The messages are an end of those there were.
abbrev pub IsEnd : List WsMessage → List WsMessage → Type 0
IsEnd left messages = (dropped : List WsMessage) × (dropped ++ left ≡ messages)

cons-IsEnd :
    (m : WsMessage) (left messages : List WsMessage)
    → IsEnd left messages
    → IsEnd left (m ∷ messages)
cons-IsEnd m left messages (dropped, e) = (m ∷ dropped, ap (λ l. m ∷ l) e)

drop_excess-left :
    (excess : ℕ) (ms : List WsMessage) (bytes : ℕ)
    → bytes ≡ payload_sum ms
    → IsEnd ((drop_excess excess bytes ms).0) ms
      × ((drop_excess excess bytes ms).1 ≡ payload_sum ((drop_excess excess bytes ms).0))
      × (length ((drop_excess excess bytes ms).0) ≡ length ms - excess)
unfolding drop_excess
drop_excess-left zero ms bytes e = (([], refl), e, omega arith)
drop_excess-left (suc excess) [] bytes e = (([], refl), e, omega arith)
drop_excess-left (suc excess) (m ∷ ms) bytes e =
    let (end, sum, len) = drop_excess-left excess ms (bytes - m.payload.capacity) (omega arith) in
    (
      cons-IsEnd m ((drop_excess excess (bytes - m.payload.capacity) ms).0) ms end,
      sum,
      omega (arith, len),
    )

abbrev tail_of : List WsMessage → List WsMessage
tail_of [] = []
tail_of (m ∷ ms) = ms

length-append : (a b : List WsMessage) → length (a ++ b) ≡ length a + length b
length-append [] b = omega arith
length-append (m ∷ a) b = omega (arith, length-append a b)

-- Of two ends of the messages, the shorter one is an end of the longer one.
shorter-IsEnd :
    (dropped d left end ms : List WsMessage)
    → dropped ++ left ≡ ms
    → d ++ end ≡ ms
    → length end ≤ length left
    → IsEnd end left
shorter-IsEnd [] d left end ms e f h = (d, f ∙ sym e)
shorter-IsEnd (m ∷ dropped) [] left end ms e f h =
    absurd (omega (arith, h, ap length (e ∙ sym f), length-append dropped left))
shorter-IsEnd (m ∷ dropped) (n ∷ d) left end ms e f h =
    shorter-IsEnd dropped d left end (tail_of ms) (ap tail_of e) (ap tail_of f) h

-- Every end within the budget is no longer than what is left.
abbrev LongestIn : List WsMessage → List WsMessage → Type 0
LongestIn left ms =
    (end : List WsMessage)
    → IsEnd end ms
    → payload_sum end ≤ max_ws_payload_bytes_per_flow
    → length end ≤ length left

-- An end of the messages within the budget that is as long as can be.
abbrev WithinBudget : List WsMessage → List WsMessage → Type 0
WithinBudget left ms =
    IsEnd left ms
    × (payload_sum left ≤ max_ws_payload_bytes_per_flow)
    × (length left ≤ length ms)
    × LongestIn left ms

length-IsEnd : (end ms : List WsMessage) → IsEnd end ms → length end ≤ length ms
length-IsEnd end ms (dropped, e) = omega (arith, ap length e, length-append dropped end)

longest_cons :
    (m : WsMessage) (left ms : List WsMessage)
    → ltb max_ws_payload_bytes_per_flow (payload_sum (m ∷ ms)) ≡ true
    → LongestIn left ms
    → LongestIn left (m ∷ ms)
longest_cons m left ms heavy longest end ([], e) h =
    absurd (ground (arith, heavy, h, ap payload_sum e))
longest_cons m left ms heavy longest end (n ∷ dropped, e) h = longest end (dropped, ap tail_of e) h

drop_or_keep :
    (heavy : Bool) (m : WsMessage) (left ms : List WsMessage)
    → ltb max_ws_payload_bytes_per_flow (payload_sum (m ∷ ms)) ≡ heavy
    → WithinBudget left ms
    → WithinBudget (if heavy then left else m ∷ ms) (m ∷ ms)
drop_or_keep true m left ms d (end, sum, len, longest) =
    (cons-IsEnd m left ms end, sum, omega arith, longest_cons m left ms d longest)
drop_or_keep false m left ms d within =
    (([], refl), ground arith, omega arith, λ end e h. length-IsEnd end (m ∷ ms) e)

drop_heavy-left :
    (ms : List WsMessage) (bytes : ℕ)
    → bytes ≡ payload_sum ms
    → WithinBudget (drop_heavy bytes ms) ms
unfolding drop_heavy
drop_heavy-left [] bytes e =
    (([], refl), omega arith, omega arith, λ end f h. length-IsEnd end [] f)
drop_heavy-left (m ∷ ms) bytes e = rw e (
    drop_or_keep (ltb max_ws_payload_bytes_per_flow (payload_sum (m ∷ ms))) m
      (drop_heavy (payload_sum (m ∷ ms) - m.payload.capacity) ms) ms refl
      (drop_heavy-left ms (payload_sum (m ∷ ms) - m.payload.capacity) (omega arith)))

-- The messages of a flow that are kept are the most recent ones: an end of the messages, at most 1000
-- of them, whose payloads take 16 MiB at most, and no longer end is within both limits.
pub cap_ws_messages_longest :
    (messages : List WsMessage)
    → IsEnd (cap_ws_messages messages) messages
      × (length (cap_ws_messages messages) ≤ max_ws_messages_per_flow)
      × (payload_sum (cap_ws_messages messages) ≤ max_ws_payload_bytes_per_flow)
      × ((end : List WsMessage)
          → IsEnd end messages
          → length end ≤ max_ws_messages_per_flow
          → payload_sum end ≤ max_ws_payload_bytes_per_flow
          → length end ≤ length (cap_ws_messages messages))
unfolding cap_ws_messages
cap_ws_messages_longest messages =
    let excess = length messages - max_ws_messages_per_flow in
    let left = drop_excess excess (payload_sum messages) messages in
    let (dropped, sum, len) = drop_excess-left excess messages (payload_sum messages) refl in
    let (heavy, budget, shorter, longest) = drop_heavy-left (left.0) (left.1) sum in
    (
      (
        dropped.0 ++ heavy.0,
        append_assoc (dropped.0) (heavy.0) (drop_heavy (left.1) (left.0))
            ∙ ap (λ l. dropped.0 ++ l) (heavy.1)
            ∙ dropped.1,
      ),
      omega arith,
      budget,
      λ end e few small.
          longest end
            (shorter-IsEnd (dropped.0) (e.0) (left.0) end messages (dropped.1) (e.1)
              (omega (arith, few, len, length-IsEnd end messages e)))
            small,
    )
