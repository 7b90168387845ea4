-- ===== src/Proxy/Tests.antt =====
-- The handlers on sample exchanges.
use hamsy_proxy.Shared.{
  ℕ, ◌≡◌, ◌⊎◌, refl, ap, arith, true, false, not, none, some, List, [], ◌∷◌, ◌||◌, map, filter,
}
use hamsy_proxy.Shared.Text.{Text, text, text_eq}
use hamsy_proxy.Shared.Int.{pos}
use hamsy_proxy.Flow.{FlowState, Flow}
use hamsy_proxy.BodyStream.{fresh}
use hamsy_proxy.Store.{new}
use hamsy_proxy.Rules.Headers.{header_lookup}
use hamsy_proxy.Proxy.Headers.{strip_hop_by_hop, header_value, has_id, union_matched}
use hamsy_proxy.Proxy.Target.{Target, apply_outcome_url_and_headers, port_of}
use hamsy_proxy.Proxy.Outbound.{http2, build_outbound_request, adapt_request_to_sender}
use hamsy_proxy.Proxy.Exchange.{Handled, attach_resolution}
use hamsy_proxy.Proxy.Request.{streamed, captured_flow, request_rules, request_record}
use hamsy_proxy.Proxy.Handle.{follow_outcome, handle_captured_request}
use hamsy_proxy.Proxy.Run.{World, Happening, changes, happen_all, BodyEnd, woven, all_changes}
use hamsy_proxy.Proxy.Stored.{apply_all}
use hamsy_proxy.Proxy.Settles.{exchange-settles}
use hamsy_proxy.Proxy.Hosts.{header_value-apply_outcome, has_id-union_matched}
use hamsy_proxy.Proxy.Authority.{adapt-no_host}
use hamsy_proxy.Proxy.Streams.{Turn, asks, works}
use hamsy_proxy.BodyStream.Throttle.{Tick}
use hamsy_proxy.Proxy.Samples.{plain_net, plain_codecs, sample_parts, sample_conn, sample_exchange}

abbrev sample_flow : Flow ℕ
sample_flow = captured_flow plain_net plain_codecs sample_exchange streamed

abbrev sample_handled : Handled plain_net ℕ
sample_handled =
    follow_outcome plain_net plain_codecs sample_exchange
      (request_rules plain_net plain_codecs sample_exchange none) streamed none
      (request_record plain_net plain_codecs sample_exchange streamed)

abbrev sample_end : BodyEnd
sample_end = record { capture = true; state = fresh; now = pos 2 }

abbrev sample_changes : List (Flow ℕ → Flow ℕ)
sample_changes = all_changes sample_handled 0 sample_end sample_end

abbrev sample_world : World ℕ
sample_world = record { flows = new 5; events = [] }

abbrev sample_late : List (Flow ℕ → Flow ℕ)
sample_late = attach_resolution (sample_conn.app_resolution)

abbrev sample_final : Flow ℕ
sample_final = apply_all (woven 1 sample_late sample_changes) sample_flow

abbrev happenings : List (Happening ℕ (sample_flow.summary.id))
happenings = map changes (woven 1 sample_late sample_changes)

exchange-settles_example :
    (sample_final.summary.state ≡ FlowState.complete)
    ⊎ (sample_final.summary.state ≡ FlowState.error)
unfolding handle_captured_request hamsy_proxy.Rules.Compile.Set.new
    hamsy_proxy.Rules.Request.rule_needs_request_body
    hamsy_proxy.Rules.RequestActions.run_request_rule all_changes
    hamsy_proxy.Rules.Headers.set_header happen_all new
    hamsy_proxy.Store.Payload.stored_payload_bytes
exchange-settles_example =
    exchange-settles plain_net plain_codecs sample_exchange sample_flow sample_late sample_handled
      refl 0 1 true sample_end sample_end happenings refl sample_world sample_final refl

abbrev first_target : Target plain_net
first_target = record { url = text "old"; host = text "old"; port = 80; headers = [] }

header_value-apply_outcome_example :
    header_value
      ((apply_outcome_url_and_headers plain_net (text "new") [] first_target).headers)
      (text "host")
    ≡ some (text "old")
unfolding header_value strip_hop_by_hop port_of
header_value-apply_outcome_example =
    header_value-apply_outcome plain_net (text "new") [] first_target

has_id-union_matched_example :
    has_id (text "b") (union_matched (text "a" ∷ []) (text "b" ∷ []))
    ≡ (has_id (text "b") (text "a" ∷ []) || has_id (text "b") (text "b" ∷ []))
has_id-union_matched_example = has_id-union_matched (text "b") (text "a" ∷ []) (text "b" ∷ [])

abbrev sample_turns : List Turn
sample_turns = asks true ∷ asks true ∷ works ∷ asks true ∷ []

abbrev sample_ticks : List (Tick ℕ)
sample_ticks = record { elapsed_secs = 0; sleep_over = false } ∷ []

kept_of_filter :
    (entries : List (Text × Text))
    → filter
        (λ e. text_eq (e.0) (text "host"))
        (filter (λ e. not (text_eq (e.0) (text "host"))) entries)
      ≡ []
kept_of_filter [] = refl
kept_of_filter (e ∷ entries) = ground (arith, kept_of_filter entries)

removes_host :
    (entries : List (Text × Text))
    → plain_net.get_all (text "host") (plain_net.remove (text "host") entries) ≡ []
removes_host entries = ap (map (λ e. e.1)) (kept_of_filter entries)

adapt-no_host_example :
    plain_net.get_all
      (text "host")
      ((adapt_request_to_sender plain_net http2 false (text "u") sample_parts).headers)
    ≡ []
unfolding build_outbound_request adapt_request_to_sender
adapt-no_host_example =
    adapt-no_host plain_net (text "POST") (text "u")
      (record { name = text "host"; value = text "h" } ∷ []) true (sample_parts.version)
      sample_parts http2 false removes_host refl refl
