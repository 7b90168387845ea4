-- ===== src/Proxy/Response.antt =====
-- crates/hamsy-proxy/src/http.rs, the response phase of `handle_captured_request`.
use hamsy_proxy.Shared.{
  true, false, Option, none, some, List, [], ◌∷◌, ◌||◌, unwrap_or, length, if◌then◌else◌, ok, err,
}
use hamsy_proxy.Shared.Text.{Text, text}
use hamsy_proxy.Shared.Number.{to_decimal}
use hamsy_proxy.Flow.{HeaderPair, RequestRecord, ResponseRecord, Flow}
use hamsy_proxy.Flow.Lifecycle.{mark_complete}
use hamsy_proxy.BodyStream.{collect_for_rules}
use hamsy_proxy.Body.{Codecs}
use hamsy_proxy.Body.Payload.{to_payload}
use hamsy_proxy.Rules.Externals.{Externals}
use hamsy_proxy.Rules.Request.{RequestOutcome}
use hamsy_proxy.Rules.Response.{ResponseCtx, ResponseOutcome, apply_response, needs_response_body}
use hamsy_proxy.Proxy.Error.{ProxyError}
use hamsy_proxy.Proxy.Net.{Net}
use hamsy_proxy.Proxy.Headers.{
  strip_hop_by_hop, header_value, set_header, remove_header, union_matched, version_text,
  header_pairs_from,
}
use hamsy_proxy.Proxy.Target.{Target, resource_type_for_request}
use hamsy_proxy.Proxy.Payload.{hard_buffer_cap, collect_error, decode_for_rules, capture_payload}
use hamsy_proxy.Proxy.Dispatch.{full_body, passed, teed, captured, Answer}
use hamsy_proxy.Proxy.Exchange.{
  Exchange, Response, Finalizer, build_client_response, reason_of, set_matched, finalize_error,
}
use hamsy_proxy.Proxy.Request.{option_eq, type_of, encoding_of}

-- What the request phase leaves for the response phase.
pub record Sent {ext : Externals} (net : Net ext) : Type 0 where
  pub outcome : RequestOutcome
  pub original_request : Option RequestRecord
  pub target : Target net
  pub body_for_rules : Option Text

-- The change of a response phase, its response, and the callback on the response body.
pub record Responded {ext : Externals} (net : Net ext) (F64 : Type 0) : Type 0 where
  pub changes : List (Flow F64 → Flow F64)
  pub finish : Option (Finalizer net F64)
  pub response : Response net F64

abbrev without_content_length : List HeaderPair → List HeaderPair
without_content_length headers = remove_header headers (text "content-length")

-- The headers where a response rule replaced the body.
abbrev with_new_response_body : Option Text → List HeaderPair → List HeaderPair
with_new_response_body none headers = headers
with_new_response_body (some b) headers =
    set_header (remove_header headers (text "content-encoding")) (text "Content-Length")
      (to_decimal (length b))

unfoldable pub final_headers : ResponseOutcome → List HeaderPair
unfolding strip_hop_by_hop set_header remove_header to_decimal
final_headers outcome = strip_hop_by_hop (with_new_response_body (outcome.body) (outcome.headers))

module _ {ext : Externals} (net : Net ext) (codecs : Codecs) {F64 : Type 0} where
  unfoldable pub response_ctx :
      Exchange net F64 → Sent net → Answer net F64 → Option Text → ResponseCtx ext
  unfolding resource_type_for_request header_pairs_from
  response_ctx x sent answer resp_body = record {
    method = x.parts.method;
    url = sent.target.url;
    headers = sent.target.headers;
    body = sent.body_for_rules;
    resource_type = resource_type_for_request net (x.req_headers) (net.path (x.url));
    status = answer.status;
    resp_headers = header_pairs_from net (answer.headers);
    resp_body = resp_body;
  }

  -- The change of a `finalize_error`.
  unfoldable pub fail_response : Exchange net F64 → Sent net → ProxyError → Responded net F64
  unfolding finalize_error
  fail_response x sent e =
      let (change, response) =
        finalize_error net (sent.original_request) (sent.outcome.matched) (sent.outcome.modified) e
          (x.finished_at) in
      record { changes = change ∷ []; finish = none; response = response }

  -- The outcome of the response rules on a body, without a body that is the one they were given.
  unfoldable pub response_rules :
      Exchange net F64 → Sent net → Answer net F64 → Text → ResponseOutcome
  unfolding apply_response response_ctx option_eq
  response_rules x sent answer decoded =
      let outcome = apply_response ext (x.rule_set) (response_ctx x sent answer (some decoded)) in
      if option_eq (outcome.body) (some decoded) then record outcome { body = none } else outcome

  abbrev resp_headers : Answer net F64 → List HeaderPair
  resp_headers answer = header_pairs_from net (answer.headers)

  abbrev status_text : Answer net F64 → Text
  status_text answer = unwrap_or (net.canonical_reason (answer.status)) []

  -- The response as it came.
  unfoldable pub received_record : Exchange net F64 → Answer net F64 → Text → ResponseRecord
  unfolding to_payload header_value header_pairs_from version_text
  received_record x answer decoded = record {
    status = answer.status;
    status_text = status_text answer;
    http_version = version_text (answer.version);
    headers = resp_headers answer;
    body =
        record (to_payload codecs decoded (type_of (resp_headers answer)) none (x.max_body_bytes)) {
          encoding = encoding_of (resp_headers answer);
        };
  }

  -- The response as it goes on.
  unfoldable pub final_record :
      Exchange net F64 → Answer net F64 → ResponseOutcome → Text → ResponseRecord
  unfolding to_payload header_value version_text reason_of final_headers
  final_record x answer outcome bytes = record {
    status = outcome.status;
    status_text = unwrap_or (reason_of net (outcome.status)) (status_text answer);
    http_version = version_text (answer.version);
    headers = final_headers outcome;
    body =
        to_payload codecs bytes (type_of (final_headers outcome))
          (encoding_of (final_headers outcome)) (x.max_body_bytes);
  }

  -- The change at the end of a buffered response.
  unfoldable pub complete_buffered :
      Exchange net F64
      → Sent net
      → ResponseOutcome
      → Option ResponseRecord
      → ResponseRecord
      → Flow F64
      → Flow F64
  unfolding mark_complete union_matched
  complete_buffered x sent outcome original_response response f =
      set_matched (union_matched (sent.outcome.matched) (outcome.matched))
        (sent.outcome.modified || outcome.modified)
        (mark_complete response (x.finished_at) (record f {
          original_request = sent.original_request;
          original_response = original_response;
        }))

  -- The buffered response, once the rules have run: its bytes on the wire and its decoded content.
  unfoldable pub respond_buffered :
      Exchange net F64 → Sent net → Answer net F64 → Text → Text → Responded net F64
  unfolding response_rules received_record final_record final_headers complete_buffered
      build_client_response
  respond_buffered x sent answer bytes decoded =
      let outcome = response_rules x sent answer decoded in
      let final_bytes = unwrap_or (outcome.body) bytes in
      record {
        changes =
            complete_buffered x sent outcome
              (if outcome.modified then some (received_record x answer decoded) else none)
              (final_record x answer outcome final_bytes)
            ∷ [];
        finish = none;
        response =
            build_client_response net (outcome.status) (final_headers outcome)
              (record { content = full_body final_bytes; throttle = outcome.throttle_bps });
      }

  -- The callback on a streamed response body.
  unfoldable pub response_finish :
      Exchange net F64 → Sent net → Answer net F64 → ResponseOutcome → Finalizer net F64
  unfolding capture_payload header_value header_pairs_from version_text reason_of mark_complete
      union_matched strip_hop_by_hop remove_header
  response_finish x sent answer outcome capture state now f =
      let response : ResponseRecord = record {
        status = outcome.status;
        status_text = unwrap_or (reason_of net (outcome.status)) (status_text answer);
        http_version = version_text (answer.version);
        headers = without_content_length (strip_hop_by_hop (outcome.headers));
        body =
            capture_payload codecs state capture (type_of (resp_headers answer))
              (encoding_of (resp_headers answer)) (x.max_body_bytes);
      } in
      let modified = sent.outcome.modified || outcome.modified in
      set_matched (union_matched (sent.outcome.matched) (outcome.matched)) modified (
        mark_complete response now (record f {
          original_request = sent.original_request;
          original_response = if modified then f.response else f.original_response;
        }))

  unfoldable pub respond_streamed : Exchange net F64 → Sent net → Answer net F64 → Responded net F64
  unfolding apply_response response_ctx response_finish build_client_response strip_hop_by_hop
      remove_header
  respond_streamed x sent answer =
      let outcome = apply_response ext (x.rule_set) (response_ctx x sent answer none) in
      record {
        changes = [];
        finish = some (response_finish x sent answer outcome);
        response =
            build_client_response net (outcome.status)
              (without_content_length (strip_hop_by_hop (outcome.headers)))
              (record {
                content = captured (teed (x.max_body_bytes) (passed (answer.body)));
                throttle = outcome.throttle_bps;
              });
      }

  unfoldable pub respond : Exchange net F64 → Sent net → Answer net F64 → Responded net F64
  unfolding needs_response_body response_ctx collect_for_rules collect_error decode_for_rules
      fail_response respond_buffered respond_streamed header_value header_pairs_from
  respond x sent answer =
      elim (needs_response_body ext (x.rule_set) (response_ctx x sent answer none)) [
        | false ↦ respond_streamed x sent answer
        | true ↦ elim (collect_for_rules hard_buffer_cap (answer.body)) [
          | err e ↦ fail_response x sent (collect_error e)
          | ok bytes ↦ elim (decode_for_rules codecs bytes (encoding_of (resp_headers answer))) [
            | err e ↦ fail_response x sent e
            | ok decoded ↦ respond_buffered x sent answer bytes decoded
          ]
        ]
      ]
