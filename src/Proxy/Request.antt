-- ===== src/Proxy/Request.antt =====
-- crates/hamsy-proxy/src/http.rs, the request phase of `handle_captured_request`.
use hamsy_proxy.Shared.{
  Bool, true, false, Option, none, some, List, [], ◌∷◌, is_some, unwrap_or, length, if◌then◌else◌,
  Result, ok, err,
}
use hamsy_proxy.Shared.Text.{Text, text, text_eq}
use hamsy_proxy.Shared.Number.{to_decimal}
use hamsy_proxy.Flow.{
  FlowState, BodyPayload, no_body, HeaderPair, RequestRecord, ResponseRecord, Flow,
}
use hamsy_proxy.Flow.Lifecycle.{new_request, mark_complete}
use hamsy_proxy.BodyStream.{Source, collect_for_rules}
use hamsy_proxy.Body.{Codecs}
use hamsy_proxy.Body.Payload.{to_payload}
use hamsy_proxy.Rules.Externals.{Externals}
use hamsy_proxy.Rules.Request.{MockedResponse, RequestCtx, RequestOutcome, apply_request}
use hamsy_proxy.Proxy.Error.{ProxyError}
use hamsy_proxy.Proxy.Net.{Net}
use hamsy_proxy.Proxy.Headers.{header_value, set_header, remove_header, safe_status, version_text}
use hamsy_proxy.Proxy.Target.{
  Target, port_of, path_with_query, recorded_query, resource_type_for_request,
  apply_outcome_url_and_headers,
}
use hamsy_proxy.Proxy.Payload.{hard_buffer_cap, collect_error, decode_for_rules, capture_payload}
use hamsy_proxy.Proxy.Dispatch.{Content, full_body, passed, teed, captured}
use hamsy_proxy.Proxy.Exchange.{
  Exchange, Finalizer, Handled, bytes_body, error_response, build_client_response, reason_of,
  set_matched,
}

pub data ReqBody : Type 0 where
  buffered : Text → ReqBody
  streamed : ReqBody

-- The default `BodyPayload`.
abbrev pub default_payload : BodyPayload
default_payload = record {
  kind = no_body;
  payload = record { bytes = []; capacity = 0 };
  size = 0;
  truncated = false;
  encoding = none;
}

-- The derived equality of optional bytes.
unfoldable pub option_eq : Option Text → Option Text → Bool
unfolding text_eq
option_eq none none = true
option_eq none (some b) = false
option_eq (some a) none = false
option_eq (some a) (some b) = text_eq a b

unfoldable pub obtain_body : Bool → Source → Result ReqBody ProxyError
unfolding collect_for_rules collect_error
obtain_body false body = ok streamed
obtain_body true body = elim (collect_for_rules hard_buffer_cap body) [
  | err e ↦ err (collect_error e)
  | ok bytes ↦ ok (buffered bytes)
]

unfoldable pub body_for_rules : Codecs → Option Text → ReqBody → Result (Option Text) ProxyError
unfolding decode_for_rules
body_for_rules codecs encoding streamed = ok none
body_for_rules codecs encoding (buffered bytes) = elim (decode_for_rules codecs bytes encoding) [
  | err e ↦ err e
  | ok decoded ↦ ok (some decoded)
]

abbrev pub type_of : List HeaderPair → Option Text
type_of headers = header_value headers (text "content-type")

abbrev pub encoding_of : List HeaderPair → Option Text
encoding_of headers = header_value headers (text "content-encoding")

-- `original_request`
abbrev pub original_of : RequestOutcome → RequestRecord → Option RequestRecord
original_of outcome req_record = if outcome.modified then some req_record else none

-- The headers where a rule replaced the body.
abbrev with_new_body : Option Text → List HeaderPair → List HeaderPair
with_new_body none headers = headers
with_new_body (some b) headers =
    set_header (remove_header headers (text "content-encoding")) (text "Content-Length")
      (to_decimal (length b))

abbrev set_body : BodyPayload → Option RequestRecord → Option RequestRecord
set_body payload none = none
set_body payload (some r) = some (record r { body = payload })

module _ {ext : Externals} (net : Net ext) (codecs : Codecs) {F64 : Type 0} where
  open ext use {Url, as_str, host_str, scheme}

  unfoldable pub request_ctx : Exchange net F64 → Option Text → RequestCtx ext
  unfolding resource_type_for_request
  request_ctx x body = record {
    method = x.parts.method;
    url = x.url;
    headers = x.req_headers;
    body = body;
    resource_type = resource_type_for_request net (x.req_headers) (net.path (x.url));
  }

  abbrev recorded_body : Exchange net F64 → ReqBody → BodyPayload
  recorded_body x streamed = default_payload
  recorded_body x (buffered bytes) =
      to_payload codecs bytes (type_of (x.req_headers)) (encoding_of (x.req_headers))
        (x.max_body_bytes)

  unfoldable pub request_record : Exchange net F64 → ReqBody → RequestRecord
  unfolding version_text to_payload header_value recorded_query
  request_record x req_body = record {
    method = x.parts.method;
    url = as_str (x.url);
    http_version = version_text (x.parts.version);
    headers = x.req_headers;
    body = recorded_body x req_body;
    query = recorded_query net (x.url);
  }

  -- The flow that is inserted.
  unfoldable pub captured_flow : Exchange net F64 → ReqBody → Flow F64
  unfolding new_request request_record version_text port_of path_with_query
      resource_type_for_request
  captured_flow x req_body =
      let flow =
        new_request (x.zero_timings) (x.flow_id) (x.seq) (x.started_at) (x.parts.method)
          (scheme (x.url)) (unwrap_or (host_str (x.url)) []) (port_of net (x.url))
          (path_with_query net (x.url)) (as_str (x.url)) (version_text (x.parts.version))
          (x.conn.client_addr) (request_record x req_body) in
      record flow {
        summary = record (flow.summary) {
          state = FlowState.requesting;
          resource_type = resource_type_for_request net (x.req_headers) (net.path (x.url));
          app = x.conn.app;
        };
        tls = x.conn.tls;
      }

  -- The outcome of the request rules, without a body that is the one they were given.
  unfoldable pub request_rules : Exchange net F64 → Option Text → RequestOutcome
  unfolding apply_request request_ctx option_eq
  request_rules x body =
      let outcome = apply_request ext (x.rule_set) (request_ctx x body) in
      if option_eq (outcome.body) body then record outcome { body = none } else outcome

  unfoldable pub blocked_record : Exchange net F64 → Text → ResponseRecord
  unfolding to_payload version_text
  blocked_record x reason = record {
    status = 403;
    status_text = text "Forbidden";
    http_version = version_text (x.parts.version);
    headers = record { name = text "Content-Type"; value = text "application/json" } ∷ [];
    body =
        to_payload codecs (net.json_error (text "blocked") reason) (some (text "application/json"))
          none (x.max_body_bytes);
  }

  unfoldable pub respond_blocked :
      Exchange net F64 → RequestOutcome → RequestRecord → Text → Handled net F64
  unfolding blocked_record mark_complete error_response
  respond_blocked x outcome req_record reason = record {
    response = error_response net 403 reason;
    before = [];
    backfill = none;
    after =
        (λ f. set_matched (outcome.matched) true (
          mark_complete (blocked_record x reason) (x.finished_at)
            (record f { original_request = original_of outcome req_record })))
        ∷ [];
    finish = none;
  }

  unfoldable pub mocked_record : Exchange net F64 → MockedResponse → ResponseRecord
  unfolding to_payload header_value version_text reason_of safe_status
  mocked_record x mocked = record {
    status = mocked.status;
    status_text = unwrap_or (reason_of net (safe_status (mocked.status))) [];
    http_version = version_text (x.parts.version);
    headers = mocked.headers;
    body = to_payload codecs (mocked.body) (type_of (mocked.headers)) none (x.max_body_bytes);
  }

  abbrev from_cache : Flow F64 → Flow F64
  from_cache f = record f { summary = record (f.summary) { from_cache = true } }

  unfoldable pub respond_mocked :
      Exchange net F64 → RequestOutcome → RequestRecord → MockedResponse → Handled net F64
  unfolding mocked_record mark_complete build_client_response
  respond_mocked x outcome req_record mocked = record {
    response =
        build_client_response net (mocked.status) (mocked.headers) (bytes_body (mocked.body));
    before = [];
    backfill = none;
    after =
        (λ f. from_cache (
          set_matched (outcome.matched) true (
            mark_complete (mocked_record x mocked) (x.finished_at)
              (record f { original_request = original_of outcome req_record }))))
        ∷ [];
    finish = none;
  }

  abbrev first_target : Exchange net F64 → Target net
  first_target x = record {
    url = x.url;
    host = unwrap_or (host_str (x.url)) [];
    port = port_of net (x.url);
    headers = x.req_headers;
  }

  -- Where the request goes, and the headers that it is sent with.
  unfoldable pub final_target : Exchange net F64 → RequestOutcome → Target net
  unfolding apply_outcome_url_and_headers port_of set_header remove_header to_decimal
  final_target x outcome =
      let t = apply_outcome_url_and_headers net (outcome.url) (outcome.headers) (first_target x) in
      record t { headers = with_new_body (outcome.body) (t.headers) }

  -- `outbound_body_base`
  unfoldable pub base_content : Exchange net F64 → ReqBody → Content
  base_content x (buffered bytes) = full_body bytes
  base_content x streamed = teed (x.max_body_bytes) (passed (x.body))

  -- The body that a rule gave, or else the base.
  unfoldable pub chosen_content : Exchange net F64 → Option Text → ReqBody → Content
  unfolding base_content
  chosen_content x (some new_body) req_body = full_body new_body
  chosen_content x none req_body = base_content x req_body

  -- A streamed body that no rule replaced has the callback around it.
  unfoldable pub outbound_content : Exchange net F64 → Option Text → ReqBody → Content
  unfolding chosen_content
  outbound_content x none streamed = captured (chosen_content x none streamed)
  outbound_content x none (buffered bytes) = chosen_content x none (buffered bytes)
  outbound_content x (some new_body) req_body = chosen_content x (some new_body) req_body

  abbrev effective_body : Exchange net F64 → Option Text → BodyPayload → BodyPayload
  effective_body x none fallback_body = fallback_body
  effective_body x (some bytes) fallback_body =
      to_payload codecs bytes (type_of (x.req_headers)) none (x.max_body_bytes)

  unfoldable pub effective_request_record :
      Exchange net F64 → RequestOutcome → RequestRecord → RequestRecord
  unfolding final_target to_payload header_value version_text recorded_query
  effective_request_record x outcome req_record = record {
    method = outcome.method;
    url = as_str ((final_target x outcome).url);
    http_version = version_text (x.parts.version);
    headers = (final_target x outcome).headers;
    body = effective_body x (outcome.body) (req_record.body);
    query = recorded_query net ((final_target x outcome).url);
  }

  -- The change before the request is sent.
  unfoldable pub record_effective :
      Exchange net F64 → RequestOutcome → RequestRecord → List (Flow F64 → Flow F64)
  unfolding effective_request_record
  record_effective x outcome req_record =
      if outcome.modified
      then (λ f. record f { request = some (effective_request_record x outcome req_record) }) ∷ []
      else []

  -- The callback on a streamed request body that no rule replaced.
  unfoldable pub request_backfill :
      Exchange net F64 → RequestOutcome → ReqBody → Option (Finalizer net F64)
  unfolding capture_payload header_value
  request_backfill x outcome (buffered bytes) = none
  request_backfill x outcome streamed =
      if is_some (outcome.body)
      then none
      else some (λ capture state now f.
        let payload =
          capture_payload codecs state capture (type_of (x.req_headers))
            (encoding_of (x.req_headers)) (x.max_body_bytes) in
        record f {
          request = set_body payload (f.request);
          original_request =
              if outcome.modified
              then set_body payload (f.original_request)
              else f.original_request;
        })
