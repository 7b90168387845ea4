-- ===== src/Proxy/Handle.antt =====
-- crates/hamsy-proxy/src/http.rs: `handle_captured_request`, the composition of its phases.
use hamsy_proxy.Shared.{Option, none, some, ◌∷◌, is_some, unwrap_or, Result, ok, err}
use hamsy_proxy.Shared.Text.{Text}
use hamsy_proxy.Flow.{FlowState, RequestRecord, Timings, Flow}
use hamsy_proxy.Body.{Codecs}
use hamsy_proxy.Rules.Externals.{Externals}
use hamsy_proxy.Rules.Request.{RequestOutcome, needs_request_body}
use hamsy_proxy.Proxy.Error.{ProxyError, to_string}
use hamsy_proxy.Proxy.Net.{Net}
use hamsy_proxy.Proxy.Outbound.{build_outbound_request}
use hamsy_proxy.Proxy.Dispatch.{Answer, dispatch}
use hamsy_proxy.Proxy.Exchange.{
  Exchange, Handled, Handling, unrecorded, recorded, error_response, attach_resolution,
}
use hamsy_proxy.Proxy.Request.{
  ReqBody, obtain_body, body_for_rules, encoding_of, original_of, request_ctx, request_record,
  captured_flow, request_rules, respond_blocked, respond_mocked, final_target, outbound_content,
  record_effective, request_backfill,
}
use hamsy_proxy.Proxy.Response.{Sent, Responded, fail_response, respond}

module _ {ext : Externals} (net : Net ext) (codecs : Codecs) {F64 : Type 0} where
  open ext use {Url, host_str, scheme}

  -- `f.summary.state = Responding; f.server_addr = ...; f.timings = ...`
  unfoldable pub start_responding : Timings F64 → Option Text → Flow F64 → Flow F64
  start_responding timings server_addr f = record f {
    summary = record (f.summary) { state = FlowState.responding };
    server_addr = server_addr;
    timings = timings;
  }

  unfoldable pub after_dispatch :
      Exchange net F64
      → Sent net
      → Result (Answer net F64 × Timings F64 × Option Text) ProxyError
      → Responded net F64
  unfolding fail_response respond start_responding
  after_dispatch x sent (err e) = fail_response net codecs x sent e
  after_dispatch x sent (ok (answer, timings, server_addr)) =
      let responded = respond net codecs x sent answer in
      record responded { changes = start_responding timings server_addr ∷ responded.changes }

  unfoldable pub sent_upstream : Exchange net F64 → Sent net → ReqBody → Responded net F64
  unfolding build_outbound_request dispatch after_dispatch outbound_content fail_response
  sent_upstream x sent req_body =
      let outcome = sent.outcome in
      let target = sent.target in
      elim (build_outbound_request net
        (unwrap_or (net.parse_method (outcome.method)) (x.parts.method)) (target.url)
        (target.headers) (is_some (x.upstream_proxy)) (x.parts.version)) [
          | err e ↦ fail_response net codecs x sent e
          | ok outbound ↦ after_dispatch x sent (
              dispatch net F64 (x.upstream) (target.url) (x.conn.mirror_h2) (x.upstream_proxy)
                outbound
                (record {
                  content = outbound_content net codecs x (outcome.body) req_body;
                  throttle = outcome.throttle_bps;
                }))
        ]

  -- The request goes on.
  unfoldable pub forward_request :
      Exchange net F64 → RequestOutcome → ReqBody → Option Text → RequestRecord → Handled net F64
  unfolding final_target sent_upstream record_effective request_backfill
  forward_request x outcome req_body rules_body req_record =
      let sent : Sent net = record {
        outcome = outcome;
        original_request = original_of outcome req_record;
        target = final_target net codecs x outcome;
        body_for_rules = rules_body;
      } in
      let responded = sent_upstream x sent req_body in
      record {
        response = responded.response;
        before = record_effective net codecs x outcome req_record;
        backfill = request_backfill net codecs x outcome req_body;
        after = responded.changes;
        finish = responded.finish;
      }

  unfoldable pub follow_outcome :
      Exchange net F64 → RequestOutcome → ReqBody → Option Text → RequestRecord → Handled net F64
  unfolding respond_blocked respond_mocked forward_request
  follow_outcome x outcome req_body rules_body req_record = elim (outcome.blocked) [
    | some reason ↦ respond_blocked net codecs x outcome req_record reason
    | none ↦ elim (outcome.mocked) [
      | some mocked ↦ respond_mocked net codecs x outcome req_record mocked
      | none ↦ forward_request x outcome req_body rules_body req_record
    ]
  ]

  unfoldable pub handle_captured_request : Exchange net F64 → Handling net F64
  unfolding needs_request_body request_ctx obtain_body body_for_rules error_response captured_flow
      request_rules request_record follow_outcome to_string attach_resolution
  handle_captured_request x =
      elim (obtain_body (needs_request_body ext (x.rule_set) (request_ctx net codecs x none))
        (x.body)) [
          | err e ↦ unrecorded (error_response net 413 (to_string e))
          | ok req_body ↦ elim (body_for_rules codecs (encoding_of (x.req_headers)) req_body) [
            | err e ↦ unrecorded (error_response net 502 (to_string e))
            | ok rules_body ↦
                recorded (captured_flow net codecs x req_body)
                  (attach_resolution (x.conn.app_resolution))
                  (follow_outcome x (request_rules net codecs x rules_body) req_body rules_body
                    (request_record net codecs x req_body))
          ]
        ]
