-- ===== src/Proxy/Settles.antt =====
-- Every exchange that is recorded leaves its flow complete or failed.
use hamsy_proxy.Shared.{
  ℕ, ◌≡◌, ◌⊎◌, inl, inr, refl, sym, Bool, true, false, Option, none, some, List, [], ◌++◌, Result,
  ok, err, is_some, unwrap_or, if◌then◌else◌,
}
use hamsy_proxy.Shared.Text.{Text}
use hamsy_proxy.Flow.{FlowState, RequestRecord, Timings, Flow}
use hamsy_proxy.Flow.Lifecycle.{mark_complete, mark_error}
use hamsy_proxy.Body.{Codecs}
use hamsy_proxy.Rules.Externals.{Externals}
use hamsy_proxy.Rules.Request.{MockedResponse, RequestOutcome, needs_request_body}
use hamsy_proxy.Proxy.Error.{ProxyError}
use hamsy_proxy.Proxy.Net.{Net}
use hamsy_proxy.Proxy.Target.{AppResolution}
use hamsy_proxy.BodyStream.{collect_for_rules}
use hamsy_proxy.Rules.Response.{needs_response_body}
use hamsy_proxy.Proxy.Headers.{header_pairs_from}
use hamsy_proxy.Proxy.Payload.{hard_buffer_cap, collect_error, decode_for_rules}
use hamsy_proxy.Proxy.Outbound.{build_outbound_request}
use hamsy_proxy.Proxy.Dispatch.{Answer, dispatch}
use hamsy_proxy.Proxy.Exchange.{
  Exchange, Finalizer, Handled, Handling, unrecorded, recorded, attach_resolution, fail_flow,
  finalize_error,
}
use hamsy_proxy.Proxy.Request.{
  ReqBody, obtain_body, body_for_rules, request_ctx, request_rules, request_record, original_of,
  final_target, encoding_of, outbound_content, buffered, streamed, request_backfill,
  respond_blocked, respond_mocked,
}
use hamsy_proxy.Proxy.Response.{
  Sent, Responded, response_ctx, fail_response, respond_buffered, complete_buffered,
  response_finish, respond_streamed, respond,
}
use hamsy_proxy.Proxy.Handle.{
  after_dispatch, sent_upstream, forward_request, follow_outcome, handle_captured_request,
}
use hamsy_proxy.Proxy.Run.{
  World, insert_and_send, Happening, happen_all, own_changes, BodyEnd, called, woven, all_changes,
}
use hamsy_proxy.Proxy.Stored.{happen_all-own}
use hamsy_proxy.Proxy.Endings.{
  of_Bool, of_Result, IsSettled, AllKeep, EndSettled, apply_all-IsSettled, append-EndSettled,
  woven-EndSettled,
}
use mathlib.Core.Path.{subst}

-- The task that waits for the application keeps a flow settled.
attach_resolution-AllKeep :
    (F64 : Type 0) (resolution : Option AppResolution)
    → AllKeep (attach_resolution {F64 = F64} resolution)
unfolding attach_resolution
attach_resolution-AllKeep F64 none = tt
attach_resolution-AllKeep F64 (some none) = tt
attach_resolution-AllKeep F64 (some (some none)) = tt
attach_resolution-AllKeep F64 (some (some (some app))) = ((λ flow h. h), tt)

module _ {ext : Externals} (net : Net ext) (codecs : Codecs) {F64 : Type 0} where
  abbrev RespondedSettles : Responded net F64 → Type 0
  RespondedSettles r = (e : BodyEnd) → EndSettled (r.changes ++ called (r.finish) e)

  fail_response-settles :
      (x : Exchange net F64) (sent : Sent net) (e : ProxyError)
      → RespondedSettles (fail_response net codecs x sent e)
  unfolding fail_response finalize_error fail_flow mark_error
  fail_response-settles x sent e end = inr (λ flow. inr refl, tt)

  respond-settles :
      (x : Exchange net F64) (sent : Sent net) (answer : Answer net F64)
      → RespondedSettles (respond net codecs x sent answer)
  unfolding respond respond_buffered complete_buffered respond_streamed response_finish
      mark_complete
  respond-settles x sent answer =
      of_Bool RespondedSettles
        (needs_response_body ext (x.rule_set) (response_ctx net codecs x sent answer none)) _ _
        (of_Result RespondedSettles (collect_for_rules hard_buffer_cap (answer.body)) _ _
          (λ bytes.
            of_Result RespondedSettles
              (decode_for_rules codecs bytes (encoding_of (header_pairs_from net (answer.headers))))
              _ _ (λ decoded end. inr (λ flow. inl refl, tt)) (λ e. fail_response-settles x sent e))
          (λ e. fail_response-settles x sent (collect_error e)))
        (λ end. inr (λ flow. inl refl, tt))

  after_dispatch-settles :
      (x : Exchange net F64) (sent : Sent net)
      (r : Result (Answer net F64 × Timings F64 × Option Text) ProxyError)
      → RespondedSettles (after_dispatch net codecs x sent r)
  unfolding after_dispatch
  after_dispatch-settles x sent (err e) = fail_response-settles x sent e
  after_dispatch-settles x sent (ok (answer, timings, server_addr)) =
      λ end. inl (respond-settles x sent answer end)

  sent_upstream-settles :
      (x : Exchange net F64) (sent : Sent net) (req_body : ReqBody)
      → RespondedSettles (sent_upstream net codecs x sent req_body)
  unfolding sent_upstream
  sent_upstream-settles x sent req_body =
      of_Result RespondedSettles
        (build_outbound_request net
          (unwrap_or (net.parse_method (sent.outcome.method)) (x.parts.method)) (sent.target.url)
          (sent.target.headers) (is_some (x.upstream_proxy)) (x.parts.version))
        _ _
        (λ outbound. after_dispatch-settles x sent (
          dispatch net F64 (x.upstream) (sent.target.url) (x.conn.mirror_h2) (x.upstream_proxy)
            outbound
            (record {
              content = outbound_content net codecs x (sent.outcome.body) req_body;
              throttle = sent.outcome.throttle_bps;
            })))
        (λ e. fail_response-settles x sent e)

  abbrev HandledSettles : Handled net F64 → Type 0
  HandledSettles h =
      (e : BodyEnd) → EndSettled (h.after ++ called (h.finish) e) × AllKeep (called (h.backfill) e)

  unless-AllKeep :
      (b : Bool) (finalize : Finalizer net F64) (e : BodyEnd)
      → ((flow : Flow F64)
          → IsSettled flow
          → IsSettled (finalize (e.capture) (e.state) (e.now) flow))
      → AllKeep (called (if b then none else some finalize) e)
  unless-AllKeep true finalize e h = tt
  unless-AllKeep false finalize e h = (h, tt)

  request_backfill-AllKeep :
      (x : Exchange net F64) (outcome : RequestOutcome) (req_body : ReqBody) (e : BodyEnd)
      → AllKeep (called (request_backfill net codecs x outcome req_body) e)
  unfolding request_backfill
  request_backfill-AllKeep x outcome (buffered bytes) e = tt
  request_backfill-AllKeep x outcome streamed e =
      unless-AllKeep (is_some (outcome.body)) _ e (λ flow h. h)

  forward_request-settles :
      (x : Exchange net F64) (outcome : RequestOutcome) (req_body : ReqBody) (b : Option Text)
      (r : RequestRecord)
      → HandledSettles (forward_request net codecs x outcome req_body b r)
  unfolding forward_request
  forward_request-settles x outcome req_body b r e = (
    sent_upstream-settles x
        (record {
          outcome = outcome;
          original_request = original_of outcome r;
          target = final_target net codecs x outcome;
          body_for_rules = b;
        })
        req_body e,
    request_backfill-AllKeep x outcome req_body e,
  )

  respond_blocked-settles :
      (x : Exchange net F64) (outcome : RequestOutcome) (r : RequestRecord) (reason : Text)
      → HandledSettles (respond_blocked net codecs x outcome r reason)
  unfolding respond_blocked mark_complete
  respond_blocked-settles x outcome r reason e = (inr (λ flow. inl refl, tt), tt)

  respond_mocked-settles :
      (x : Exchange net F64) (outcome : RequestOutcome) (r : RequestRecord) (m : MockedResponse)
      → HandledSettles (respond_mocked net codecs x outcome r m)
  unfolding respond_mocked mark_complete
  respond_mocked-settles x outcome r m e = (inr (λ flow. inl refl, tt), tt)

  choice-settles :
      (x : Exchange net F64) (outcome : RequestOutcome) (req_body : ReqBody) (b : Option Text)
      (r : RequestRecord) (blocked : Option Text) (mocked : Option MockedResponse)
      → HandledSettles (elim blocked [
        | some reason ↦ respond_blocked net codecs x outcome r reason
        | none ↦ elim mocked [
          | some m ↦ respond_mocked net codecs x outcome r m
          | none ↦ forward_request net codecs x outcome req_body b r
        ]
      ])
  choice-settles x outcome req_body b r (some reason) mocked =
      respond_blocked-settles x outcome r reason
  choice-settles x outcome req_body b r none (some m) = respond_mocked-settles x outcome r m
  choice-settles x outcome req_body b r none none = forward_request-settles x outcome req_body b r

  follow_outcome-settles :
      (x : Exchange net F64) (outcome : RequestOutcome) (req_body : ReqBody) (b : Option Text)
      (r : RequestRecord)
      → HandledSettles (follow_outcome net codecs x outcome req_body b r)
  unfolding follow_outcome
  follow_outcome-settles x outcome req_body b r =
      choice-settles x outcome req_body b r (outcome.blocked) (outcome.mocked)

  abbrev WhenRecorded : Handling net F64 → Type 0
  WhenRecorded (unrecorded response) = Unit
  WhenRecorded (recorded flow late h) = AllKeep late × HandledSettles h

  handle-settles : (x : Exchange net F64) → WhenRecorded (handle_captured_request net codecs x)
  unfolding handle_captured_request
  handle-settles x =
      of_Result WhenRecorded
        (obtain_body (needs_request_body ext (x.rule_set) (request_ctx net codecs x none)) (x.body))
        _ _
        (λ req_body.
          of_Result WhenRecorded (body_for_rules codecs (encoding_of (x.req_headers)) req_body) _ _
            (λ b. (
              attach_resolution-AllKeep F64 (x.conn.app_resolution),
              follow_outcome-settles x (request_rules net codecs x b) req_body b
                  (request_record net codecs x req_body),
            ))
            (λ e. tt))
        (λ e. tt)

  -- The change of the spawned task, where its result has arrived.
  arrived-AllKeep :
      (arrived : Bool) (late : List (Flow F64 → Flow F64))
      → AllKeep late
      → AllKeep (if arrived then late else [])
  arrived-AllKeep true late h = h
  arrived-AllKeep false late h = tt

  -- Whatever the network, the rules and the clock do, and whatever other tasks do to the store and to
  -- flows of other ids between the steps: once an exchange that is recorded has made all of its
  -- changes, both bodies having ended in whatever way, and the application of the client having been
  -- found at any moment behind the insertion or not yet, its flow is complete or failed, if the store
  -- still holds it.
  pub exchange-settles :
      (x : Exchange net F64) (flow : Flow F64) (late : List (Flow F64 → Flow F64))
      (h : Handled net F64)
      → handle_captured_request net codecs x ≡ recorded flow late h
      → (place found : ℕ) (arrived : Bool) (request_end response_end : BodyEnd)
        (hs : List (Happening F64 (flow.summary.id)))
      → own_changes hs
        ≡ woven found (if arrived then late else []) (all_changes h place request_end response_end)
      → (w : World F64) (final : Flow F64)
      → ((happen_all hs (insert_and_send flow w)).flows).flows (flow.summary.id) ≡ some final
      → (final.summary.state ≡ FlowState.complete) ⊎ (final.summary.state ≡ FlowState.error)
  unfolding all_changes
  exchange-settles x flow late h e place found arrived request_end response_end hs made w final
        stored =
      let (keeps, settling) : AllKeep late × HandledSettles h =
        subst WhenRecorded e (handle-settles x) in
      let (before, _, same) = happen_all-own hs (insert_and_send flow w) final stored in
      let own = all_changes h place request_end response_end in
      let settled : EndSettled own =
        append-EndSettled (h.before) _
          (woven-EndSettled place _ _ ((settling request_end).1) ((settling response_end).0)) in
      subst IsSettled (sym same) (
        apply_all-IsSettled (own_changes hs) before (
          subst EndSettled (sym made) (
            woven-EndSettled found (if arrived then late else []) own
              (arrived-AllKeep arrived late keeps) settled)))
