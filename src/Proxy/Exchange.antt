-- ===== src/Proxy/Exchange.antt =====
-- crates/hamsy-proxy/src/http.rs: what `handle_captured_request` works on and what it does. The handler
-- never reads the flow store, so that it is a function from the exchange to the flow that it inserts,
-- the changes that it makes to that flow in order, and the response. The callbacks that it leaves in
-- the body wrappers are changes that are made later.
use hamsy_proxy.Shared.{
  ℕ, leb, ltb, ◌&&◌, Bool, Option, none, some, List, [], ◌∷◌, if◌then◌else◌, ok, err,
}
use hamsy_proxy.Shared.Text.{Text, text}
use hamsy_proxy.Shared.Int.{ℤ}
use hamsy_proxy.Flow.{FlowId, HeaderPair, RequestRecord, Timings, Flow}
use hamsy_proxy.Flow.Lifecycle.{mark_error}
use hamsy_proxy.BodyStream.{TeeState, Source}
use hamsy_proxy.Rules.Externals.{Externals}
use hamsy_proxy.Rules.Compile.Set.{RuleSet}
use hamsy_proxy.Proxy.Error.{ProxyError, to_string}
use hamsy_proxy.Proxy.Net.{Net}
use hamsy_proxy.Proxy.Headers.{safe_status, error_label}
use hamsy_proxy.Proxy.Target.{ConnInfo, Parts, AppResolution}
use hamsy_proxy.Proxy.Outbound.{append_pairs, apply_headers_to_map}
use hamsy_proxy.Proxy.Dispatch.{full_body, BoxBody, Upstream}

-- A reading of the clock is an argument. `finished_at` is the one reading that the handler itself
-- makes at its end.
module _ {ext : Externals} (net : Net ext) (F64 : Type 0) where
  pub record Exchange : Type 0 where
    pub parts : Parts net
    pub body : Source
    pub conn : ConnInfo
    pub url : ext.Url
    pub req_headers : List HeaderPair
    pub started_at : ℤ
    pub finished_at : ℤ
    pub flow_id : FlowId
    pub seq : ℕ
    pub rule_set : RuleSet ext
    pub max_body_bytes : ℕ
    pub upstream_proxy : Option Text
    pub upstream : Upstream net F64
    pub zero_timings : Timings F64

  pub record Response : Type 0 where
    pub status : ℕ
    pub headers : net.HeaderMap
    pub body : BoxBody

  -- The callback of a `CaptureBody`: whether the capture may be recorded, the state of the tee, and
  -- the time.
  abbrev pub Finalizer : Type 0
  Finalizer = Bool → TeeState → ℤ → Flow F64 → Flow F64

  pub record Handled : Type 0 where
    pub response : Response
    -- the changes before the request body is handed on
    pub before : List (Flow F64 → Flow F64)
    -- the callback on the request body
    pub backfill : Option Finalizer
    -- the changes from then on
    pub after : List (Flow F64 → Flow F64)
    -- the callback on the response body
    pub finish : Option Finalizer

  pub data Handling : Type 0 where
    unrecorded : Response → Handling
    -- the flow that is inserted, what the task that is spawned behind the insertion does to it, and the rest
    recorded : Flow F64 → List (Flow F64 → Flow F64) → Handled → Handling

module _ {F64 : Type 0} where
  -- `AppResolution::attach`: the change of the task that waits for the application.
  unfoldable pub attach : AppResolution → List (Flow F64 → Flow F64)
  attach (some (some app)) =
      (λ flow. record flow { summary = record (flow.summary) { app = some app } }) ∷ []
  attach (some none) = []
  attach none = []

  -- `if let Some(resolution) = &conn.app_resolution`
  unfoldable pub attach_resolution : Option AppResolution → List (Flow F64 → Flow F64)
  unfolding attach
  attach_resolution none = []
  attach_resolution (some resolution) = attach resolution

abbrev pub bytes_body : Text → BoxBody
bytes_body bytes = record { content = full_body bytes; throttle = none }

module _ {ext : Externals} (net : Net ext) where
  -- `StatusCode::from_u16(status).ok().and_then(|s| s.canonical_reason())`
  unfoldable pub reason_of : ℕ → Option Text
  reason_of status = if leb 100 status && ltb status 1000 then net.canonical_reason status else none

module _ {F64 : Type 0} where
  -- `f.summary.matched_rules = matched; f.summary.modified = modified;`
  abbrev pub set_matched : List Text → Bool → Flow F64 → Flow F64
  set_matched matched modified flow = record flow {
    summary = record (flow.summary) { matched_rules = matched; modified = modified };
  }

  -- The change of `finalize_error`.
  unfoldable pub fail_flow :
      Option RequestRecord → List Text → Bool → Text → ℤ → Flow F64 → Flow F64
  unfolding mark_error
  fail_flow original_request matched modified message finished_at flow =
      mark_error message finished_at
        (set_matched matched modified (record flow { original_request = original_request }))

module _ {ext : Externals} (net : Net ext) {F64 : Type 0} where
  -- `Response::new(empty_body())` with the status 500
  abbrev internal_error : Response net F64
  internal_error = record { status = 500; headers = net.new_map; body = bytes_body [] }

  unfoldable pub error_response : ℕ → Text → Response net F64
  unfolding error_label append_pairs
  error_response status message =
      let json : HeaderPair = record {
        name = text "content-type";
        value = text "application/json";
      } in
      elim (append_pairs net (json ∷ []) (net.new_map)) [
        | err e ↦ internal_error
        | ok headers ↦ record {
          status = status;
          headers = headers;
          body = bytes_body (net.json_error (error_label status) message);
        }
      ]

  unfoldable pub build_client_response : ℕ → List HeaderPair → BoxBody → Response net F64
  unfolding safe_status apply_headers_to_map
  build_client_response status headers body = record {
    status = safe_status status;
    headers = elim (apply_headers_to_map net headers) [
      | ok headers ↦ headers
      | err e ↦ net.new_map
    ];
    body = body;
  }

  -- A change, and the response that `finalize_error` answers.
  unfoldable pub finalize_error :
      Option RequestRecord
      → List Text
      → Bool
      → ProxyError
      → ℤ
      → (Flow F64 → Flow F64) × Response net F64
  unfolding fail_flow error_response to_string
  finalize_error original_request matched modified e finished_at = (
    fail_flow original_request matched modified (to_string e) finished_at,
    error_response 502 (to_string e),
  )
