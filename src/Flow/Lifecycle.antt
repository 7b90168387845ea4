-- ===== src/Flow/Lifecycle.antt =====
-- crates/hamsy-core/src/flow.rs, the constructor and the transitions of `Flow`.
use hamsy_proxy.Shared.{ℕ, false, Option, none, some, List, [], find, ◌==◌, ◌||◌}
use hamsy_proxy.Shared.Text.{Text, text, text_eq, eq_ignore_ascii_case, before, trim}
use hamsy_proxy.Shared.Int.{ℤ, pos_part, sub_i64}
use hamsy_proxy.Flow.{
  FlowId, FlowState, ResourceType, HeaderPair, RequestRecord, ResponseRecord, Timings, Flow,
}
use hamsy_proxy.Flow.Infer.{infer}
use mathlib.Core.Option

-- `(finished_at - started_at).max(0) as u64`
unfoldable pub elapsed : ℤ → ℤ → ℕ
unfolding sub_i64
elapsed finished_at started_at = pos_part (sub_i64 finished_at started_at)

-- The media type of a `Content-Type` header, without its parameters.
unfoldable pub mime_of : List HeaderPair → Option Text
unfolding eq_ignore_ascii_case before trim
mime_of headers =
    Option.map (λ h. trim (before (λ c. c == b';') (h.value)))
      (find (λ h. eq_ignore_ascii_case (h.name) (text "content-type")) headers)

module _ {F64 : Type 0} where
  -- `zero_timings` is `Timings::default()`.
  unfoldable pub new_request :
      Timings F64
      → FlowId
      → ℕ
      → ℤ
      → Text
      → Text
      → Text
      → ℕ
      → Text
      → Text
      → Text
      → Text
      → RequestRecord
      → Flow F64
  new_request zero_timings id seq started_at method scheme host port path url http_version
        client_addr request =
      record {
        summary = record {
          id = id;
          seq = seq;
          state = FlowState.pending;
          started_at = started_at;
          duration_ms = none;
          method = method;
          scheme = scheme;
          host = host;
          port = port;
          path = path;
          url = url;
          http_version = http_version;
          status = none;
          status_text = none;
          mime_type = none;
          resource_type = ResourceType.other;
          request_size = request.body.size;
          response_size = 0;
          client_addr = client_addr;
          app = none;
          matched_rules = [];
          modified = false;
          error = none;
          websocket = text_eq scheme (text "ws") || text_eq scheme (text "wss");
          from_cache = false;
        };
        request = some request;
        response = none;
        original_request = none;
        original_response = none;
        timings = zero_timings;
        ws_messages = [];
        server_addr = none;
        tls = none;
      }

  unfoldable pub mark_complete : ResponseRecord → ℤ → Flow F64 → Flow F64
  unfolding mime_of elapsed
  mark_complete response finished_at flow = record flow {
    summary = record (flow.summary) {
      status = some (response.status);
      status_text = some (response.status_text);
      mime_type = mime_of (response.headers);
      response_size = response.body.size;
      resource_type = infer (mime_of (response.headers)) (flow.summary.path);
      duration_ms = some (elapsed finished_at (flow.summary.started_at));
      state = FlowState.complete;
    };
    response = some response;
  }

  unfoldable pub mark_error : Text → ℤ → Flow F64 → Flow F64
  unfolding elapsed
  mark_error message finished_at flow = record flow {
    summary = record (flow.summary) {
      state = FlowState.error;
      error = some message;
      duration_ms = some (elapsed finished_at (flow.summary.started_at));
    };
  }
