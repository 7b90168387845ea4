-- ===== src/Proxy/Dispatch.antt =====
-- crates/hamsy-proxy/src/http.rs, `dispatch`. Obtaining a connection and sending on it are parameters;
-- timings are values of a type, with the constants that the code writes.
use hamsy_proxy.Shared.{ℕ, Bool, Option, none, some, Result, ok, err}
use hamsy_proxy.Shared.Text.{Text, text}
use hamsy_proxy.Flow.{Timings}
use hamsy_proxy.BodyStream.{Source}
use hamsy_proxy.Rules.Externals.{Externals}
use hamsy_proxy.Proxy.Error.{ProxyError, invalid_target}
use hamsy_proxy.Proxy.Net.{Version, Net}
use hamsy_proxy.Proxy.Target.{Parts, port_of}
use hamsy_proxy.Proxy.Outbound.{HttpVersion, adapt_request_to_sender}

-- What `Connector::obtain` gives, without the sender itself.
pub record Obtained (F64 : Type 0) : Type 0 where
  pub version : HttpVersion
  pub connect_ms : F64
  pub ssl_ms : F64
  pub server_addr : Option Text
  pub via_proxy : Bool

-- What a body that is sent holds: bytes, what another body yields, or a `TeeBody` with its cap or a
-- `CaptureBody` around another one.
pub data Content : Type 0 where
  full_body : Text → Content
  passed : Source → Content
  teed : ℕ → Content → Content
  captured : Content → Content

-- A body, and the limit of the `Throttled` around it.
pub record BoxBody : Type 0 where
  pub content : Content
  pub throttle : Option ℕ

module _ {ext : Externals} (net : Net ext) (F64 : Type 0) where
  open ext use {Url, host_str, scheme}

  -- The head of a response and what its body yields.
  pub record Answer : Type 0 where
    pub status : ℕ
    pub version : Version
    pub headers : net.HeaderMap
    pub body : Source

  pub record Upstream : Type 0 where
    pub zero : F64
    pub minus_one : F64
    pub obtain : Text → Text → ℕ → Bool → Option Text → Result (Obtained F64) ProxyError
    -- the answer of `send_request`, and how long it was waited for, in milliseconds
    pub send_request : Parts net → BoxBody → Result (Answer × F64) ProxyError

  unfoldable pub dispatch :
      Upstream
      → Url
      → Bool
      → Option Text
      → Parts net
      → BoxBody
      → Result (Answer × Timings F64 × Option Text) ProxyError
  unfolding adapt_request_to_sender port_of
  dispatch upstream url mirror_h2 upstream_proxy outbound body = elim (host_str url) [
    | none ↦ err (invalid_target (text "missing host"))
    | some host ↦
        elim (upstream.obtain (scheme url) host (port_of net url) mirror_h2 upstream_proxy) [
          | err e ↦ err e
          | ok obtained ↦
              elim (upstream.send_request
                (adapt_request_to_sender net (obtained.version) (obtained.via_proxy) url outbound)
                body) [
                  | err e ↦ err e
                  | ok answer ↦ ok (
                    answer.0,
                    record {
                      blocked = upstream.zero;
                      dns = upstream.minus_one;
                      connect = obtained.connect_ms;
                      ssl = obtained.ssl_ms;
                      send = upstream.zero;
                      wait = answer.1;
                      receive = upstream.zero;
                    },
                    obtained.server_addr,
                  )
                ]
        ]
  ]
