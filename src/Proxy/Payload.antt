-- ===== src/Proxy/Payload.antt =====
-- crates/hamsy-proxy/src/http.rs: bodies for the rules, and the payloads of captured bodies.
use Prim.Native.Nat.{max}
use hamsy_proxy.Shared.{
  ℕ, ◌*◌, ◌==◌, Bool, true, false, not, Option, none, some, List, [], ◌∷◌, ◌++◌, any, if◌then◌else◌,
  Result, ok, err,
}
use hamsy_proxy.Shared.Text.{Text, text, text_eq, trim, to_ascii_lowercase}
use hamsy_proxy.Shared.Split.{split}
use hamsy_proxy.Shared.Number.{to_decimal}
use hamsy_proxy.Flow.{BodyKind, BodyPayload, no_body, text_body, base64_body, truncated_body}
use hamsy_proxy.Body.{Codecs, decode_body}
use hamsy_proxy.Body.Payload.{to_payload}
use hamsy_proxy.BodyStream.{TeeState, RulesBodyError, read_error, exceeds}
use hamsy_proxy.Proxy.Error.{ProxyError, other}

abbrev pub hard_buffer_cap : ℕ
hard_buffer_cap = 64 * 1024 * 1024

-- The errors of `collect_for_rules`.
unfoldable pub collect_error : RulesBodyError → ProxyError
unfolding to_decimal
collect_error (read_error e) = other e
collect_error (exceeds limit) = other (
    text "body exceeds rule buffer limit ("
    ++ to_decimal limit
    ++ text " bytes); request not forwarded partially")

abbrev pub supported_codings : List Text
supported_codings =
    []
    ∷ text "identity"
    ∷ text "gzip"
    ∷ text "x-gzip"
    ∷ text "deflate"
    ∷ text "br"
    ∷ text "zstd"
    ∷ []

-- A coding that a body rule cannot undo.
unfoldable pub is_unsupported : Option Text → Bool
unfolding split trim to_ascii_lowercase text_eq
is_unsupported none = false
is_unsupported (some value) =
    any (λ token. not (any (text_eq (to_ascii_lowercase (trim token))) supported_codings))
      (split b',' value)

module _ (codecs : Codecs) where
  unfoldable pub decode_for_rules : Text → Option Text → Result Text ProxyError
  unfolding is_unsupported decode_body
  decode_for_rules bytes encoding = elim (is_unsupported encoding) [
    | true ↦ err (other (text "unsupported Content-Encoding for body rule"))
    | false ↦ elim (decode_body codecs bytes encoding hard_buffer_cap) [
      | err e ↦ err (other (text "cannot decode body for rule: " ++ e))
      | ok (decoded, true) ↦ err (other (text "decoded body exceeds rule buffer limit"))
      | ok (decoded, false) ↦ ok decoded
    ]
  ]

  abbrev pub truncated_kind : BodyKind → BodyKind
  truncated_kind no_body = no_body
  truncated_kind text_body = truncated_body
  truncated_kind base64_body = truncated_body
  truncated_kind truncated_body = truncated_body

  abbrev marked_truncated : ℕ → BodyPayload → BodyPayload
  marked_truncated total p = record p {
    truncated = true;
    size = max (p.size) total;
    kind = truncated_kind (p.kind);
  }

  unfoldable pub payload_from_capture :
      Text → ℕ → Bool → Option Text → Option Text → ℕ → BodyPayload
  unfolding to_payload
  payload_from_capture captured total capture_truncated content_type content_encoding max_bytes =
      let payload = to_payload codecs captured content_type content_encoding max_bytes in
      if capture_truncated then marked_truncated total payload else payload

  -- What is recorded where the workers have no room for the capture.
  abbrev uncaptured : ℕ → Option Text → BodyPayload
  uncaptured size encoding = record {
    kind = if size == 0 then no_body else truncated_body;
    payload = record { bytes = []; capacity = 0 };
    size = size;
    truncated = not (size == 0);
    encoding = encoding;
  }

  unfoldable pub capture_payload : TeeState → Bool → Option Text → Option Text → ℕ → BodyPayload
  unfolding payload_from_capture
  capture_payload state capture content_type encoding max_bytes =
      if capture
      then payload_from_capture (state.captured) (state.total) (state.truncated) content_type
          encoding max_bytes
      else uncaptured (state.total) encoding
