-- ===== src/Body/Payload.antt =====
-- crates/hamsy-core/src/body.rs, `to_payload`, `from_payload` and what they classify by.
use Prim.Native.Nat.{min}
use hamsy_proxy.Shared.{
  ℕ, zero, suc, ◌==◌, ltb, leb, Bool, true, false, not, Option, none, some, List, [], ◌∷◌, ◌&&◌,
  ◌||◌, length, take, any, is_empty, unwrap_or, Result, ok, err, if◌then◌else◌,
}
use hamsy_proxy.Shared.Words.{saturating_add}
use hamsy_proxy.Shared.Text.{
  Text, text, text_eq, starts_with, ends_with, before, trim, to_ascii_lowercase,
}
use hamsy_proxy.Shared.Utf8.{Utf8, valid, cut_off, invalid, from_utf8, from_utf8_lossy}
use hamsy_proxy.Flow.{BodyPayload, text_body, base64_body, no_body, truncated_body, Buffer}
use hamsy_proxy.Body.{Codecs, max_decode_output, decode_body}

unfoldable pub has_control_bytes : Text → Bool
has_control_bytes bytes =
    any (λ b. ltb b 0x20 && not (b == b'\t') && not (b == b'\n') && not (b == b'\r')) bytes

abbrev one_of : Text → List Text → Bool
one_of s choices = any (text_eq s) choices

unfoldable pub is_textual_mime : Text → Bool
unfolding before trim to_ascii_lowercase starts_with ends_with text_eq
is_textual_mime value =
    let mime = to_ascii_lowercase (trim (before (λ c. c == b';') value)) in
    starts_with mime (text "text/")
    || ends_with mime (text "+json")
    || ends_with mime (text "+xml")
    || one_of mime (
        text "application/json"
        ∷ text "application/xml"
        ∷ text "application/xhtml+xml"
        ∷ text "application/javascript"
        ∷ text "application/x-javascript"
        ∷ text "application/ecmascript"
        ∷ text "application/x-www-form-urlencoded"
        ∷ text "application/graphql"
        ∷ text "application/manifest+json"
        ∷ text "image/svg+xml"
        ∷ [])

-- A character that is cut off at the end is an error unless the decoding was.
unfoldable pub is_valid_text : Utf8 → Bool → Bool
is_valid_text valid decode_truncated = true
is_valid_text cut_off decode_truncated = decode_truncated
is_valid_text invalid decode_truncated = false

abbrev is_textual : Option Text → Bool
is_textual none = false
is_textual (some mime) = is_textual_mime mime

unfoldable pub is_text_content : Option Text → Text → Bool → Bool
unfolding is_valid_text is_textual_mime has_control_bytes from_utf8
is_text_content content_type decoded decode_truncated =
    is_valid_text (from_utf8 decoded) decode_truncated
    && (is_textual content_type || not (has_control_bytes decoded))

abbrev pub is_valid_utf8 : Utf8 → Bool
is_valid_utf8 valid = true
is_valid_utf8 cut_off = false
is_valid_utf8 invalid = false

-- The loop that steps back to a character boundary, from an end of the prefix.
unfoldable pub boundary_before : Text → ℕ → ℕ
unfolding from_utf8
boundary_before prefix zero = 0
boundary_before prefix (suc end) =
    let before_end = boundary_before prefix end in
    if is_valid_utf8 (from_utf8 (take (suc end) prefix)) then suc end else before_end

module _ (codecs : Codecs) where
  abbrev pub string : Text → Buffer
  string bytes = record { bytes = bytes; capacity = codecs.allocated bytes }

  -- `to_payload`, once the body is decoded.
  unfoldable pub whole_payload : Text → Bool → Option Text → BodyPayload
  whole_payload decoded is_text encoding = record {
    kind = if is_text then text_body else base64_body;
    payload = string (if is_text then decoded else codecs.base64_encode decoded);
    size = length decoded;
    truncated = false;
    encoding = encoding;
  }

  unfoldable pub cut_data : Text → Bool → Text
  unfolding boundary_before from_utf8_lossy
  cut_data prefix is_text =
      if is_text
      then from_utf8_lossy (take (boundary_before prefix (length prefix)) prefix)
      else codecs.base64_encode prefix

  unfoldable pub cut_payload : Text → Bool → ℕ → Option Text → BodyPayload
  unfolding cut_data
  cut_payload decoded is_text max_bytes encoding = record {
    kind = truncated_body;
    payload = string (cut_data (take (min (length decoded) max_bytes) decoded) is_text);
    size = length decoded;
    truncated = true;
    encoding = encoding;
  }

  unfoldable pub empty_payload : Option Text → BodyPayload
  empty_payload encoding = record {
    kind = no_body;
    payload = record { bytes = []; capacity = 0 };
    size = 0;
    truncated = false;
    encoding = encoding;
  }

  unfoldable pub payload_of : Option Text → Option Text → ℕ → Text × Bool → BodyPayload
  unfolding empty_payload whole_payload cut_payload is_text_content
  payload_of content_type encoding max_bytes (decoded, decode_truncated) =
      if is_empty decoded && not decode_truncated
      then empty_payload encoding
      else let is_text = is_text_content content_type decoded decode_truncated in
        if leb (length decoded) max_bytes && not decode_truncated
        then whole_payload decoded is_text encoding
        else cut_payload decoded is_text max_bytes encoding

  -- `.unwrap_or_else(|_| (bytes.to_vec(), false))`
  abbrev pub decoded_or_raw : Text → Result (Text × Bool) Text → Text × Bool
  decoded_or_raw bytes (ok decoded) = decoded
  decoded_or_raw bytes (err e) = (bytes, false)

  unfoldable pub to_payload : Text → Option Text → Option Text → ℕ → BodyPayload
  unfolding payload_of decode_body saturating_add
  to_payload bytes content_type content_encoding max_bytes =
      payload_of content_type content_encoding max_bytes (
        decoded_or_raw bytes (
          decode_body codecs bytes content_encoding
            (min (saturating_add max_bytes 3) max_decode_output)))

  unfoldable pub from_payload : BodyPayload → Text
  from_payload p = elim (p.kind) [
    | text_body ↦ p.payload.bytes
    | base64_body ↦ unwrap_or (codecs.base64_decode (p.payload.bytes)) []
    | no_body ↦ []
    | truncated_body ↦ []
  ]
