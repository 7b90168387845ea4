-- ===== src/Body.antt =====
-- crates/hamsy-core/src/body.rs: the content codings and the payloads of recorded bodies. The codecs
-- and base64 are a parameter: a decompressor is the reader that it makes of its input, and a reader
-- is what it would give, with the error that it ends in.
pub mod Payload
pub mod Capped
pub mod Bounds
pub mod RoundTrip
pub mod Tests
use Prim.Native.Nat.{min}
use mathlib.Core.List.{reverse}
use hamsy_proxy.Shared.{
  ℕ, ◌+◌, ◌*◌, ◌==◌, ltb, leb, Bool, true, false, not, Option, none, some, List, [], ◌∷◌, ◌++◌,
  ◌||◌, length, take, map, filter, any, is_empty, Result, ok, err, if◌then◌else◌,
}
use hamsy_proxy.Shared.Words.{saturating_add}
use hamsy_proxy.Shared.Text.{Text, text, text_eq, trim, to_ascii_lowercase}
use hamsy_proxy.Shared.Split.{split}

pub record Reader : Type 0 where
  pub output : Text
  pub failure : Option Text

pub record Codecs : Type 0 where
  pub gz_decoder : Text → Reader
  pub zlib_decoder : Text → Reader
  pub deflate_decoder : Text → Reader
  pub brotli_decompressor : Text → Reader
  pub zstd_decoder : Text → Result Reader Text
  pub gz_encode : Text → Result Text Text
  pub zlib_encode : Text → Result Text Text
  pub brotli_compress : Text → Result Text Text
  pub zstd_encode_all : Text → Result Text Text
  pub base64_encode : Text → Text
  pub base64_decode : Text → Option Text
  -- the size of the allocation of a string
  pub allocated : Text → ℕ

-- `MAX_DECODE_OUTPUT`
abbrev pub max_decode_output : ℕ
max_decode_output = 128 * 1024 * 1024

-- `CoreError::Codec` with its message
abbrev pub failed_with : Text → Text → Text → Text
failed_with codec what e = codec ++ text " " ++ what ++ text " failed: " ++ e

-- `take(limit).read_to_end(&mut out)`: a reader is not asked again once the limit is reached.
unfoldable pub read_up_to : ℕ → Reader → Result Text Text
read_up_to limit reader =
    if leb limit (length (reader.output))
    then ok (take limit (reader.output))
    else elim (reader.failure) [ none ↦ ok (reader.output) | some e ↦ err e ]

-- What is kept of the bytes that were read.
unfoldable pub capped : ℕ → Text → Text × Bool
capped max_output out =
    if ltb max_output (length out) then (take max_output out, true) else (out, false)

unfoldable pub read_capped : Reader → ℕ → Text → Result (Text × Bool) Text
unfolding read_up_to capped saturating_add
read_capped reader max_output codec = elim (read_up_to (saturating_add max_output 1) reader) [
  | err e ↦ err (failed_with codec (text "decode") e)
  | ok out ↦ ok (capped max_output out)
]

-- A zlib stream that decodes to something; everything else is tried as a raw one.
unfoldable pub some_output : Result (Text × Bool) Text → Option (Text × Bool)
some_output (err e) = none
some_output (ok ([], hit_cap)) = none
some_output (ok (b ∷ out, hit_cap)) = some (b ∷ out, hit_cap)

-- The codings of a header's value, the last applied first.
unfoldable pub codings : Text → List Text
unfolding split trim to_ascii_lowercase
codings encoding =
    map (λ token. to_ascii_lowercase (trim token))
      (reverse (filter (λ token. not (is_empty (trim token))) (split b',' encoding)))

abbrev pub encoded : Text → Result Text Text → Result Text Text
encoded codec (ok bytes) = ok bytes
encoded codec (err e) = err (failed_with codec (text "encode") e)

module _ (codecs : Codecs) where
  unfoldable pub decode_deflate : Text → ℕ → Result (Text × Bool) Text
  unfolding read_capped some_output
  decode_deflate bytes max_output =
      elim (some_output (read_capped (codecs.zlib_decoder bytes) max_output (text "deflate"))) [
        | some decoded ↦ ok decoded
        | none ↦ read_capped (codecs.deflate_decoder bytes) max_output (text "deflate")
      ]

  unfoldable pub decode_zstd : Text → ℕ → Result (Text × Bool) Text
  unfolding read_capped
  decode_zstd bytes max_output = elim (codecs.zstd_decoder bytes) [
    | err e ↦ err (failed_with (text "zstd") (text "decode") e)
    | ok reader ↦ read_capped reader max_output (text "zstd")
  ]

  -- `decode_single`
  unfoldable pub decode_single : Text → Text → ℕ → Result (Text × Bool) Text
  unfolding read_capped decode_deflate decode_zstd text_eq
  decode_single bytes encoding max_output =
      if text_eq encoding (text "gzip") || text_eq encoding (text "x-gzip")
      then read_capped (codecs.gz_decoder bytes) max_output (text "gzip")
      else if text_eq encoding (text "deflate")
      then decode_deflate bytes max_output
      else if text_eq encoding (text "br")
      then read_capped (codecs.brotli_decompressor bytes) max_output (text "brotli")
      else if text_eq encoding (text "zstd")
      then decode_zstd bytes max_output
      else ok (bytes, false)

  -- The loop of `decode_body` over the codings that are left, the last one being the plaintext stage.
  unfoldable pub decode_stages : ℕ → List Text → Text → Result (Text × Bool) Text
  unfolding decode_single
  decode_stages max_output [] bytes = ok (bytes, false)
  decode_stages max_output (token ∷ tokens) bytes =
      elim (decode_single bytes token (if is_empty tokens then max_output else max_decode_output)) [
        | err e ↦ err e
        | ok (decoded, true) ↦ ok (decoded, true)
        | ok (decoded, false) ↦ decode_stages max_output tokens decoded
      ]

  unfoldable pub decode_body : Text → Option Text → ℕ → Result (Text × Bool) Text
  unfolding decode_stages codings
  decode_body bytes none max_output = ok (bytes, false)
  decode_body bytes (some encoding) max_output = decode_stages max_output (codings encoding) bytes

  -- `encode_body`, at the token.
  unfoldable pub encode_with : Text → Text → Result Text Text
  unfolding text_eq
  encode_with bytes token =
      if text_eq token (text "gzip") || text_eq token (text "x-gzip")
      then encoded (text "gzip") (codecs.gz_encode bytes)
      else if text_eq token (text "deflate")
      then encoded (text "deflate") (codecs.zlib_encode bytes)
      else if text_eq token (text "br")
      then encoded (text "brotli") (codecs.brotli_compress bytes)
      else if text_eq token (text "zstd")
      then encoded (text "zstd") (codecs.zstd_encode_all bytes)
      else ok bytes

  unfoldable pub encode_body : Text → Text → Result Text Text
  unfolding encode_with trim to_ascii_lowercase
  encode_body bytes encoding = encode_with bytes (to_ascii_lowercase (trim encoding))
