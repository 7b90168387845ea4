-- ===== src/Body/RoundTrip.antt =====
-- What is read back from a payload, and from an encoded body.
use Prim.Native.Nat.{min}
use hamsy_proxy.Shared.{
  ℕ, ◌≤◌, ◌<◌, ◌≡◌, ◌≢◌, refl, ap, ◌∙◌, Bool, true, false, not, Option, none, some, [], ◌∷◌, ◌&&◌,
  ◌||◌, leb, length, is_empty, unwrap_or, Result, ok, err, if◌then◌else◌, arith,
}
use hamsy_proxy.Shared.Words.{u64_max, saturating_add}
use hamsy_proxy.Shared.Text.{Text, text, text_eq, trim, to_ascii_lowercase}
use hamsy_proxy.Flow.{BodyPayload}
use hamsy_proxy.Body.{
  Reader, Codecs, max_decode_output, codings, decode_deflate, decode_zstd, some_output,
  decode_single, decode_stages, decode_body, read_up_to, capped, read_capped, encoded, encode_with,
  encode_body,
}
use hamsy_proxy.Body.Payload.{
  is_text_content, whole_payload, cut_payload, empty_payload, payload_of, decoded_or_raw,
  to_payload, from_payload,
}

-- A reader that gives some bytes and ends.
abbrev pub whole : Text → Reader
whole b = record { output = b; failure = none }

read_capped-whole :
    (b : Text) (max_output : ℕ) (codec : Text)
    → length b ≤ max_output
    → max_output < u64_max
    → read_capped (whole b) max_output codec ≡ ok (b, false)
unfolding read_capped read_up_to capped saturating_add
read_capped-whole b max_output codec fits word = ground arith

-- A reader that is the one of a whole body.
read_capped-lossless :
    (bytes codec : Text) (max_output : ℕ) (reader : Reader)
    → length bytes ≤ max_output
    → max_output < u64_max
    → reader ≡ whole bytes
    → read_capped reader max_output codec ≡ ok (bytes, false)
read_capped-lossless bytes codec max_output reader fits word e =
    ap (λ r. read_capped r max_output codec) e ∙ read_capped-whole bytes max_output codec fits word

module _ (codecs : Codecs) where
  whole_payload-back :
      (decoded : Text) (is_text : Bool) (encoding : Option Text)
      → codecs.base64_decode (codecs.base64_encode decoded) ≡ some decoded
      → from_payload codecs (whole_payload codecs decoded is_text encoding) ≡ decoded
  unfolding whole_payload from_payload
  whole_payload-back decoded true encoding h = refl
  whole_payload-back decoded false encoding h = ap (λ o. unwrap_or o []) h

  cut_payload-truncated :
      (decoded : Text) (is_text : Bool) (max_bytes : ℕ) (encoding : Option Text)
      → (cut_payload codecs decoded is_text max_bytes encoding).truncated ≢ false
  unfolding cut_payload
  cut_payload-truncated decoded is_text max_bytes encoding = λ t. ground (arith, t)

  -- What was decoded is the payload, read back, and nothing was cut off.
  abbrev Back : Text → Bool → BodyPayload → Type 0
  Back decoded cut p = p.truncated ≡ false → (cut ≡ false) × (from_payload codecs p ≡ decoded)

  empty_payload-Back :
      (decoded : Text) (encoding : Option Text) (cut : Bool)
      → (is_empty decoded && not cut) ≡ true
      → Back decoded cut (empty_payload codecs encoding)
  unfolding empty_payload from_payload
  empty_payload-Back [] encoding false e t = (refl, refl)
  empty_payload-Back [] encoding true e t = absurd (ground arith)
  empty_payload-Back (b ∷ decoded) encoding cut e t = absurd (ground arith)

  if-Back :
      (decoded : Text) (cut b : Bool) (x y : BodyPayload)
      → (b ≡ true → Back decoded cut x)
      → (b ≡ false → Back decoded cut y)
      → Back decoded cut (if b then x else y)
  if-Back decoded cut true x y h k = h refl
  if-Back decoded cut false x y h k = k refl

  uncut : (fits cut : Bool) → (fits && not cut) ≡ true → cut ≡ false
  uncut fits cut h = ground arith

  payload_of-Back :
      (content_type encoding : Option Text) (max_bytes : ℕ) (decoded : Text) (cut : Bool)
      → codecs.base64_decode (codecs.base64_encode decoded) ≡ some decoded
      → Back decoded cut (payload_of codecs content_type encoding max_bytes (decoded, cut))
  unfolding payload_of
  payload_of-Back content_type encoding max_bytes decoded cut h =
      let is_text = is_text_content content_type decoded cut in
      let whole = whole_payload codecs decoded is_text encoding in
      let part = cut_payload codecs decoded is_text max_bytes encoding in
      if-Back decoded cut (is_empty decoded && not cut) _ _
        (λ e. empty_payload-Back decoded encoding cut e)
        (λ e.
          if-Back decoded cut (leb (length decoded) max_bytes && not cut) whole part
            (λ fits t. (
              uncut (leb (length decoded) max_bytes) cut fits,
              whole_payload-back decoded is_text encoding h,
            ))
            (λ more t. absurd (cut_payload-truncated decoded is_text max_bytes encoding t)))

  -- A payload that is not marked as truncated gives back what was decoded, all of it: the decoding
  -- itself was not cut off at its cap either. (Where the decoding failed, this is the body as it came.)
  -- Base64 decodes what it encoded.
  pub from_payload-to_payload :
      (bytes : Text) (content_type content_encoding : Option Text) (max_bytes : ℕ)
      → ((b : Text) → codecs.base64_decode (codecs.base64_encode b) ≡ some b)
      → (to_payload codecs bytes content_type content_encoding max_bytes).truncated ≡ false
      → let decoded = decoded_or_raw codecs bytes (
          decode_body codecs bytes content_encoding
            (min (saturating_add max_bytes 3) max_decode_output)) in
        (decoded.1 ≡ false)
        × (from_payload codecs (to_payload codecs bytes content_type content_encoding max_bytes)
            ≡ decoded.0)
  unfolding to_payload
  from_payload-to_payload bytes content_type content_encoding max_bytes law =
      payload_of-Back content_type content_encoding max_bytes _ _ (law _)

  -- What the codecs promise: a decompressor gives back what was compressed, and then ends.
  pub record IsLossless : Type 0 where
    pub gz : (b z : Text) → codecs.gz_encode b ≡ ok z → codecs.gz_decoder z ≡ whole b
    pub zlib : (b z : Text) → codecs.zlib_encode b ≡ ok z → codecs.zlib_decoder z ≡ whole b
    pub brotli :
        (b z : Text) → codecs.brotli_compress b ≡ ok z → codecs.brotli_decompressor z ≡ whole b
    pub zstd : (b z : Text) → codecs.zstd_encode_all b ≡ ok z → codecs.zstd_decoder z ≡ ok (whole b)

  ok_of_encoded : (codec z : Text) (r : Result Text Text) → encoded codec r ≡ ok z → r ≡ ok z
  ok_of_encoded codec z (ok b) h = h
  ok_of_encoded codec z (err e) h = absurd (ground arith)

  -- Two tests on the same condition.
  both_branches :
      (b : Bool) (z : Text) (r : Text × Bool) (e₁ e₂ : Result Text Text)
      (d₁ d₂ : Result (Text × Bool) Text)
      → (e₁ ≡ ok z → d₁ ≡ ok r)
      → (e₂ ≡ ok z → d₂ ≡ ok r)
      → (if b then e₁ else e₂) ≡ ok z
      → (if b then d₁ else d₂) ≡ ok r
  both_branches true z r e₁ e₂ d₁ d₂ h k e = h e
  both_branches false z r e₁ e₂ d₁ d₂ h k e = k e

  some_output-found :
      (b : ℕ) (bs : Text) (first raw : Result (Text × Bool) Text)
      → first ≡ ok (b ∷ bs, false)
      → elim (some_output first) [ some decoded ↦ ok decoded | none ↦ raw ] ≡ ok (b ∷ bs, false)
  unfolding some_output
  some_output-found b bs first raw h =
      ap (λ r. elim (some_output r) [ some decoded ↦ ok decoded | none ↦ raw ]) h

  decode_deflate-zlib :
      (bytes z : Text) (max_output : ℕ)
      → IsLossless
      → bytes ≢ []
      → length bytes ≤ max_output
      → max_output < u64_max
      → codecs.zlib_encode bytes ≡ ok z
      → decode_deflate codecs z max_output ≡ ok (bytes, false)
  unfolding decode_deflate
  decode_deflate-zlib [] z max_output l some_bytes fits word e = absurd (some_bytes refl)
  decode_deflate-zlib (b ∷ bs) z max_output l some_bytes fits word e =
      some_output-found b bs _ (read_capped (codecs.deflate_decoder z) max_output (text "deflate"))
        (read_capped-lossless (b ∷ bs) (text "deflate") max_output (codecs.zlib_decoder z) fits word
          (l.zlib (b ∷ bs) z e))

  decode_zstd-zstd :
      (bytes z : Text) (max_output : ℕ)
      → IsLossless
      → length bytes ≤ max_output
      → max_output < u64_max
      → codecs.zstd_encode_all bytes ≡ ok z
      → decode_zstd codecs z max_output ≡ ok (bytes, false)
  unfolding decode_zstd
  decode_zstd-zstd bytes z max_output l fits word e =
      rw (l.zstd bytes z e, decode_zstd)
        (read_capped-whole bytes max_output (text "zstd") fits word)

  decode_single-encode_with :
      (bytes token z : Text) (max_output : ℕ)
      → IsLossless
      → bytes ≢ []
      → length bytes ≤ max_output
      → max_output < u64_max
      → encode_with codecs bytes token ≡ ok z
      → decode_single codecs z token max_output ≡ ok (bytes, false)
  unfolding encode_with decode_single
  decode_single-encode_with bytes token z max_output l some_bytes fits word =
      both_branches (text_eq token (text "gzip") || text_eq token (text "x-gzip")) z _ _ _ _ _
        (λ e.
          read_capped-lossless bytes (text "gzip") max_output (codecs.gz_decoder z) fits word
            (l.gz bytes z (ok_of_encoded (text "gzip") z _ e)))
        (both_branches (text_eq token (text "deflate")) z _ _ _ _ _
          (λ e.
            decode_deflate-zlib bytes z max_output l some_bytes fits word
              (ok_of_encoded (text "deflate") z _ e))
          (both_branches (text_eq token (text "br")) z _ _ _ _ _
            (λ e.
              read_capped-lossless bytes (text "brotli") max_output (codecs.brotli_decompressor z)
                fits word (l.brotli bytes z (ok_of_encoded (text "brotli") z _ e)))
            (both_branches (text_eq token (text "zstd")) z (bytes, false) _ (ok bytes) _
              (ok (z, false))
              (λ e.
                decode_zstd-zstd bytes z max_output l fits word (ok_of_encoded (text "zstd") z _ e))
              (λ e. ground arith))))

  -- A body that is not empty, encoded with a single coding, decodes to itself where it fits the cap,
  -- the cap is below the largest word, and the codecs are lossless.
  pub decode_body-encode_body :
      (bytes encoding z : Text) (max_output : ℕ)
      → IsLossless
      → codings encoding ≡ to_ascii_lowercase (trim encoding) ∷ []
      → bytes ≢ []
      → length bytes ≤ max_output
      → max_output < u64_max
      → encode_body codecs bytes encoding ≡ ok z
      → decode_body codecs z (some encoding) max_output ≡ ok (bytes, false)
  unfolding decode_body encode_body decode_stages
  decode_body-encode_body bytes encoding z max_output l single some_bytes fits word e =
      let token = to_ascii_lowercase (trim encoding) in
      rw
        (
          single,
          decode_stages,
          decode_single-encode_with bytes token z max_output l some_bytes fits word e,
        )
        refl
