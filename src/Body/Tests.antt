-- ===== src/Body/Tests.antt =====
-- The codings and payloads on sample bodies, with a codec that marks what it compressed.
use mathlib.Core.List.{[], ◌∷◌}
use hamsy_proxy.Shared.{ℕ, ◌≡◌, refl, ap, true, false, none, some, length, Result, ok, arith}
use hamsy_proxy.Shared.Text.{Text, text}
use hamsy_proxy.Body.{Codecs, read_capped, decode_body}
use hamsy_proxy.Body.Payload.{to_payload, from_payload}
use hamsy_proxy.Body.Bounds.{Stores, to_payload-Stores}
use hamsy_proxy.Body.RoundTrip.{whole, IsLossless, from_payload-to_payload, decode_body-encode_body}

abbrev unmarked : Text → Text
unmarked [] = []
unmarked (mark ∷ bytes) = bytes

abbrev marked : ℕ → Text → Result Text Text
marked mark b = ok (mark ∷ b)

abbrev sample : Codecs
sample = record {
  gz_decoder = λ z. whole (unmarked z);
  zlib_decoder = λ z. whole (unmarked z);
  deflate_decoder = λ z. whole z;
  brotli_decompressor = λ z. whole (unmarked z);
  zstd_decoder = λ z. ok (whole (unmarked z));
  gz_encode = marked 1;
  zlib_encode = marked 2;
  brotli_compress = marked 3;
  zstd_encode_all = marked 4;
  base64_encode = λ b. 5 ∷ b;
  base64_decode = λ b. some (unmarked b);
  allocated = length;
}

unmarked_of_marked : (mark : ℕ) (b z : Text) → marked mark b ≡ ok z → whole (unmarked z) ≡ whole b
unmarked_of_marked mark b z e = ground arith

sample-IsLossless : IsLossless sample
sample-IsLossless = record {
  gz = unmarked_of_marked 1;
  zlib = unmarked_of_marked 2;
  brotli = unmarked_of_marked 3;
  zstd = λ b z e. ap ok (unmarked_of_marked 4 b z e);
}

to_payload-Stores_example :
    Stores sample 2
      (text "abc")
      true
      (to_payload sample (1 ∷ text "abc") none (some (text "gzip")) 2)
unfolding decode_body hamsy_proxy.Body.Payload.is_text_content
to_payload-Stores_example = to_payload-Stores sample (1 ∷ text "abc") none (some (text "gzip")) 2

from_payload-to_payload_example :
    (false ≡ false)
    × (from_payload sample (to_payload sample (1 ∷ text "abc") none (some (text "gzip")) 5)
        ≡ text "abc")
unfolding to_payload
from_payload-to_payload_example =
    from_payload-to_payload sample (1 ∷ text "abc") none (some (text "gzip")) 5 (λ b. refl) refl

decode_body-encode_body_example :
    decode_body sample (2 ∷ text "abc") (some (text " Deflate ")) 5 ≡ ok (text "abc", false)
unfolding hamsy_proxy.Body.codings hamsy_proxy.Body.encode_body
decode_body-encode_body_example =
    decode_body-encode_body sample (text "abc") (text " Deflate ") (2 ∷ text "abc") 5
      sample-IsLossless refl (λ e. absurd (ground arith)) (omega arith) (omega arith) refl

-- Two codings are undone from the last; the cap counts at the last stage.
two_codings :
    decode_body sample (4 ∷ 1 ∷ text "abc") (some (text "gzip, zstd")) 2 ≡ ok (text "ab", true)
unfolding decode_body
two_codings = refl

-- Without a coding nothing is cut.
identity_uncapped :
    decode_body sample (text "abc") (some (text "identity")) 2 ≡ ok (text "abc", false)
unfolding decode_body
identity_uncapped = refl
