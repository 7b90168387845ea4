-- ===== src/Body/Bounds.antt =====
-- How much of a decoded body a payload keeps.
use Prim.Native.Nat.{min}
use hamsy_proxy.Shared.{
  ℕ, zero, suc, ◌≤◌, leb, ◌≡◌, refl, ap, sym, ◌∙◌, ◌⊎◌, inl, inr, Bool, true, false, not, Option,
  [], ◌∷◌, ◌&&◌, length, take, is_empty, take_of_fits, length-take_of_more, take-take,
  if◌then◌else◌, arith, Bool-cases,
}
use hamsy_proxy.Shared.Words.{saturating_add}
use hamsy_proxy.Shared.Text.{Text}
use hamsy_proxy.Shared.Utf8.{Utf8, valid, cut_off, invalid, from_utf8, from_utf8_lossy_of_valid}
use hamsy_proxy.Flow.{BodyPayload}
use hamsy_proxy.Body.{Codecs, max_decode_output, decode_body}
use hamsy_proxy.Body.Payload.{
  is_valid_utf8, is_valid_text, has_control_bytes, boundary_before, is_text_content, cut_data,
  whole_payload, cut_payload, empty_payload, payload_of, decoded_or_raw, to_payload,
}

valid_of_is_valid_utf8 : (u : Utf8) → is_valid_utf8 u ≡ true → u ≡ valid
valid_of_is_valid_utf8 valid h = refl
valid_of_is_valid_utf8 cut_off h = absurd (ground arith)
valid_of_is_valid_utf8 invalid h = absurd (ground arith)

boundary_before_le : (prefix : Text) (end : ℕ) → boundary_before prefix end ≤ end
unfolding boundary_before
boundary_before_le prefix zero = omega arith
boundary_before_le prefix (suc end) = ground (arith, boundary_before_le prefix end)

boundary_step :
    (prefix : Text) (end : ℕ) (b : Bool)
    → is_valid_utf8 (from_utf8 (take (suc end) prefix)) ≡ b
    → from_utf8 (take (boundary_before prefix end) prefix) ≡ valid
    → from_utf8 (take (if b then suc end else boundary_before prefix end) prefix) ≡ valid
boundary_step prefix end true h below = valid_of_is_valid_utf8 _ h
boundary_step prefix end false h below = below

-- The loop stops at a character boundary.
boundary_before_valid :
    (prefix : Text) (end : ℕ) → from_utf8 (take (boundary_before prefix end) prefix) ≡ valid
unfolding boundary_before
boundary_before_valid prefix zero = refl
boundary_before_valid prefix (suc end) =
    boundary_step prefix end (is_valid_utf8 (from_utf8 (take (suc end) prefix))) refl
      (boundary_before_valid prefix end)

last_step :
    (prefix : Text) (end m : ℕ) (b : Bool)
    → is_valid_utf8 (from_utf8 (take (suc end) prefix)) ≡ b
    → m ≤ suc end
    → from_utf8 (take m prefix) ≡ valid
    → (m ≤ end → m ≤ boundary_before prefix end)
    → m ≤ (if b then suc end else boundary_before prefix end)
last_step prefix end m true e h v below = h
last_step prefix end m false e h v below = elim (Bool-cases (leb m end)) [
  | inl le ↦ below (ground arith)
  | inr more ↦
      let same : suc end ≡ m = ground arith in
      let whole = ap is_valid_utf8 (ap (λ k. from_utf8 (take k prefix)) same ∙ v) in
      absurd (ground (arith, e, whole))
]

-- No boundary comes behind the one the loop stops at.
boundary_before_last :
    (prefix : Text) (end m : ℕ)
    → m ≤ end
    → from_utf8 (take m prefix) ≡ valid
    → m ≤ boundary_before prefix end
unfolding boundary_before
boundary_before_last prefix zero m h v = h
boundary_before_last prefix (suc end) m h v =
    last_step prefix end m (is_valid_utf8 (from_utf8 (take (suc end) prefix))) refl h v
      (λ le. boundary_before_last prefix end m le v)

valid_of_is_valid_text :
    (u : Utf8) (other : Bool) → (is_valid_text u false && other) ≡ true → u ≡ valid
unfolding is_valid_text
valid_of_is_valid_text valid other h = refl
valid_of_is_valid_text cut_off other h = absurd (ground arith)
valid_of_is_valid_text invalid other h = absurd (ground arith)

valid_of_text :
    (content_type : Option Text) (decoded : Text)
    → is_text_content content_type decoded false ≡ true
    → from_utf8 decoded ≡ valid
unfolding is_text_content
valid_of_text content_type decoded h = valid_of_is_valid_text (from_utf8 decoded) _ h

text_of_empty : (content_type : Option Text) → is_text_content content_type [] false ≡ true
unfolding is_text_content is_valid_text has_control_bytes
text_of_empty content_type = ground arith

module _ (codecs : Codecs) where
  -- What a text payload stores: the longest beginning of the decoded body, of some bytes at most, that
  -- is valid UTF-8.
  abbrev pub StoresText : ℕ → Text → Text → Type 0
  StoresText limit decoded stored =
      (n : ℕ) × (n ≤ limit)
      × (stored ≡ take n decoded)
      × (from_utf8 (take n decoded) ≡ valid)
      × ((m : ℕ) → m ≤ limit → from_utf8 (take m decoded) ≡ valid → m ≤ n)

  -- What a payload stores of a decoded body that is text or not, and the size that it has.
  abbrev pub Stores : ℕ → Text → Bool → BodyPayload → Type 0
  Stores max_bytes decoded is_text p =
      (p.size ≡ length decoded)
      × (((is_text ≡ true) × StoresText (min (length decoded) max_bytes) decoded (p.payload.bytes))
          ⊎ ((is_text ≡ false)
              × (p.payload.bytes
                  ≡ codecs.base64_encode (take (min (length decoded) max_bytes) decoded))))

  whole_payload-Stores :
      (decoded : Text) (is_text : Bool) (encoding : Option Text) (max_bytes : ℕ)
      → (is_text ≡ true → from_utf8 decoded ≡ valid)
      → length decoded ≤ max_bytes
      → Stores max_bytes decoded is_text (whole_payload codecs decoded is_text encoding)
  unfolding whole_payload
  whole_payload-Stores decoded true encoding max_bytes v h =
      let all = take_of_fits (length decoded) decoded (omega arith) in
      (
        refl,
        inl (
          refl,
          (length decoded, omega arith, sym all, ap from_utf8 all ∙ v refl, λ m le u. omega arith),
        ),
      )
  whole_payload-Stores decoded false encoding max_bytes v h = (
    refl,
    inr (
      refl,
      ap (codecs.base64_encode)
          (sym (take_of_fits (min (length decoded) max_bytes) decoded (omega arith))),
    ),
  )

  cut_payload-Stores :
      (decoded : Text) (is_text : Bool) (max_bytes : ℕ) (encoding : Option Text)
      → Stores max_bytes decoded is_text (cut_payload codecs decoded is_text max_bytes encoding)
  unfolding cut_payload cut_data
  cut_payload-Stores decoded false max_bytes encoding = (refl, inr (refl, refl))
  cut_payload-Stores decoded true max_bytes encoding =
      let n = min (length decoded) max_bytes in
      let prefix = take n decoded in
      let len : length prefix ≡ n = length-take_of_more n decoded (omega arith) in
      let end = boundary_before prefix (length prefix) in
      let below : end ≤ n = omega (arith, len, boundary_before_le prefix (length prefix)) in
      let same : take end prefix ≡ take end decoded = take-take end n decoded below in
      (
        refl,
        inl (
          refl,
          (
            end,
            below,
            from_utf8_lossy_of_valid (take end prefix)
                  (boundary_before_valid prefix (length prefix))
                ∙ same,
            ap from_utf8 (sym same) ∙ boundary_before_valid prefix (length prefix),
            λ m le u.
                boundary_before_last prefix (length prefix) m (omega (arith, len, le))
                  (ap from_utf8 (take-take m n decoded le) ∙ u),
          ),
        ),
      )

  if-Stores :
      (max_bytes : ℕ) (decoded : Text) (is_text b : Bool) (x y : BodyPayload)
      → (b ≡ true → Stores max_bytes decoded is_text x)
      → (b ≡ false → Stores max_bytes decoded is_text y)
      → Stores max_bytes decoded is_text (if b then x else y)
  if-Stores max_bytes decoded is_text true x y h k = h refl
  if-Stores max_bytes decoded is_text false x y h k = k refl

  empty_payload-Stores :
      (content_type encoding : Option Text) (max_bytes : ℕ) (decoded : Text) (cut : Bool)
      → (is_empty decoded && not cut) ≡ true
      → Stores max_bytes decoded
          (is_text_content content_type decoded cut)
          (empty_payload codecs encoding)
  unfolding empty_payload from_utf8
  empty_payload-Stores content_type encoding max_bytes [] false e =
      (refl, inl (text_of_empty content_type, (0, omega arith, refl, refl, λ m le u. omega arith)))
  empty_payload-Stores content_type encoding max_bytes [] true e = absurd (ground arith)
  empty_payload-Stores content_type encoding max_bytes (b ∷ decoded) cut e = absurd (ground arith)

  text_if_whole :
      (content_type : Option Text) (decoded : Text) (fits cut : Bool)
      → (fits && not cut) ≡ true
      → is_text_content content_type decoded cut ≡ true
      → from_utf8 decoded ≡ valid
  text_if_whole content_type decoded fits false h t = valid_of_text content_type decoded t
  text_if_whole content_type decoded fits true h t = absurd (ground arith)

  payload_of-Stores :
      (content_type encoding : Option Text) (max_bytes : ℕ) (decoded : Text) (cut : Bool)
      → Stores max_bytes decoded
          (is_text_content content_type decoded cut)
          (payload_of codecs content_type encoding max_bytes (decoded, cut))
  unfolding payload_of
  payload_of-Stores content_type encoding max_bytes decoded cut =
      let is_text = is_text_content content_type decoded cut in
      let fits = leb (length decoded) max_bytes in
      let whole = whole_payload codecs decoded is_text encoding in
      let part = cut_payload codecs decoded is_text max_bytes encoding in
      if-Stores max_bytes decoded is_text (is_empty decoded && not cut) _ _
        (λ e. empty_payload-Stores content_type encoding max_bytes decoded cut e)
        (λ e.
          if-Stores max_bytes decoded is_text (fits && not cut) whole part
            (λ h.
              whole_payload-Stores decoded is_text encoding max_bytes
                (text_if_whole content_type decoded fits cut h) (ground arith))
            (λ more. cut_payload-Stores decoded is_text max_bytes encoding))

  -- A payload has the size of the decoded body. Where `is_text_content` finds text, it stores the
  -- longest beginning of the decoded body of at most `max_bytes` bytes that is valid UTF-8; where not,
  -- base64 of the first `max_bytes` bytes, or of all of them. The decoding is cut off at three bytes
  -- more.
  pub to_payload-Stores :
      (bytes : Text) (content_type content_encoding : Option Text) (max_bytes : ℕ)
      → let decoded = decoded_or_raw codecs bytes (
          decode_body codecs bytes content_encoding
            (min (saturating_add max_bytes 3) max_decode_output)) in
        Stores max_bytes
          (decoded.0)
          (is_text_content content_type (decoded.0) (decoded.1))
          (to_payload codecs bytes content_type content_encoding max_bytes)
  unfolding to_payload
  to_payload-Stores bytes content_type content_encoding max_bytes =
      payload_of-Stores content_type content_encoding max_bytes _ _
