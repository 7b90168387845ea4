-- ===== src/Shared/Utf8.antt =====
-- `String::from_utf8_lossy`: each maximal invalid part becomes U+FFFD.
use Prim.Native.Nat.{ℕ}
use mathlib.Core.Bool.{true, false, ◌&&◌}
use mathlib.Core.Option.{Option, none, some}
use mathlib.Core.Logic.{inl, inr}
use mathlib.Core.Path.{◌≡◌, refl, ap, ◌∙◌}
use native.Mathlib.Omega.{arith}
use mathlib.Core.List.{List, [], ◌∷◌, ◌++◌, append-nil, append_assoc}
use hamsy_proxy.Shared.Tests.{Bool-cases, ltb, leb, ◌==◌, if◌then◌else◌}
use hamsy_proxy.Shared.Text.{Text}

abbrev replacement : Text
replacement = 0xef ∷ 0xbf ∷ 0xbd ∷ []

-- The ranges that the bytes after a first byte must lie in.
expected : ℕ → List (ℕ × ℕ)
expected b =
    if leb 0xc2 b && leb b 0xdf
    then (0x80, 0xbf) ∷ []
    else if b == 0xe0
    then (0xa0, 0xbf) ∷ (0x80, 0xbf) ∷ []
    else if b == 0xed
    then (0x80, 0x9f) ∷ (0x80, 0xbf) ∷ []
    else if leb 0xe1 b && leb b 0xef
    then (0x80, 0xbf) ∷ (0x80, 0xbf) ∷ []
    else if b == 0xf0
    then (0x90, 0xbf) ∷ (0x80, 0xbf) ∷ (0x80, 0xbf) ∷ []
    else if leb 0xf1 b && leb b 0xf3
    then (0x80, 0xbf) ∷ (0x80, 0xbf) ∷ (0x80, 0xbf) ∷ []
    else if b == 0xf4
    then (0x80, 0x8f) ∷ (0x80, 0xbf) ∷ (0x80, 0xbf) ∷ []
    else []

pub record Decoder : Type 0 where
  -- the bytes of the character that is being read
  pub pending : Text
  pub ranges : List (ℕ × ℕ)
  pub out : Text

-- A byte where no character is being read.
first_byte : ℕ → Text → Decoder
first_byte b out =
    if ltb b 0x80
    then record { pending = []; ranges = []; out = out ++ b ∷ [] }
    else elim (expected b) [
      | [] ↦ record { pending = []; ranges = []; out = out ++ replacement }
      | r ∷ rs ↦ record { pending = b ∷ []; ranges = r ∷ rs; out = out }
    ]

next_byte : ℕ → List (ℕ × ℕ) → Text → Text → Decoder
next_byte b [] pending out = first_byte b out
next_byte b ((lo, hi) ∷ []) pending out =
    if leb lo b && leb b hi
    then record { pending = []; ranges = []; out = out ++ pending ++ b ∷ [] }
    else first_byte b (out ++ replacement)
next_byte b ((lo, hi) ∷ r ∷ rs) pending out =
    if leb lo b && leb b hi
    then record { pending = pending ++ b ∷ []; ranges = r ∷ rs; out = out }
    else first_byte b (out ++ replacement)

decode : Text → Decoder → Decoder
decode [] d = d
decode (b ∷ s) d = decode s (next_byte b d.ranges d.pending d.out)

flush : Decoder → Text
flush d = elim d.ranges [ [] ↦ d.out | r ∷ rs ↦ d.out ++ replacement ]

unfoldable pub from_utf8_lossy : Text → Text
unfolding decode next_byte first_byte expected flush
from_utf8_lossy s = flush (decode s (record { pending = []; ranges = []; out = [] }))

-- What is still expected after some bytes; `none` if they are not the beginning of UTF-8.
unfoldable pub scan : Text → List (ℕ × ℕ) → Option (List (ℕ × ℕ))
unfolding expected
scan [] ranges = some ranges
scan (b ∷ s) [] =
    let rest = scan s [] in
    if ltb b 0x80 then rest else elim (expected b) [ [] ↦ none | r ∷ rs ↦ scan s (r ∷ rs) ]
scan (b ∷ s) ((lo, hi) ∷ rs) = let rest = scan s rs in if leb lo b && leb b hi then rest else none

-- `str::from_utf8`: valid, an error at a character that is cut off at the end (`error_len` is
-- `None`), or another error.
pub data Utf8 : Type 0 where
  valid cut_off invalid : Utf8

verdict : Option (List (ℕ × ℕ)) → Utf8
verdict none = invalid
verdict (some []) = valid
verdict (some (r ∷ rs)) = cut_off

unfoldable pub from_utf8 : Text → Utf8
unfolding scan verdict
from_utf8 s = verdict (scan s [])

-- The first byte of a character of several bytes.
decode-first_byte :
    (b : ℕ) (s out : Text) (e : List (ℕ × ℕ))
    → expected b ≡ e
    → ltb b 0x80 ≡ false
    → scan (b ∷ s) [] ≡ some []
    → ((r : ℕ × ℕ) (rs : List (ℕ × ℕ))
        → scan s (r ∷ rs) ≡ some []
        → flush (decode s (record { pending = b ∷ []; ranges = r ∷ rs; out = out }))
          ≡ out ++ b ∷ [] ++ s)
    → flush (decode s (first_byte b out)) ≡ out ++ b ∷ s
unfolding scan first_byte
decode-first_byte b s out [] e big h ih = absurd (ground arith)
decode-first_byte b s out (r ∷ rs) e big h ih =
    rw (big, e, first_byte) (ih r rs (ground arith) ∙ append_assoc out (b ∷ []) s)

scan_of_ascii :
    (b : ℕ) (s : Text) → ltb b 0x80 ≡ true → scan (b ∷ s) [] ≡ some [] → scan s [] ≡ some []
unfolding scan
scan_of_ascii b s small h = cc

decode-ascii :
    (b : ℕ) (s out : Text)
    → ltb b 0x80 ≡ true
    → flush (decode s (record { pending = []; ranges = []; out = out ++ b ∷ [] }))
      ≡ out ++ b ∷ [] ++ [] ++ s
    → flush (decode s (first_byte b out)) ≡ out ++ b ∷ s
unfolding first_byte
decode-ascii b s out small ih =
    rw (small, first_byte)
      (ih ∙ ap (λ t. t ++ s) (append-nil (out ++ b ∷ [])) ∙ append_assoc out (b ∷ []) s)

-- On valid UTF-8 the decoder replaces nothing.
decode-scan :
    (s : Text) (ranges : List (ℕ × ℕ)) (pending out : Text)
    → scan s ranges ≡ some []
    → (ranges ≡ [] → pending ≡ [])
    → flush (decode s (record { pending = pending; ranges = ranges; out = out }))
      ≡ out ++ pending ++ s
unfolding scan decode flush next_byte
decode-scan [] [] pending out h p = ground (arith, p refl, append-nil out, append-nil (out ++ []))
decode-scan [] (r ∷ rs) pending out h p = absurd (ground arith)
decode-scan (b ∷ s) [] pending out h p = elim (Bool-cases (ltb b 0x80)) [
  | inl small ↦
      decode-ascii b s out small
        (decode-scan s [] [] (out ++ b ∷ []) (scan_of_ascii b s small h) (λ e. refl))
      ∙ ground (arith, p refl, append-nil out)
  | inr big ↦
      decode-first_byte b s out (expected b) refl big h
        (λ r rs h'. decode-scan s (r ∷ rs) (b ∷ []) out h' (λ e. absurd (ground arith)))
      ∙ ground (arith, p refl, append-nil out)
]
decode-scan (b ∷ s) ((lo, hi) ∷ []) pending out h p = ground (
  arith,
  decode-scan s [] [] (out ++ pending ++ b ∷ []),
  append_assoc (out ++ pending) (b ∷ []) s,
  append-nil (out ++ pending ++ b ∷ []),
)
decode-scan (b ∷ s) ((lo, hi) ∷ r ∷ rs) pending out h p = ground (
  arith,
  decode-scan s (r ∷ rs) (pending ++ b ∷ []) out,
  append_assoc (out ++ pending) (b ∷ []) s,
  append_assoc out pending (b ∷ []),
)

-- Valid UTF-8 stays as it is.
pub from_utf8_lossy_of_valid : (s : Text) → from_utf8 s ≡ valid → from_utf8_lossy s ≡ s
unfolding from_utf8 from_utf8_lossy
from_utf8_lossy_of_valid s h = decode-scan s [] [] [] (scan_of_verdict (scan s []) h) (λ e. refl)
  where
    scan_of_verdict : (r : Option (List (ℕ × ℕ))) → verdict r ≡ valid → r ≡ some []
    scan_of_verdict none e = absurd (ground arith)
    scan_of_verdict (some []) e = refl
    scan_of_verdict (some (x ∷ xs)) e = absurd (ground arith)
