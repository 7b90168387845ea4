-- ===== src/JsonPatch/RoundTrip.antt =====
-- `parse_path` reads back a path that is written with a dot before each key and brackets round
-- each index.
use Prim.Native.Nat.{◌<◌}
use mathlib.Core.List.{append_assoc, append-nil}
use hamsy_proxy.Shared.{
  ℕ, ◌+◌, ◌-◌, ◌*◌, ◌^◌, ◌≡◌, ◌≢◌, refl, sym, ap, ◌∙◌, some, List, [], ◌∷◌, ◌++◌, ◌⊎◌, arith, inl,
  inr,
}
use hamsy_proxy.Shared.Text.{Text}
use hamsy_proxy.Shared.Number.{
  read_digits, to_decimal, read_digits-to_decimal, parse_uint-to_decimal,
}
use hamsy_proxy.JsonPatch.Path.{
  PathSegment, key, index, flush_key, push_index, parse_outside, parse_inside, parse_path,
}

abbrev pub print_path : List PathSegment → Text
print_path [] = []
print_path (key k ∷ rest) = b'.' ∷ k ++ print_path rest
print_path (index i ∷ rest) = b'[' ∷ to_decimal i ++ b']' ∷ print_path rest

-- The bytes of a key hold no dot and no opening bracket.
abbrev pub IsPlain : Text → Type 0
IsPlain [] = Unit
IsPlain (c ∷ s) = (c ≢ b'.') × (c ≢ b'[') × IsPlain s

-- Keys are plain and not empty, and indices fit the machine word.
abbrev pub IsPrintable : List PathSegment → Type 0
IsPrintable [] = Unit
IsPrintable (key k ∷ rest) = (k ≢ []) × IsPlain k × IsPrintable rest
IsPrintable (index i ∷ rest) = (i < 2 ^ 64) × IsPrintable rest

parse_outside-key :
    (segs : List PathSegment) (current k rest : Text)
    → IsPlain k
    → parse_outside segs current (k ++ rest) ≡ parse_outside segs (current ++ k) rest
unfolding parse_outside
parse_outside-key segs current [] rest h = rw append-nil
parse_outside-key segs current (c ∷ k) rest h =
    step
    ∙ parse_outside-key segs (current ++ c ∷ []) k rest (h.2)
    ∙ ap (λ t. parse_outside segs t rest) (append_assoc current (c ∷ []) k)
  where
    step :
        parse_outside segs current (c ∷ k ++ rest)
        ≡ parse_outside segs (current ++ c ∷ []) (k ++ rest)
    step = ground arith

parse_inside-digits :
    (segs : List PathSegment) (idx s rest : Text) (acc n : ℕ)
    → read_digits acc s ≡ some n
    → parse_inside segs idx (s ++ b']' ∷ rest) ≡ parse_outside (push_index segs (idx ++ s)) [] rest
unfolding parse_inside read_digits
parse_inside-digits segs idx [] rest acc n h = rw append-nil
parse_inside-digits segs idx (c ∷ s) rest acc n h =
    step
    ∙ parse_inside-digits segs (idx ++ c ∷ []) s rest (acc * 10 + (c - b'0')) n (ground arith)
    ∙ ap (λ t. parse_outside (push_index segs t) [] rest) (append_assoc idx (c ∷ []) s)
  where
    step :
        parse_inside segs idx (c ∷ s ++ b']' ∷ rest)
        ≡ parse_inside segs (idx ++ c ∷ []) (s ++ b']' ∷ rest)
    step = ground arith

-- A text that begins a new segment, or ends.
abbrev StartsSegment : Text → Type 0
StartsSegment [] = Unit
StartsSegment (c ∷ s) = (c ≡ b'.') ⊎ (c ≡ b'[')

StartsSegment-print_path : (path : List PathSegment) → StartsSegment (print_path path)
StartsSegment-print_path [] = tt
StartsSegment-print_path (key k ∷ rest) = inl refl
StartsSegment-print_path (index i ∷ rest) = inr refl

-- What was read of a key is closed by whatever begins the next segment.
parse_outside-flush :
    (segs : List PathSegment) (current rest : Text)
    → StartsSegment rest
    → parse_outside segs current rest ≡ parse_outside (flush_key segs current) [] rest
unfolding parse_outside
parse_outside-flush segs current [] h = refl
parse_outside-flush segs current (c ∷ s) h = ground arith

push_index-to_decimal :
    (segs : List PathSegment) (i : ℕ)
    → i < 2 ^ 64
    → push_index segs (to_decimal i) ≡ segs ++ index i ∷ []
push_index-to_decimal segs i h = rw (parse_uint-to_decimal (2 ^ 64) i h, push_index) refl

parse_outside-print_path :
    (segs path : List PathSegment)
    → IsPrintable path
    → parse_outside segs [] (print_path path) ≡ segs ++ path
unfolding parse_outside
parse_outside-print_path segs [] h = sym (append-nil segs)
parse_outside-print_path segs (key [] ∷ rest) h = absurd (h.0 refl)
parse_outside-print_path segs (key (c ∷ k) ∷ rest) h =
    parse_outside-key segs [] (c ∷ k) (print_path rest) (h.1)
    ∙ parse_outside-flush segs (c ∷ k) (print_path rest) (StartsSegment-print_path rest)
    ∙ parse_outside-print_path (segs ++ key (c ∷ k) ∷ []) rest (h.2)
    ∙ append_assoc segs (key (c ∷ k) ∷ []) rest
parse_outside-print_path segs (index i ∷ rest) h =
    parse_inside-digits segs [] (to_decimal i) (print_path rest) 0 i (read_digits-to_decimal i)
    ∙ ap (λ t. parse_outside t [] (print_path rest)) (push_index-to_decimal segs i (h.0))
    ∙ parse_outside-print_path (segs ++ index i ∷ []) rest (h.1)
    ∙ append_assoc segs (index i ∷ []) rest

-- A printable path that is printed parses to itself.
pub parse_path-print_path :
    (path : List PathSegment) → IsPrintable path → parse_path (print_path path) ≡ path
unfolding parse_path
parse_path-print_path path h = parse_outside-print_path [] path h
