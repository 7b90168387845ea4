-- ===== src/Rules/Headers.antt =====
-- `header_lookup`, `set_header` and `remove_header`, and what a lookup finds after them.
use hamsy_proxy.Shared.{
  ◌≡◌, refl, ◌∙◌, Bool, true, false, not, List, [], ◌∷◌, ◌++◌, map, ◌==◌, arith, length, filter,
  filter_of_length-eq, if◌then◌else◌,
}
use hamsy_proxy.Shared.Text.{Text, to_ascii_lowercase, text_eq_iff, eq_ignore_ascii_case}
use hamsy_proxy.Flow.{HeaderPair}
use mathlib.Core.List.{append-nil}

-- Whether a header has the name, letters of either case being the same.
unfoldable pub named : Text → HeaderPair → Bool
unfolding eq_ignore_ascii_case
named name h = eq_ignore_ascii_case (h.name) name

unfoldable pub header_lookup : List HeaderPair → Text → List Text
unfolding named
header_lookup headers name = map (λ h. h.value) (filter (named name) headers)

unfoldable pub set_header : List HeaderPair → Text → Text → List HeaderPair
unfolding named
set_header headers name value =
    filter (λ h. not (named name h)) headers ++ record { name = name; value = value } ∷ []

-- The headers that are left, and whether any was removed.
unfoldable pub remove_header : List HeaderPair → Text → List HeaderPair × Bool
unfolding named
remove_header headers name =
    let left = filter (λ h. not (named name h)) headers in
    (left, not (length left == length headers))

named-comm_of :
    (h : HeaderPair) (a b : Text) → eq_ignore_ascii_case a b ≡ true → named a h ≡ named b h
unfolding named eq_ignore_ascii_case
named-comm_of h a b e = rw ((text_eq_iff (to_ascii_lowercase a) (to_ascii_lowercase b)).0 e)

named_exclusive :
    (h : HeaderPair) (a b : Text)
    → eq_ignore_ascii_case a b ≡ false
    → named a h ≡ true
    → named b h ≡ false
unfolding named eq_ignore_ascii_case
named_exclusive h a b e e' = ground (
  arith,
  text_eq_iff (to_ascii_lowercase (h.name)) (to_ascii_lowercase a),
  text_eq_iff (to_ascii_lowercase (h.name)) (to_ascii_lowercase b),
  text_eq_iff (to_ascii_lowercase a) (to_ascii_lowercase b),
)

-- With the headers of a name dropped, a lookup of the name finds nothing and one of another name
-- finds what it found.
header_lookup-drop :
    (headers : List HeaderPair) (name other : Text)
    → header_lookup (filter (λ h. not (named name h)) headers) other
      ≡ (if eq_ignore_ascii_case name other then [] else header_lookup headers other)
unfolding header_lookup
header_lookup-drop [] name other = ground arith
header_lookup-drop (h ∷ hs) name other = ground (
  arith,
  named-comm_of h name other,
  named_exclusive h name other,
  header_lookup-drop hs name other,
)

header_lookup-append :
    (xs : List HeaderPair) (h : HeaderPair) (name : Text)
    → header_lookup (xs ++ h ∷ []) name
      ≡ header_lookup xs name ++ (if named name h then h.value ∷ [] else [])
unfolding header_lookup
header_lookup-append [] h name = ground arith
header_lookup-append (x ∷ xs) h name = ground (arith, header_lookup-append xs h name)

named_of_record :
    (name value other : Text)
    → named other (record { name = name; value = value }) ≡ eq_ignore_ascii_case name other
unfolding named
named_of_record name value other = refl

-- After `set_header` the name has exactly the new value, whatever the letters' case, and every
-- other name keeps its values in order.
pub header_lookup-set_header :
    (headers : List HeaderPair) (name value other : Text)
    → header_lookup (set_header headers name value) other
      ≡ (if eq_ignore_ascii_case name other then value ∷ [] else header_lookup headers other)
unfolding set_header
header_lookup-set_header headers name value other =
    header_lookup-append _ (record { name = name; value = value }) other
    ∙ ground (
      arith,
      header_lookup-drop headers name other,
      named_of_record name value other,
      append-nil (header_lookup headers other),
    )

-- After `remove_header` the name has no value, and every other name keeps its values.
pub header_lookup-remove_header :
    (headers : List HeaderPair) (name other : Text)
    → header_lookup ((remove_header headers name).0) other
      ≡ (if eq_ignore_ascii_case name other then [] else header_lookup headers other)
unfolding remove_header
header_lookup-remove_header headers name other = header_lookup-drop headers name other

-- `remove_header` reports no removal only where it leaves the headers as they are.
pub remove_header_unchanged :
    (headers : List HeaderPair) (name : Text)
    → (remove_header headers name).1 ≡ false
    → (remove_header headers name).0 ≡ headers
unfolding remove_header
remove_header_unchanged headers name h =
    filter_of_length-eq (λ x. not (named name x)) headers (ground arith)
