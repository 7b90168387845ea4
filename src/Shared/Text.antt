-- ===== src/Shared/Text.antt =====
-- A `String` of the source is its bytes, a list of numbers; the methods of `str` on them.
use Prim.Native.Char.{code}
use Prim.Native.String.{String}
use Prim.Native.Nat.{ℕ, zero, suc, ◌+◌, ◌-◌}
use mathlib.Core.Path.{◌≡◌, refl}
use mathlib.Core.Logic.{◌↔◌}
use mathlib.Core.Bool.{Bool, true, false, ◌&&◌, ◌||◌}
use mathlib.Core.Option.{Option, none, some}
use mathlib.Core.List.{List, [], ◌∷◌, ◌++◌, map, reverse}
use native.Mathlib.Omega.{arith}
use hamsy_proxy.Shared.Tests.{ltb, leb, ◌==◌, if◌then◌else◌}
use hamsy_proxy.Shared.Lists.{length, drop}

abbrev pub Text : Type 0
Text = List ℕ

-- An ASCII literal.
abbrev pub text : String → Text
text String.[] = []
text (String.◌∷◌ c s) = code c ∷ text s

unfoldable pub text_eq : Text → Text → Bool
text_eq [] [] = true
text_eq (a ∷ s) (b ∷ t) = (a == b) && text_eq s t
text_eq s t = false

pub text_eq_refl : (s : Text) → text_eq s s ≡ true
unfolding text_eq
text_eq_refl [] = refl
text_eq_refl (a ∷ s) = ground (arith, text_eq_refl s)

eq-of_text_eq : (s t : Text) → text_eq s t ≡ true → s ≡ t
unfolding text_eq
eq-of_text_eq [] [] h = refl
eq-of_text_eq [] (b ∷ t) h = cc
eq-of_text_eq (a ∷ s) [] h = cc
eq-of_text_eq (a ∷ s) (b ∷ t) h = ground (arith, eq-of_text_eq s t)

-- The Boolean test decides equality.
pub text_eq_iff : (s t : Text) → (text_eq s t ≡ true) ↔ (s ≡ t)
text_eq_iff s t = (eq-of_text_eq s t, λ e. rw e (text_eq_refl t))

pub text_eq_comm : (s t : Text) → text_eq s t ≡ text_eq t s
unfolding text_eq
text_eq_comm [] [] = refl
text_eq_comm [] (b ∷ t) = refl
text_eq_comm (a ∷ s) [] = refl
text_eq_comm (a ∷ s) (b ∷ t) = ground (arith, text_eq_comm s t)

-- `u8::to_ascii_lowercase`
unfoldable pub lower : ℕ → ℕ
lower c = if leb b'A' c && leb c b'Z' then c + 32 else c

unfoldable pub to_ascii_lowercase : Text → Text
unfolding lower
to_ascii_lowercase s = map lower s

unfoldable pub eq_ignore_ascii_case : Text → Text → Bool
unfolding text_eq to_ascii_lowercase
eq_ignore_ascii_case s t = text_eq (to_ascii_lowercase s) (to_ascii_lowercase t)

unfoldable pub starts_with : Text → Text → Bool
starts_with s [] = true
starts_with [] (b ∷ p) = false
starts_with (a ∷ s) (b ∷ p) = (a == b) && starts_with s p

unfoldable pub ends_with : Text → Text → Bool
unfolding starts_with
ends_with s p = starts_with (reverse s) (reverse p)

unfoldable pub contains : Text → Text → Bool
unfolding starts_with
contains [] p = starts_with [] p
contains (a ∷ s) p = starts_with (a ∷ s) p || contains s p

unfoldable pub strip_suffix : Text → Text → Option Text
unfolding starts_with
strip_suffix s p =
    if starts_with (reverse s) (reverse p)
    then some (reverse (drop (length p) (reverse s)))
    else none

-- `split_once` at a one-byte separator
unfoldable pub split_once : Text → ℕ → Option (Text × Text)
split_once [] sep = none
split_once (a ∷ s) sep =
    let rest = split_once s sep in
    if a == sep then some ([], s) else elim rest [ none ↦ none | some (l, r) ↦ some (a ∷ l, r) ]

-- The first piece of `split` at one of several one-byte separators.
unfoldable pub before : (ℕ → Bool) → Text → Text
before is_sep [] = []
before is_sep (a ∷ s) = let rest = before is_sep s in if is_sep a then [] else a ∷ rest

-- The UTF-8 forms of the code points with the property White_Space.
abbrev whitespace_3 : ℕ → ℕ → ℕ → Bool
whitespace_3 a b c =
    (a == 0xe1 && b == 0x9a && c == 0x80)
    || (a == 0xe2 && b == 0x80 && (leb 0x80 c && leb c 0x8a || c == 0xa8 || c == 0xa9 || c == 0xaf))
    || (a == 0xe2 && b == 0x81 && c == 0x9f)
    || (a == 0xe3 && b == 0x80 && c == 0x80)

-- How many bytes the whitespace character at the front has; 0 if there is none.
whitespace_len : Text → ℕ
whitespace_len [] = 0
whitespace_len (a ∷ []) = if leb 9 a && leb a 13 || a == 32 then 1 else 0
whitespace_len (a ∷ b ∷ []) =
    if leb 9 a && leb a 13 || a == 32
    then 1
    else if a == 0xc2 && (b == 0x85 || b == 0xa0)
    then 2
    else 0
whitespace_len (a ∷ b ∷ c ∷ s) =
    if leb 9 a && leb a 13 || a == 32
    then 1
    else if a == 0xc2 && (b == 0x85 || b == 0xa0)
    then 2
    else if whitespace_3 a b c
    then 3
    else 0

-- The same at the back of a text that is given backwards.
whitespace_len_back : Text → ℕ
whitespace_len_back [] = 0
whitespace_len_back (a ∷ []) = if leb 9 a && leb a 13 || a == 32 then 1 else 0
whitespace_len_back (a ∷ b ∷ []) =
    if leb 9 a && leb a 13 || a == 32
    then 1
    else if b == 0xc2 && (a == 0x85 || a == 0xa0)
    then 2
    else 0
whitespace_len_back (a ∷ b ∷ c ∷ s) =
    if leb 9 a && leb a 13 || a == 32
    then 1
    else if b == 0xc2 && (a == 0x85 || a == 0xa0)
    then 2
    else if whitespace_3 c b a
    then 3
    else 0

-- Skips the bytes of whitespace characters; the counter is what is left of the current one.
skip_whitespace : (Text → ℕ) → ℕ → Text → Text
skip_whitespace len k [] = []
skip_whitespace len (suc k) (a ∷ s) = skip_whitespace len k s
skip_whitespace len zero (a ∷ s) =
    let skipped = skip_whitespace len (len (a ∷ s) - 1) s in
    if len (a ∷ s) == 0 then a ∷ s else skipped

unfoldable pub trim : Text → Text
unfolding skip_whitespace whitespace_len whitespace_len_back
trim s =
    reverse (skip_whitespace whitespace_len_back 0 (reverse (skip_whitespace whitespace_len 0 s)))

-- `str::replace`: the matches from the left that do not overlap; an empty pattern matches at
-- each character boundary. The counter is what is left of the current match.
is_boundary : ℕ → Bool
is_boundary a = ltb a 0x80 || leb 0xc0 a

replace_from : Text → Text → ℕ → Text → Text
replace_from pat to k [] = []
replace_from pat to (suc k) (a ∷ s) = replace_from pat to k s
replace_from pat to zero (a ∷ s) =
    let matched = to ++ replace_from pat to (length pat - 1) s in
    let kept = a ∷ replace_from pat to zero s in if starts_with (a ∷ s) pat then matched else kept

insert_between : Text → Text → Text
insert_between to [] = to
insert_between to (a ∷ r) =
    let rest = a ∷ insert_between to r in if is_boundary a then to ++ rest else rest

unfoldable pub replace : Text → Text → Text → Text
unfolding replace_from insert_between is_boundary starts_with
replace s [] to = insert_between to s
replace s (b ∷ p) to = replace_from (b ∷ p) to zero s
