-- ===== src/Rules/Compile/Status.antt =====
-- `StatusMatcher::parse` and `StatusMatcher::matches`.
use hamsy_proxy.Shared.{
  ℕ, ◌+◌, ◌*◌, ◌/◌, ◌%◌, ◌^◌, ◌≤◌, ◌<◌, ◌≡◌, ◌↔◌, Bool, true, Option, none, some, ◌==◌, ◌&&◌, arith,
  leb,
}
use mathlib.Core.Option
use hamsy_proxy.Shared.Text.{Text, text, trim, strip_suffix, split_once}
use hamsy_proxy.Shared.Number.{parse_uint}

pub data StatusMatcher : Type 0 where
  exact : ℕ → StatusMatcher
  class : ℕ → StatusMatcher
  range : ℕ → ℕ → StatusMatcher

abbrev or_else {ℓ} : {A : Type ℓ} → Option A → Option A → Option A
or_else none b = b
or_else (some a) b = some a

parse_range : Option ℕ → Option ℕ → Option StatusMatcher
parse_range (some lo) (some hi) = some (range lo hi)
parse_range lo hi = none

parse_trimmed : Text → Option StatusMatcher
parse_trimmed spec =
    elim (or_else (strip_suffix spec (text "xx")) (strip_suffix spec (text "XX"))) [
      | some rest ↦ Option.map class (parse_uint (2 ^ 8) (trim rest))
      | none ↦ elim (split_once spec b'-') [
        | some (lo, hi) ↦
            parse_range (parse_uint (2 ^ 16) (trim lo)) (parse_uint (2 ^ 16) (trim hi))
        | none ↦ Option.map exact (parse_uint (2 ^ 16) spec)
      ]
    ]

unfoldable pub parse : Text → Option StatusMatcher
unfolding parse_trimmed parse_range strip_suffix split_once parse_uint trim
parse spec = parse_trimmed (trim spec)

-- The cast `(status / 100) as u8` keeps the low eight bits.
unfoldable pub matches : StatusMatcher → ℕ → Bool
matches (exact v) status = v == status
matches (class d) status = (status / 100) % 2 ^ 8 == d
matches (range lo hi) status = leb lo status && leb status hi

-- For a status of at most four digits the class is the hundreds.
pub matches-class :
    (d status : ℕ)
    → status < 10000
    → (matches (class d) status ≡ true) ↔ ((d * 100 ≤ status) × (status < d * 100 + 100))
unfolding matches
matches-class d status h = (λ e. ground arith, λ e. ground arith)
