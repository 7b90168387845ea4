-- ===== src/Shared/Words.antt =====
-- The bounds of the machine words that the source uses.
use Prim.Native.Nat.{ℕ, ◌+◌, ◌-◌, ◌^◌, min}

abbrev pub u64_mod : ℕ
u64_mod = 2 ^ 64

abbrev pub u64_max : ℕ
u64_max = 2 ^ 64 - 1

-- `u64::saturating_add`
unfoldable pub saturating_add : ℕ → ℕ → ℕ
saturating_add a b = min (a + b) u64_max
