-- ===== src/Shared/Int.antt =====
-- Signed integers over the native numbers, and 64-bit subtraction with its wrap-around.
use Prim.Native.Nat.{ℕ, suc, ◌+◌, ◌-◌, ◌^◌, ◌≤◌}
use mathlib.Core.Bool.{Bool}
use hamsy_proxy.Shared.Tests.{ltb, leb, if◌then◌else◌}

-- `negsuc n` is -(n + 1).
pub data ℤ : Type 0 where
  pos : ℕ → ℤ
  negsuc : ℕ → ℤ

abbrev pub pos_part : ℤ → ℕ
pos_part (pos n) = n
pos_part (negsuc n) = 0

abbrev pub neg_part : ℤ → ℕ
neg_part (pos n) = 0
neg_part (negsuc n) = suc n

abbrev pub sub_ℕ : ℕ → ℕ → ℤ
sub_ℕ a b = if leb b a then pos (a - b) else negsuc (b - a - 1)

infix 50 ◌≤ℤ◌
abbrev pub ◌≤ℤ◌ : ℤ → ℤ → Type 0
a ≤ℤ b = pos_part a + neg_part b ≤ pos_part b + neg_part a

abbrev pub leb_ℤ : ℤ → ℤ → Bool
leb_ℤ a b = leb (pos_part a + neg_part b) (pos_part b + neg_part a)

-- `a - b` on `i64`, which wraps around.
unfoldable pub sub_i64 : ℤ → ℤ → ℤ
sub_i64 a b =
    let up = pos_part a + neg_part b in
    let down = neg_part a + pos_part b in
    if leb (down + 2 ^ 63) up
    then sub_ℕ up (down + 2 ^ 64)
    else if ltb (up + 2 ^ 63) down
    then sub_ℕ (up + 2 ^ 64) down
    else sub_ℕ up down
