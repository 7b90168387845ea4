-- ===== src/Body/Capped.antt =====
-- How much of the output of a decompressor is read.
use hamsy_proxy.Shared.{
  ℕ, ◌+◌, ◌≤◌, ◌<◌, leb, ◌≡◌, ◌⊎◌, inl, inr, Bool, true, false, length, take, length-take_of_more,
  take-take, ok, arith, Bool-cases, Option-cases,
}
use hamsy_proxy.Shared.Words.{u64_max, saturating_add}
use hamsy_proxy.Shared.Text.{Text}
use hamsy_proxy.Body.{Reader, read_up_to, capped, read_capped}

saturating_add_below : (n : ℕ) → n < u64_max → saturating_add n 1 ≡ n + 1
unfolding saturating_add
saturating_add_below n h = omega arith

-- What is read from a decompressor: all of its output, which fits the cap; or, with the flag set,
-- the beginning of its output up to the cap, and then there was more. The cap is below the largest
-- word.
pub read_capped-cases :
    (reader : Reader) (max_output : ℕ) (codec out : Text) (hit_cap : Bool)
    → max_output < u64_max
    → read_capped reader max_output codec ≡ ok (out, hit_cap)
    → ((hit_cap ≡ false) × (out ≡ reader.output) × (length (reader.output) ≤ max_output))
      ⊎ ((hit_cap ≡ true)
          × (out ≡ take max_output (reader.output))
          × (max_output < length (reader.output)))
unfolding read_capped read_up_to capped
read_capped-cases reader max_output codec out hit_cap word h =
    elim (Bool-cases (leb (max_output + 1) (length (reader.output)))) [
      | inl more ↦ inr (
        ground (
          arith,
          saturating_add_below max_output word,
          length-take_of_more (max_output + 1) (reader.output),
        ),
        ground (
          arith,
          saturating_add_below max_output word,
          length-take_of_more (max_output + 1) (reader.output),
          take-take max_output (max_output + 1) (reader.output),
        ),
        ground arith,
      )
      | inr fits ↦ elim (Option-cases (reader.failure)) [
        | inl fine ↦ inl (
          ground (arith, saturating_add_below max_output word),
          ground (arith, saturating_add_below max_output word),
          ground arith,
        )
        | inr (e, broken) ↦ absurd (ground (arith, saturating_add_below max_output word))
      ]
    ]
