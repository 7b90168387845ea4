-- ===== src/Shared/Split.antt =====
-- `str::split` at a one-byte separator.
use Prim.Native.Nat.{ℕ}
use mathlib.Core.List.{List, [], ◌∷◌}
use hamsy_proxy.Shared.Tests.{◌==◌, if◌then◌else◌}
use hamsy_proxy.Shared.Text.{Text}

-- A byte in front of the first piece.
abbrev onto_first : ℕ → List Text → List Text
onto_first c [] = (c ∷ []) ∷ []
onto_first c (piece ∷ pieces) = (c ∷ piece) ∷ pieces

unfoldable pub split : ℕ → Text → List Text
split sep [] = [] ∷ []
split sep (c ∷ s) =
    let pieces = split sep s in if c == sep then [] ∷ pieces else onto_first c pieces
