-- ===== src/ClientHello/Enough.antt =====
-- The fuel of the loops of the parser is enough, so that they end by themselves.
use hamsy_proxy.Shared.{
  ℕ, zero, suc, ◌≤◌, ◌<◌, ◌≡◌, ◌≢◌, refl, ap, leb, Bool, unwrap_or, if◌then◌else◌, true, false,
  Option, none, some, List, [], ◌∷◌, length, take, drop, is_some, arith,
}
use mathlib.Core.Option
use hamsy_proxy.Shared.Text.{Text}
use hamsy_proxy.ClientHello.{
  ClientHelloInfo, take_bytes, protocols, extension_head, extensions, with_extension,
}

length-drop_le : (n : ℕ) (c : Text) → length (drop n c) ≤ length c
length-drop_le zero c = omega arith
length-drop_le (suc n) [] = omega arith
length-drop_le (suc n) (b ∷ c) = omega (arith, length-drop_le n c)

taken_of_some : (b : Bool) (x p : Text × Text) → (if b then some x else none) ≡ some p → x.1 ≡ p.1
taken_of_some true x p h = ap (λ o. (unwrap_or o x).1) h
taken_of_some false x p h = absurd (ground arith)

take_bytes-le :
    (n : ℕ) (c : Text) (p : Text × Text) → take_bytes n c ≡ some p → length (p.1) ≤ length c
unfolding take_bytes
take_bytes-le n c p h = omega (
  arith,
  length-drop_le n c,
  ap length (taken_of_some (leb n (length c)) (take n c, drop n c) p h),
)

is_some-map :
    (proto : Text) (o : Option (List Text))
    → is_some o ≡ true
    → is_some (Option.map (λ out. proto ∷ out) o) ≡ true
is_some-map proto none h = h
is_some-map proto (some out) h = refl

protocols_next :
    (fuel : ℕ) (o : Option (Text × Text))
    → ((p : Text × Text) → o ≡ some p → is_some (protocols fuel (p.1)) ≡ true)
    → is_some (elim o [
      | none ↦ some []
      | some p ↦ Option.map (λ out. (p.0) ∷ out) (protocols fuel (p.1))
    ])
      ≡ true
protocols_next fuel none h = refl
protocols_next fuel (some p) h = is_some-map (p.0) (protocols fuel (p.1)) (h p refl)

-- The loop over the protocols ends within as many rounds as there are bytes.
protocols_enough : (fuel : ℕ) (c : Text) → length c ≤ fuel → is_some (protocols fuel c) ≡ true
unfolding protocols
protocols_enough zero [] h = refl
protocols_enough zero (len ∷ c) h = absurd (omega arith)
protocols_enough (suc fuel) [] h = refl
protocols_enough (suc fuel) (len ∷ c) h =
    protocols_next fuel (take_bytes len c)
      (λ p e. protocols_enough fuel (p.1) (omega (arith, take_bytes-le len c p e)))

abbrev bytes_after : Option (ℕ × ℕ × Text) → Text → ℕ
bytes_after none c = length c
bytes_after (some head) c = length (head.2)

extension_head-le :
    (c : Text) (head : ℕ × ℕ × Text) → extension_head c ≡ some head → length (head.2) < length c
unfolding extension_head
extension_head-le [] head h = absurd (ground arith)
extension_head-le (a ∷ []) head h = absurd (ground arith)
extension_head-le (a ∷ b ∷ []) head h = absurd (ground arith)
extension_head-le (a ∷ b ∷ x ∷ []) head h = absurd (ground arith)
extension_head-le (a ∷ b ∷ x ∷ y ∷ c) head h = omega (arith, ap (λ o. bytes_after o c) h)

extensions_next :
    (fuel : ℕ) (head : ℕ × ℕ × Text) (o : Option (Text × Text)) (info : ClientHelloInfo)
    → ((p : Text × Text) (i : ClientHelloInfo)
        → o ≡ some p
        → is_some (extensions fuel (p.1) i) ≡ true)
    → is_some (elim o [
      | none ↦ some info
      | some p ↦ extensions fuel (p.1) (with_extension (head.0) (p.0) info)
    ])
      ≡ true
extensions_next fuel head none info h = refl
extensions_next fuel head (some p) info h = h p _ refl

-- One round, at the head of an extension.
extensions_round :
    (fuel : ℕ) (o : Option (ℕ × ℕ × Text)) (info : ClientHelloInfo)
    → ((head : ℕ × ℕ × Text) (p : Text × Text) (i : ClientHelloInfo)
        → o ≡ some head
        → take_bytes (head.1) (head.2) ≡ some p
        → is_some (extensions fuel (p.1) i) ≡ true)
    → is_some (elim o [
      | none ↦ some info
      | some head ↦ elim (take_bytes (head.1) (head.2)) [
        | none ↦ some info
        | some p ↦ extensions fuel (p.1) (with_extension (head.0) (p.0) info)
      ]
    ])
      ≡ true
extensions_round fuel none info h = refl
extensions_round fuel (some head) info h =
    extensions_next fuel head (take_bytes (head.1) (head.2)) info (λ p i e. h head p i refl e)

no_head :
    (o : Option (ℕ × ℕ × Text)) (info : ClientHelloInfo)
    → ((head : ℕ × ℕ × Text) → o ≢ some head)
    → is_some (elim o [ none ↦ some info | some head ↦ none ]) ≡ true
no_head none info h = refl
no_head (some head) info h = absurd (h head refl)

-- The loop over the extensions ends within as many rounds as there are bytes.
extensions_enough :
    (fuel : ℕ) (c : Text) (info : ClientHelloInfo)
    → length c ≤ fuel
    → is_some (extensions fuel c info) ≡ true
unfolding extensions
extensions_enough zero c info h =
    no_head (extension_head c) info
      (λ head e. absurd (omega (arith, h, extension_head-le c head e)))
extensions_enough (suc fuel) c info h =
    extensions_round fuel (extension_head c) info (λ head p i e t.
      extensions_enough fuel (p.1) i
        (omega (arith, h, extension_head-le c head e, take_bytes-le (head.1) (head.2) p t)))

-- Both loops of the parser end by themselves: on any bytes, as much fuel as there are bytes, or more,
-- gives a result.
pub loops_enough :
    (fuel : ℕ) (c : Text) (info : ClientHelloInfo)
    → length c ≤ fuel
    → (is_some (protocols fuel c) ≡ true) × (is_some (extensions fuel c info) ≡ true)
loops_enough fuel c info h = (protocols_enough fuel c h, extensions_enough fuel c info h)
