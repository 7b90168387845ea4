-- ===== src/Flow/Laws.antt =====
-- What the inference of a resource type depends on, and the state of a finished flow.
use hamsy_proxy.Shared.{
  ℕ, Bool, true, Option, none, some, [], ◌∷◌, ◌++◌, ◌≡◌, refl, ap, ◌==◌, ◌||◌, arith,
}
use hamsy_proxy.Shared.Text.{Text, before}
use hamsy_proxy.Flow.Infer.{extension, essence, by_mime, by_extension, infer}

-- What stands behind a separator does not reach the first piece.
before-append :
    (is_sep : ℕ → Bool) (s rest : Text) (c : ℕ)
    → is_sep c ≡ true
    → before is_sep (s ++ c ∷ rest) ≡ before is_sep s
unfolding before
before-append is_sep [] rest c h = ground arith
before-append is_sep (a ∷ s) rest c h = ground (arith, before-append is_sep s rest c h)

extension-append :
    (path rest : Text) (c : ℕ)
    → (c == b'?' || c == b'#') ≡ true
    → extension (path ++ c ∷ rest) ≡ extension path
unfolding extension
extension-append path rest c h = rw (before-append (λ x. x == b'?' || x == b'#') path rest c h) refl

-- The query and the fragment of a path, whatever they hold, have no say in the resource type that is
-- inferred.
pub infer-append :
    (mime : Option Text) (path rest : Text) (c : ℕ)
    → (c == b'?' || c == b'#') ≡ true
    → infer mime (path ++ c ∷ rest) ≡ infer mime path
unfolding infer
infer-append none path rest c h = rw (extension-append path rest c h) refl
infer-append (some mime) path rest c h =
    ap (λ ext. elim (by_mime (essence mime)) [ none ↦ by_extension ext | some r ↦ r ])
      (extension-append path rest c h)
