-- ===== src/Flow/Tests.antt =====
-- Paths with a query or without, and media types.
use hamsy_proxy.Shared.{none, some, ◌≡◌, refl}
use hamsy_proxy.Shared.Text.{text}
use hamsy_proxy.Flow.Infer.{infer}
use hamsy_proxy.Flow.{image, stylesheet, other}

infer_tests :
    (infer (some (text "Image/PNG; q=1")) (text "/a.html") ≡ image)
    × (infer none (text "/a/b.CSS?x=.js") ≡ stylesheet)
    × (infer none (text "/a.d/b") ≡ other)
unfolding infer
infer_tests = (refl, refl, refl)
