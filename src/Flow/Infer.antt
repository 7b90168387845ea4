-- ===== src/Flow/Infer.antt =====
-- crates/hamsy-core/src/flow.rs, `ResourceType::infer`.
use mathlib.Core.List.{reverse}
use hamsy_proxy.Shared.{Bool, Option, none, some, List, [], ◌∷◌, any, ◌==◌, ◌||◌}
use hamsy_proxy.Shared.{if◌then◌else◌}
use hamsy_proxy.Shared.Text.{
  Text, text, text_eq, starts_with, contains, before, trim, to_ascii_lowercase,
}
use hamsy_proxy.Flow.{ResourceType, document, stylesheet, script, image, font, json, media, other}

abbrev one_of : Text → List Text → Bool
one_of s choices = any (text_eq s) choices

-- The lower-cased extension of a path with its query cut off; empty where the last piece behind a
-- dot holds a slash.
unfoldable pub extension : Text → Text
unfolding before contains to_ascii_lowercase
extension path =
    let path_no_query = before (λ c. c == b'?' || c == b'#') path in
    let ext = reverse (before (λ c. c == b'.') (reverse path_no_query)) in
    if contains ext (text "/") then [] else to_ascii_lowercase ext

-- A media type without its parameters, lower-cased.
pub essence : Text → Text
unfolding before trim to_ascii_lowercase
essence mime = to_ascii_lowercase (trim (before (λ c. c == b';') mime))

pub by_mime : Text → Option ResourceType
by_mime mime =
    if one_of mime (text "text/html" ∷ text "application/xhtml+xml" ∷ [])
    then some document
    else if text_eq mime (text "text/css")
    then some stylesheet
    else if one_of mime (
        text "application/javascript"
        ∷ text "text/javascript"
        ∷ text "application/x-javascript"
        ∷ text "application/ecmascript"
        ∷ [])
    then some script
    else if one_of mime (text "application/json" ∷ text "application/ld+json" ∷ [])
    then some json
    else if starts_with mime (text "image/")
    then some image
    else if starts_with mime (text "font/")
        || one_of mime (
            text "application/font-woff"
            ∷ text "application/x-font-ttf"
            ∷ text "application/vnd.ms-fontobject"
            ∷ [])
    then some font
    else if starts_with mime (text "audio/") || starts_with mime (text "video/")
    then some media
    else none

pub by_extension : Text → ResourceType
by_extension ext =
    if one_of ext (text "html" ∷ text "htm" ∷ [])
    then document
    else if text_eq ext (text "css")
    then stylesheet
    else if one_of ext (text "js" ∷ text "mjs" ∷ text "cjs" ∷ [])
    then script
    else if text_eq ext (text "json")
    then json
    else if one_of ext (
        text "png"
        ∷ text "jpg"
        ∷ text "jpeg"
        ∷ text "gif"
        ∷ text "webp"
        ∷ text "svg"
        ∷ text "ico"
        ∷ text "bmp"
        ∷ text "avif"
        ∷ [])
    then image
    else if one_of ext (text "woff" ∷ text "woff2" ∷ text "ttf" ∷ text "otf" ∷ text "eot" ∷ [])
    then font
    else if one_of ext (
        text "mp3"
        ∷ text "mp4"
        ∷ text "wav"
        ∷ text "ogg"
        ∷ text "webm"
        ∷ text "m4a"
        ∷ text "mov"
        ∷ text "avi"
        ∷ [])
    then media
    else other

unfoldable pub infer : Option Text → Text → ResourceType
unfolding extension essence by_mime by_extension text_eq starts_with
infer none path = by_extension (extension path)
infer (some mime) path = elim (by_mime (essence mime)) [
  | none ↦ by_extension (extension path)
  | some r ↦ r
]
