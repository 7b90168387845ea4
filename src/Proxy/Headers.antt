-- ===== src/Proxy/Headers.antt =====
-- crates/hamsy-proxy/src/http.rs, the helpers on lists of headers, statuses and versions.
use hamsy_proxy.Shared.{
  ℕ, ◌==◌, leb, ltb, Bool, true, false, not, Option, List, [], ◌∷◌, ◌++◌, ◌&&◌, ◌||◌, any, find,
  filter, filter_map, if◌then◌else◌,
}
use mathlib.Core.Option
use hamsy_proxy.Shared.Text.{Text, text, text_eq, eq_ignore_ascii_case}
use hamsy_proxy.Shared.Number.{to_decimal}
use hamsy_proxy.Flow.{HeaderPair}
use hamsy_proxy.Rules.Externals.{Externals}
use hamsy_proxy.Rules.Headers.{named}
use hamsy_proxy.Proxy.Net.{Version, http_09, http_10, http_11, http_2, http_3, Net}

abbrev pub hop_by_hop : List Text
hop_by_hop =
    text "connection"
    ∷ text "proxy-connection"
    ∷ text "keep-alive"
    ∷ text "te"
    ∷ text "trailer"
    ∷ text "transfer-encoding"
    ∷ text "upgrade"
    ∷ text "proxy-authorization"
    ∷ []

unfoldable pub strip_hop_by_hop : List HeaderPair → List HeaderPair
unfolding eq_ignore_ascii_case
strip_hop_by_hop headers =
    filter (λ h. not (any (λ hop. eq_ignore_ascii_case (h.name) hop) hop_by_hop)) headers

unfoldable pub header_value : List HeaderPair → Text → Option Text
unfolding named
header_value headers name = Option.map (λ h. h.value) (find (named name) headers)

unfoldable pub set_header : List HeaderPair → Text → Text → List HeaderPair
unfolding named
set_header headers name value =
    filter (λ h. not (named name h)) headers ++ record { name = name; value = value } ∷ []

unfoldable pub remove_header : List HeaderPair → Text → List HeaderPair
unfolding named
remove_header headers name = filter (λ h. not (named name h)) headers

unfoldable pub default_port : Text → ℕ
unfolding text_eq
default_port scheme =
    if text_eq scheme (text "https") || text_eq scheme (text "wss") then 443 else 80

-- `host`, or `host:port` where the port is not the default one.
abbrev pub host_with_port : Text → ℕ → ℕ → Text
host_with_port host port default =
    if port == default then host else host ++ text ":" ++ to_decimal port

unfoldable pub set_host_header : List HeaderPair → Text → ℕ → Text → List HeaderPair
unfolding set_header eq_ignore_ascii_case to_decimal
set_host_header headers host port scheme =
    set_header headers (text "Host")
      (host_with_port host port (if eq_ignore_ascii_case scheme (text "https") then 443 else 80))

-- `StatusCode::from_u16` takes the codes from 100 to 999.
unfoldable pub safe_status : ℕ → ℕ
safe_status code = if leb 100 code && ltb code 1000 then code else 500

unfoldable pub version_from_str : Text → Version
unfolding text_eq
version_from_str s =
    if text_eq s (text "HTTP/0.9")
    then http_09
    else if text_eq s (text "HTTP/1.0")
    then http_10
    else if text_eq s (text "HTTP/2.0")
    then http_2
    else if text_eq s (text "HTTP/3.0")
    then http_3
    else http_11

-- `format!("{:?}", version)`
unfoldable pub version_text : Version → Text
version_text http_09 = text "HTTP/0.9"
version_text http_10 = text "HTTP/1.0"
version_text http_11 = text "HTTP/1.1"
version_text http_2 = text "HTTP/2.0"
version_text http_3 = text "HTTP/3.0"

unfoldable pub is_http_2 : Version → Bool
is_http_2 http_09 = false
is_http_2 http_10 = false
is_http_2 http_11 = false
is_http_2 http_2 = true
is_http_2 http_3 = false

abbrev pub has_id : Text → List Text → Bool
has_id id ids = any (text_eq id) ids

unfoldable pub union_matched : List Text → List Text → List Text
unfolding text_eq
union_matched a [] = a
union_matched a (id ∷ b) = union_matched (if has_id id a then a else a ++ id ∷ []) b

unfoldable pub error_label : ℕ → Text
error_label status =
    if status == 403
    then text "blocked"
    else if status == 502
    then text "upstream_error"
    else if status == 400
    then text "bad_request"
    else if status == 508
    then text "loop_detected"
    else text "error"

module _ {ext : Externals} (net : Net ext) where
  open net use {HeaderMap, to_str, iter}

  -- Values that are not visible text are dropped.
  unfoldable pub header_pairs_from : HeaderMap → List HeaderPair
  header_pairs_from map =
      filter_map (λ e. Option.map (λ value. record { name = e.0; value = value }) (to_str (e.1)))
        (iter map)
