-- ===== src/Proxy/Authority.antt =====
-- The `Host` header and the `:authority` of the requests that are sent upstream.
use hamsy_proxy.Shared.{
  ◌≡◌, ◌≢◌, refl, ap, sym, ◌∙◌, Bool, true, false, Option, none, some, List, [], ◌∷◌, ◌++◌, Result,
  ok, err, if◌then◌else◌, arith, unwrap_or,
}
use mathlib.Core.Path.{subst}
use hamsy_proxy.Shared.Text.{Text, text}
use hamsy_proxy.Flow.{HeaderPair}
use hamsy_proxy.Rules.Externals.{Externals}
use hamsy_proxy.Proxy.Error.{ProxyError, other}
use hamsy_proxy.Proxy.Net.{Version, http_11, http_2, Net}
use hamsy_proxy.Proxy.Headers.{is_http_2}
use hamsy_proxy.Proxy.Target.{Parts}
use hamsy_proxy.Proxy.Outbound.{
  HttpVersion, http1, http2, authority_named, align_h2_authority_with_host, apply_headers_to_map,
  build_outbound_request, adapt_request_to_sender,
}

module _ {ext : Externals} (net : Net ext) where
  open ext use {Url, as_str}
  open net use {HeaderMap, HeaderValue, get_all, remove, insert}

  -- `remove` leaves no value of the name.
  abbrev pub RemovesHost : Type 0
  RemovesHost = (map : HeaderMap) → get_all (text "host") (remove (text "host") map) ≡ []

  abbrev NoHost : Parts net → Type 0
  NoHost parts = get_all (text "host") (parts.headers) ≡ []

  of_authority :
      (P : Parts net → Type 0) (o : Option Text) (x : Parts net) (k : Text → Parts net)
      → P x
      → ((a : Text) → P (k a))
      → P (elim o [ none ↦ x | some a ↦ k a ])
  of_authority P none x k h g = h
  of_authority P (some a) x k h g = g a

  abbrev first_of : List HeaderValue → Option HeaderValue
  first_of hosts = elim hosts [ [] ↦ none | v ∷ vs ↦ some v ]

  abbrev aligned_with : Parts net → Option HeaderValue → Parts net
  aligned_with parts first = elim first [
    | none ↦ parts
    | some v ↦ elim (authority_named net v) [
      | none ↦ record parts { headers = remove (text "host") (parts.headers) }
      | some authority ↦ record parts {
        headers = remove (text "host") (parts.headers);
        uri = unwrap_or (net.with_authority authority (parts.uri)) (parts.uri);
      }
    ]
  ]

  aligned-NoHost :
      (parts : Parts net) (hosts : List HeaderValue)
      → RemovesHost
      → get_all (text "host") (parts.headers) ≡ hosts
      → NoHost (aligned_with parts (first_of hosts))
  aligned-NoHost parts [] law h = h
  aligned-NoHost parts (v ∷ vs) law h =
      of_authority NoHost (authority_named net v) _ _ (law (parts.headers))
        (λ a. law (parts.headers))

  align-NoHost : (parts : Parts net) → RemovesHost → NoHost (align_h2_authority_with_host net parts)
  unfolding align_h2_authority_with_host
  align-NoHost parts law = aligned-NoHost parts (get_all (text "host") (parts.headers)) law refl

  abbrev built : Parts net → Result (Parts net) ProxyError
  built parts = ok parts

  abbrev built_or : Parts net → Result (Parts net) ProxyError → Parts net
  built_or parts r = elim r [ ok p ↦ p | err e ↦ parts ]

  abbrev aligned_if : Bool → Parts net → Parts net
  aligned_if b parts = if b then align_h2_authority_with_host net parts else parts

  aligned_if-NoHost :
      (b : Bool) (parts : Parts net) → RemovesHost → b ≡ true → NoHost (aligned_if b parts)
  aligned_if-NoHost true parts law h = align-NoHost parts law
  aligned_if-NoHost false parts law h = absurd (ground arith)

  -- The end of `build_outbound_request`, once the headers are read.
  finished :
      (r : Result HeaderMap ProxyError) (k : HeaderMap → Parts net) (b : Bool) (parts : Parts net)
      → elim r [ err e ↦ err e | ok map ↦ built (aligned_if b (k map)) ] ≡ built parts
      → (map : HeaderMap) × (aligned_if b (k map) ≡ parts)
  finished (err e) k b parts h = absurd (ground arith)
  finished (ok map) k b parts h = (map, ap (built_or parts) h)

  build-finished :
      (method : Text) (url : Url) (headers : List HeaderPair) (via_proxy : Bool) (version : Version)
      (uri : Result (net.Uri) Text) (parts : Parts net)
      → elim uri [
        | err e ↦ err (other (text "failed to build outbound request: " ++ e))
        | ok u ↦ elim (apply_headers_to_map net headers) [
          | err e ↦ err e
          | ok map ↦ built (
              aligned_if
                (is_http_2 version)
                (record { method = method; uri = u; version = version; headers = map }))
        ]
      ]
        ≡ built parts
      → (plain : Parts net) × (plain.version ≡ version)
        × (aligned_if (is_http_2 version) plain ≡ parts)
  build-finished method url headers via_proxy version (err e) parts h = absurd (ground arith)
  build-finished method url headers via_proxy version (ok u) parts h =
      let (map, e) = finished (apply_headers_to_map net headers) _ (is_http_2 version) parts h in
      (record { method = method; uri = u; version = version; headers = map }, refl, e)

  aligned-version :
      (parts : Parts net) (hosts : List HeaderValue)
      → (aligned_with parts (first_of hosts)).version ≡ parts.version
  aligned-version parts [] = refl
  aligned-version parts (v ∷ vs) =
      of_authority (λ p. p.version ≡ parts.version) (authority_named net v) _ _ refl (λ a. refl)

  align-version :
      (parts : Parts net) → (align_h2_authority_with_host net parts).version ≡ parts.version
  unfolding align_h2_authority_with_host
  align-version parts = aligned-version parts (get_all (text "host") (parts.headers))

  aligned_if-version : (b : Bool) (parts : Parts net) → (aligned_if b parts).version ≡ parts.version
  aligned_if-version true parts = align-version parts
  aligned_if-version false parts = refl

  version-build :
      (method : Text) (url : Url) (headers : List HeaderPair) (via_proxy : Bool) (version : Version)
      (parts : Parts net)
      → RemovesHost
      → build_outbound_request net method url headers via_proxy version ≡ built parts
      → is_http_2 (parts.version) ≡ true
      → NoHost parts
  unfolding build_outbound_request
  version-build method url headers via_proxy version parts law h v =
      let (plain, same, e) = build-finished method url headers via_proxy version _ parts h in
      let kept : parts.version ≡ version =
        sym (ap (λ p. p.version) e) ∙ aligned_if-version (is_http_2 version) plain ∙ same in
      subst NoHost e (aligned_if-NoHost (is_http_2 version) plain law (sym (ap is_http_2 kept) ∙ v))

  http_11_is_not_http_2 : http_11 ≢ http_2
  http_11_is_not_http_2 h = absurd (ground arith)

  of_Bool :
      (P : Parts net → Type 0) (b : Bool) (x y : Parts net)
      → (b ≡ true → P x)
      → (b ≡ false → P y)
      → P (elim b [ true ↦ x | false ↦ y ])
  of_Bool P true x y h k = h refl
  of_Bool P false x y h k = k refl

  -- A request that goes out as HTTP/2, as it was built or after its adaption to the connection, has no
  -- `Host` header: what the header named stands in the URI or is lost, and cannot contradict it. The
  -- map's `remove` leaves no value of the name.
  pub adapt-no_host :
      (method : Text) (url : Url) (headers : List HeaderPair) (via_proxy : Bool) (version : Version)
      (parts : Parts net) (sender : HttpVersion) (chained : Bool)
      → RemovesHost
      → build_outbound_request net method url headers via_proxy version ≡ ok parts
      → (adapt_request_to_sender net sender chained url parts).version ≡ http_2
      → get_all (text "host") ((adapt_request_to_sender net sender chained url parts).headers) ≡ []
  unfolding adapt_request_to_sender
  adapt-no_host method url headers via_proxy version parts http1 chained law h =
      of_Bool (λ p. p.version ≡ http_2 → NoHost p) (is_http_2 (parts.version)) _ parts
        (λ e v. absurd (http_11_is_not_http_2 v))
        (λ e v. absurd (ground (arith, e, ap is_http_2 v)))
  adapt-no_host method url headers via_proxy version parts http2 chained law h =
      of_Bool (λ p. p.version ≡ http_2 → NoHost p) (is_http_2 (parts.version)) parts _
        (λ e v. version-build method url headers via_proxy version parts law h e)
        (λ e v. align-NoHost _ law)
