-- ===== src/Proxy/Outbound.antt =====
-- crates/hamsy-proxy/src/http.rs: the request that is sent upstream, and how its `Host` header and its
-- `:authority` are reconciled. `Request::builder` fails where the target is no URI.
use hamsy_proxy.Shared.{
  Bool, true, false, Option, none, some, List, [], ◌∷◌, ◌++◌, ◌||◌, any, is_some, is_empty,
  unwrap_or, if◌then◌else◌, Result, ok, err,
}
use hamsy_proxy.Shared.Text.{Text, text}
use hamsy_proxy.Flow.{HeaderPair}
use hamsy_proxy.Rules.Externals.{Externals}
use hamsy_proxy.Proxy.Error.{ProxyError, other}
use hamsy_proxy.Proxy.Net.{Version, http_11, http_2, Net}
use hamsy_proxy.Proxy.Headers.{host_with_port, default_port, is_http_2}
use hamsy_proxy.Proxy.Target.{Parts, port_of, path_with_query}

pub data HttpVersion : Type 0 where
  http1 http2 : HttpVersion

module _ {ext : Externals} (net : Net ext) where
  open ext use {Url, as_str, host_str, scheme}
  open net use {HeaderMap, HeaderValue, Uri, parse_name, parse_value, to_str, as_bytes}

  -- The loop of `apply_headers_to_map`.
  unfoldable pub append_pairs : List HeaderPair → HeaderMap → Result HeaderMap ProxyError
  append_pairs [] map = ok map
  append_pairs (h ∷ hs) map = elim (parse_name (h.name)) [
    | err e ↦ err (other (text "invalid header name '" ++ h.name ++ text "': " ++ e))
    | ok name ↦ elim (parse_value (h.value)) [
      | err e ↦ err (other (text "invalid header value for '" ++ h.name ++ text "': " ++ e))
      | ok value ↦ append_pairs hs (net.append name value map)
    ]
  ]

  -- The map is cleared first.
  unfoldable pub apply_headers_to_map : List HeaderPair → Result HeaderMap ProxyError
  unfolding append_pairs
  apply_headers_to_map pairs = append_pairs pairs (net.new_map)

  abbrev pub first_value : Text → HeaderMap → Option HeaderValue
  first_value name map = elim (net.get_all name map) [ [] ↦ none | v ∷ vs ↦ some v ]

  abbrev pub authority_named : HeaderValue → Option Text
  authority_named v = elim (to_str v) [ none ↦ none | some s ↦ net.parse_authority s ]

  unfoldable pub align_h2_authority_with_host : Parts net → Parts net
  align_h2_authority_with_host parts = elim (first_value (text "host") (parts.headers)) [
    | none ↦ parts
    | some host_value ↦
        let left = record parts { headers = net.remove (text "host") (parts.headers) } in
        elim (authority_named host_value) [
          | none ↦ left
          | some authority ↦ record left {
            uri = unwrap_or (net.with_authority authority (left.uri)) (left.uri);
          }
        ]
  ]

  unfoldable pub build_outbound_request :
      Text → Url → List HeaderPair → Bool → Version → Result (Parts net) ProxyError
  unfolding apply_headers_to_map align_h2_authority_with_host path_with_query is_http_2
  build_outbound_request method url headers via_proxy version =
      elim (net.parse_uri
        (if via_proxy || is_http_2 version then as_str url else path_with_query net url)) [
          | err e ↦ err (other (text "failed to build outbound request: " ++ e))
          | ok uri ↦ elim (apply_headers_to_map headers) [
            | err e ↦ err e
            | ok headers_map ↦
                let parts : Parts net = record {
                  method = method;
                  uri = uri;
                  version = version;
                  headers = headers_map;
                } in
                ok (if is_http_2 version then align_h2_authority_with_host parts else parts)
          ]
        ]

  -- The loop over the cookies behind the first.
  unfoldable pub joined_cookies : Text → List HeaderValue → Text
  joined_cookies joined [] = joined
  joined_cookies joined (v ∷ vs) = joined_cookies (joined ++ text "; " ++ as_bytes v) vs

  unfoldable pub join_cookie_headers : HeaderMap → HeaderMap
  unfolding joined_cookies
  join_cookie_headers map = elim (net.get_all (text "cookie") map) [
    | [] ↦ map
    | first ∷ values ↦ elim (is_empty values) [
      | true ↦ map
      | false ↦ elim (net.value_of_bytes (joined_cookies (as_bytes first) values)) [
        | none ↦ map
        | some value ↦
            let sensitive = any (net.is_sensitive) (first ∷ values) in
            net.insert (text "cookie") (net.set_sensitive sensitive value) map
      ]
    ]
  ]

  -- `if let Ok(hv) = HeaderValue::from_str(value)`
  abbrev pub host_value : Text → Option HeaderValue
  host_value value = elim (parse_value value) [ ok hv ↦ some hv | err e ↦ none ]

  abbrev insert_host : Option HeaderValue → HeaderMap → HeaderMap
  insert_host none map = map
  insert_host (some hv) map = net.insert (text "host") hv map

  abbrev preferred_value : Option Text → Option HeaderValue
  preferred_value none = none
  preferred_value (some authority) = host_value authority

  unfoldable pub ensure_host_header : Url → Option Text → HeaderMap → HeaderMap
  unfolding port_of default_port
  ensure_host_header url preferred map = elim (is_some (first_value (text "host") map)) [
    | true ↦ map
    | false ↦ elim (preferred_value preferred) [
      | some hv ↦ net.insert (text "host") hv map
      | none ↦
          insert_host
            (host_value (
              host_with_port (unwrap_or (host_str url) []) (port_of net url)
                (default_port (scheme url))))
            map
    ]
  ]

  abbrev pub uri_or : Text → Uri → Uri
  uri_or s uri = elim (net.parse_uri s) [ ok new ↦ new | err e ↦ uri ]

  unfoldable pub adapt_request_to_sender : HttpVersion → Bool → Url → Parts net → Parts net
  unfolding join_cookie_headers ensure_host_header align_h2_authority_with_host path_with_query
      is_http_2
  adapt_request_to_sender http1 via_proxy url parts = elim (is_http_2 (parts.version)) [
    | false ↦ parts
    | true ↦ record parts {
      version = http_11;
      uri = if via_proxy then parts.uri else uri_or (path_with_query net url) (parts.uri);
      headers =
          ensure_host_header url (net.authority (parts.uri)) (join_cookie_headers (parts.headers));
    }
  ]
  adapt_request_to_sender http2 via_proxy url parts = elim (is_http_2 (parts.version)) [
    | true ↦ parts
    | false ↦
        align_h2_authority_with_host
          (record parts { version = http_2; uri = uri_or (as_str url) (parts.uri) })
  ]
