-- ===== src/Proxy/Target.antt =====
-- crates/hamsy-proxy/src/http.rs: the target of a request, and the target and headers after the request
-- rules.
use hamsy_proxy.Shared.{
  ℕ, Bool, true, false, Option, none, some, List, [], ◌∷◌, ◌++◌, map, is_some, unwrap_or,
  if◌then◌else◌, Result, ok, err,
}
use hamsy_proxy.Shared.Text.{Text, text, text_eq}
use hamsy_proxy.Flow.{ResourceType, HeaderPair, TlsInfo}
use hamsy_proxy.Flow.Infer.{infer}
use hamsy_proxy.Rules.Externals.{Externals}
use hamsy_proxy.Proxy.Error.{ProxyError, invalid_target}
use hamsy_proxy.Proxy.Net.{Version, Net}
use hamsy_proxy.Proxy.Headers.{strip_hop_by_hop, header_value, default_port, set_host_header}

-- What the lookup of the local application brings in the end: nothing where its task goes away, or
-- else the application, if there is one.
abbrev pub AppResolution : Type 0
AppResolution = Option (Option Text)

pub record ConnInfo : Type 0 where
  pub client_addr : Text
  pub scheme : Text
  pub authority : Option Text
  pub tls : Option TlsInfo
  pub mirror_h2 : Bool
  pub app : Option Text
  pub app_resolution : Option AppResolution

module _ {ext : Externals} (net : Net ext) where
  open ext use {Url, parse_url, as_str, host_str, scheme, query_pairs}
  open net use {path, query, port_or_known_default, HeaderMap, Uri}

  pub record Parts : Type 0 where
    pub method : Text
    pub uri : Uri
    pub version : Version
    pub headers : HeaderMap

  abbrev parsed_target : Text → Text → Result Url ProxyError
  parsed_target what s = elim (parse_url s) [
    | some url ↦ ok url
    | none ↦ err (invalid_target (what ++ text ": " ++ net.url_error s))
  ]

  abbrev first_text : List (net.HeaderValue) → Option Text
  first_text [] = none
  first_text (v ∷ vs) = net.to_str v

  -- The connection's authority, or else the `Host` header.
  abbrev authority_of : Parts → ConnInfo → Option Text
  authority_of parts conn = elim (conn.authority) [
    | some a ↦ some a
    | none ↦ first_text (net.get_all (text "host") (parts.headers))
  ]

  unfoldable pub build_target_url : Parts → ConnInfo → Result Url ProxyError
  build_target_url parts conn = elim (is_some (net.uri_scheme (parts.uri))) [
    | true ↦ parsed_target (text "invalid request target") (net.uri_to_string (parts.uri))
    | false ↦ elim (authority_of parts conn) [
      | none ↦ err (invalid_target (text "no authority to resolve relative request against"))
      | some authority ↦
          let full =
            conn.scheme
            ++ text "://"
            ++ authority
            ++ unwrap_or (net.path_and_query (parts.uri)) (text "/") in
          parsed_target (text "invalid request target '" ++ full ++ text "'") full
    ]
  ]

  -- `url.port_or_known_default().unwrap_or(default_port(url.scheme()))`
  unfoldable pub port_of : Url → ℕ
  unfolding default_port
  port_of url = unwrap_or (port_or_known_default url) (default_port (scheme url))

  unfoldable pub path_with_query : Url → Text
  path_with_query url = elim (query url) [ some q ↦ path url ++ text "?" ++ q | none ↦ path url ]

  unfoldable pub recorded_query : Url → List HeaderPair
  recorded_query url = map (λ p. record { name = p.0; value = p.1 }) (query_pairs url)

  unfoldable pub resource_type_for_request : List HeaderPair → Text → ResourceType
  unfolding header_value infer
  resource_type_for_request headers p = infer (header_value headers (text "content-type")) p

  -- The variables that `apply_outcome_url_and_headers` assigns.
  pub record Target : Type 0 where
    pub url : Url
    pub host : Text
    pub port : ℕ
    pub headers : List HeaderPair

  -- The `Host` that is added where none is left: the one of the URL before the rewriting.
  unfoldable pub with_original_host : Url → Text → List HeaderPair → List HeaderPair
  unfolding set_host_header port_of header_value
  with_original_host original host headers =
      if is_some (header_value headers (text "host"))
      then headers
      else set_host_header headers (unwrap_or (host_str original) host) (port_of original)
          (scheme original)

  unfoldable pub apply_outcome_url_and_headers : Text → List HeaderPair → Target → Target
  unfolding with_original_host strip_hop_by_hop text_eq
  apply_outcome_url_and_headers outcome_url outcome_headers t =
      let headers = strip_hop_by_hop outcome_headers in
      elim (text_eq outcome_url (as_str (t.url))) [
        | true ↦ record t { headers = headers }
        | false ↦ elim (parse_url outcome_url) [
          | none ↦ record t { headers = headers }
          | some parsed ↦
              let host = unwrap_or (host_str parsed) (t.host) in
              record {
                url = parsed;
                host = host;
                port = unwrap_or (port_or_known_default parsed) (t.port);
                headers = with_original_host (t.url) host headers;
              }
        ]
      ]
