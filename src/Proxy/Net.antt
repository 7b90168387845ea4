-- ===== src/Proxy/Net.antt =====
-- What the handlers take from other packages, apart from what the rules do: more of URLs, the types of
-- the http package, and the text of small JSON objects. Nothing is assumed of them here.
use hamsy_proxy.Shared.{ℕ, Bool, Option, List, Result}
use hamsy_proxy.Shared.Text.{Text}
use hamsy_proxy.Rules.Externals.{Externals}
use hamsy_proxy.Proxy.Config.{IpAddr}

pub data Version : Type 0 where
  http_09 http_10 http_11 http_2 http_3 : Version

pub record Net (ext : Externals) : Type 1 where
  pub parse_ip : Text → Option IpAddr
  -- the error of `Url::parse`, where `parse_url` finds none
  pub url_error : Text → Text
  pub path : ext.Url → Text
  pub query : ext.Url → Option Text
  pub port_or_known_default : ext.Url → Option ℕ
  -- `StatusCode::canonical_reason`
  pub canonical_reason : ℕ → Option Text
  -- `Method::from_bytes`
  pub parse_method : Text → Option Text
  pub HeaderValue : Type 0
  -- `HeaderName::from_bytes` and `HeaderValue::from_str`
  pub parse_name : Text → Result Text Text
  pub parse_value : Text → Result HeaderValue Text
  pub value_of_bytes : Text → Option HeaderValue
  pub to_str : HeaderValue → Option Text
  pub as_bytes : HeaderValue → Text
  pub is_sensitive : HeaderValue → Bool
  pub set_sensitive : Bool → HeaderValue → HeaderValue
  pub HeaderMap : Type 0
  pub new_map : HeaderMap
  pub append : Text → HeaderValue → HeaderMap → HeaderMap
  -- it replaces all values of the name
  pub insert : Text → HeaderValue → HeaderMap → HeaderMap
  pub remove : Text → HeaderMap → HeaderMap
  pub get_all : Text → HeaderMap → List HeaderValue
  pub iter : HeaderMap → List (Text × HeaderValue)
  pub Uri : Type 0
  pub parse_uri : Text → Result Uri Text
  pub authority : Uri → Option Text
  -- `s.parse::<Authority>()` and `Uri::from_parts` with another authority
  pub parse_authority : Text → Option Text
  pub with_authority : Text → Uri → Option Uri
  pub uri_scheme : Uri → Option Text
  pub uri_to_string : Uri → Text
  pub path_and_query : Uri → Option Text
  -- `json!({ "error": error, "reason": reason }).to_string()`
  pub json_error : Text → Text → Text
