-- ===== src/Rules/Matching.antt =====
-- `matches_url` to `matches_response`: the conditions of a rule.
use hamsy_proxy.Shared.{
  ℕ, Bool, true, false, not, Option, none, some, List, [], ◌∷◌, ◌++◌, ◌&&◌, ◌||◌, any, all, zip,
  is_empty, unwrap_or, if◌then◌else◌,
}
use hamsy_proxy.Shared.Text as T
use hamsy_proxy.Shared.Text.{Text, text, text_eq, eq_ignore_ascii_case}
use hamsy_proxy.Shared.Number.{to_decimal}
use hamsy_proxy.Shared.Utf8.{from_utf8_lossy}
use hamsy_proxy.Flow.{ResourceType, resource_eq, HeaderPair}
use hamsy_proxy.Rules.Model.{UrlOp, HeaderOp, HeaderCond, BodyCondOp, BodyCond, Rule}
use hamsy_proxy.Rules.Externals.{Externals}
use hamsy_proxy.Rules.Headers.{header_lookup}
use hamsy_proxy.Rules.Compile.Entry.{CompiledEntry}
use hamsy_proxy.Rules.Compile.Status as Status

abbrev is_match_of {ℓ} : {R : Type ℓ} → (R → Text → Bool) → Option R → Text → Bool
is_match_of run none s = false
is_match_of run (some re) s = run re s

unfoldable pub default_port_for_scheme : Text → ℕ
unfolding text_eq
default_port_for_scheme scheme =
    if text_eq scheme (text "https") || text_eq scheme (text "wss")
    then 443
    else if text_eq scheme (text "http") || text_eq scheme (text "ws")
    then 80
    else 0

module _ (ext : Externals) where
  open ext use {Regex, is_match, Glob, glob_match, Url, as_str, host_str, port, scheme}

  unfoldable pub matches_url : UrlOp → Text → Option Regex → Option Glob → Text → Bool
  matches_url UrlOp.any value re glob url = true
  matches_url UrlOp.contains value re glob url = T.contains url value
  matches_url UrlOp.equals value re glob url = text_eq url value
  matches_url UrlOp.starts_with value re glob url = T.starts_with url value
  matches_url UrlOp.ends_with value re glob url = T.ends_with url value
  matches_url UrlOp.regex value re glob url = is_match_of is_match re url
  matches_url UrlOp.wildcard value re glob url = is_match_of glob_match glob url

  unfoldable pub matches_host_port : List Text → List Glob → Url → Bool
  unfolding default_port_for_scheme to_decimal
  matches_host_port host_ports globs url =
      let host = unwrap_or (host_str url) [] in
      let number = unwrap_or (port url) (default_port_for_scheme (scheme url)) in
      let host_port = host ++ b':' ∷ to_decimal number in
      is_empty host_ports || any (λ g. glob_match g host_port || glob_match g host) globs

  value_matches : HeaderOp → Option Text → Option Regex → List Text → Bool
  value_matches HeaderOp.exists expected re values = not (is_empty values)
  value_matches HeaderOp.absent expected re values = is_empty values
  value_matches HeaderOp.equals none re values = false
  value_matches HeaderOp.equals (some e) re values = any (λ v. text_eq v e) values
  value_matches HeaderOp.contains none re values = false
  value_matches HeaderOp.contains (some e) re values = any (λ v. T.contains v e) values
  value_matches HeaderOp.regex expected none values = false
  value_matches HeaderOp.regex expected (some r) values = any (is_match r) values

  unfoldable pub header_cond_matches : HeaderCond → Option Regex → List HeaderPair → Bool
  unfolding value_matches header_lookup
  header_cond_matches cond re headers =
      value_matches (cond.op) (cond.value) re (header_lookup headers (cond.name))

  unfoldable pub matches_all_header_conds :
      List HeaderCond → List (Option Regex) → List HeaderPair → Bool
  unfolding header_cond_matches
  matches_all_header_conds conds regexes headers =
      all (λ c. header_cond_matches (c.0) (c.1) headers) (zip conds regexes)

  body_text : Option Text → Text
  body_text none = []
  body_text (some b) = from_utf8_lossy b

  text_matches : BodyCondOp → Text → Option Regex → Text → Bool
  text_matches BodyCondOp.contains value re body = T.contains body value
  text_matches BodyCondOp.equals value re body = text_eq body value
  text_matches BodyCondOp.regex value re body = is_match_of is_match re body

  unfoldable pub body_cond_matches : Option BodyCond → Option Regex → Option Text → Bool
  unfolding text_matches body_text from_utf8_lossy
  body_cond_matches none re body = true
  body_cond_matches (some cond) re body = text_matches (cond.op) (cond.value) re (body_text body)

  -- All the conditions of the request phase but the one on the body.
  unfoldable pub matches_metadata :
      Rule → CompiledEntry ext → Text → Url → List HeaderPair → ResourceType → Bool
  unfolding matches_url matches_host_port matches_all_header_conds resource_eq eq_ignore_ascii_case
  matches_metadata rule compiled method url headers resource_type =
      let m = rule.matcher in
      matches_url (m.url_op) (m.url_value) (compiled.url_regex) (compiled.url_glob) (as_str url)
      && (is_empty (m.methods) || any (λ x. eq_ignore_ascii_case x method) (m.methods))
      && matches_host_port (m.host_ports) (compiled.host_globs) url
      && (is_empty (m.resource_types) || any (resource_eq resource_type) (m.resource_types))
      && matches_all_header_conds (m.request_headers) (compiled.req_header_regex) headers

  unfoldable pub matches_request :
      Rule
      → CompiledEntry ext
      → Text
      → Url
      → List HeaderPair
      → Option Text
      → ResourceType
      → Bool
      → Bool
  unfolding matches_metadata body_cond_matches
  matches_request rule compiled method url headers body resource_type probe_body =
      matches_metadata rule compiled method url headers resource_type
      && (probe_body
          || body_cond_matches (rule.matcher.request_body) (compiled.req_body_regex) body)

  unfoldable pub matches_response :
      Rule
      → CompiledEntry ext
      → Text
      → Url
      → List HeaderPair
      → Option Text
      → ResourceType
      → ℕ
      → List HeaderPair
      → Option Text
      → Bool
      → Bool
  unfolding matches_request matches_all_header_conds body_cond_matches Status.matches
  matches_response rule compiled method url headers body resource_type status resp_headers resp_body
        probe_body =
      matches_request rule compiled method url headers body resource_type false
      && (is_empty (rule.matcher.status_codes)
          || any (λ sm. Status.matches sm status) (compiled.status_matchers))
      && matches_all_header_conds (rule.matcher.response_headers) (compiled.resp_header_regex)
          resp_headers
      && (probe_body
          || body_cond_matches (rule.matcher.response_body) (compiled.resp_body_regex) resp_body)
