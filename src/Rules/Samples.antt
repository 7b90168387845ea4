-- ===== src/Rules/Samples.antt =====
-- A rule set of three rules over plain texts, for the tests: a URL is a text, and a pattern matches
-- the texts that contain it.
use hamsy_proxy.Shared.{ℕ, true, Option, some, none, List, [], ◌∷◌, ok}
use hamsy_proxy.Shared.Text.{Text, text, contains, replace}
use hamsy_proxy.Shared.Int.{pos}
use hamsy_proxy.Flow.{HeaderPair, ResourceType}
use hamsy_proxy.Rules.Model.{UrlOp, PayloadEncoding, Rule, Matcher, Action}
use hamsy_proxy.Rules.Externals.{Externals}
use hamsy_proxy.Rules.Compile.Set.{RuleSet, new}
use hamsy_proxy.Rules.Request.{RequestCtx}
use hamsy_proxy.Rules.Response.{ResponseCtx}

abbrev pub plain_texts : Externals
plain_texts = record {
  Regex = Text;
  regex_new = λ pattern. ok pattern;
  is_match = λ pattern s. contains s pattern;
  captures = λ pattern s. none;
  replace_all = λ pattern s to. replace s pattern to;
  Glob = Text;
  build_glob = λ pattern. ok pattern;
  glob_match = λ pattern s. contains s pattern;
  Url = Text;
  parse_url = λ s. some s;
  as_str = λ url. url;
  host_str = λ url. some url;
  port = λ url. none;
  scheme = λ url. text "http";
  query_pairs = λ url. [];
  with_query_pairs = λ url pairs. url;
  without_query = λ url. url;
  base64_decode = λ s. some s;
  json_from_slice = λ s. none;
  json_to_vec = λ v. none;
}

abbrev pub any_matcher : Matcher
any_matcher = record {
  url_op = UrlOp.any;
  url_value = [];
  methods = [];
  host_ports = [];
  status_codes = [];
  resource_types = [];
  request_headers = [];
  response_headers = [];
  request_body = none;
  response_body = none;
}

abbrev pub rule : Text → ℕ → Matcher → List Action → Rule
rule id priority matcher actions = record {
  id = id;
  name = id;
  enabled = true;
  priority = pos priority;
  group = none;
  notes = none;
  matcher = matcher;
  actions = actions;
}

abbrev pub header_rule : Rule
header_rule = rule (text "h") 2 any_matcher (Action.set_request_header (text "X") (text "1") ∷ [])

abbrev pub status_rule : Rule
status_rule = rule (text "s") 1 any_matcher (Action.set_status 500 ∷ [])

-- It needs the body, but only on another URL.
abbrev pub body_rule : Rule
body_rule =
    rule (text "b") 3 (record any_matcher { url_op = UrlOp.contains; url_value = text "upload" })
      (Action.set_request_body (text "x") PayloadEncoding.plain none ∷ [])

abbrev pub three_rules : List Rule
three_rules = header_rule ∷ body_rule ∷ status_rule ∷ []

abbrev pub set : RuleSet plain_texts
set = new plain_texts three_rules

abbrev pub request : RequestCtx plain_texts
request = record {
  method = text "GET";
  url = text "u";
  headers = [];
  body = none;
  resource_type = ResourceType.other;
}

abbrev pub response : ResponseCtx plain_texts
response = record {
  method = text "GET";
  url = text "u";
  headers = record { name = text "X"; value = text "1" } ∷ [];
  body = none;
  resource_type = ResourceType.other;
  status = 200;
  resp_headers = [];
  resp_body = none;
}

abbrev pub post : Option Text
post = some (text "data")

abbrev pub unrelated : RuleSet plain_texts
unrelated = new plain_texts (body_rule ∷ [])

abbrev pub two_headers : List HeaderPair
two_headers =
    record { name = text "A"; value = text "1" } ∷ record { name = text "b"; value = text "2" } ∷ []
