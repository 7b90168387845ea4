-- ===== src/Rules/Compile/Entry.antt =====
-- `CompiledEntry` and `compile_rule`. The vector of messages is passed along.
use hamsy_proxy.Shared.{true, Option, none, some, List, [], ◌∷◌, ◌++◌, filter_map, Result, ok, err}
use hamsy_proxy.Shared.Text.{Text, text}
use hamsy_proxy.Rules.Model.{
  UrlOp, HeaderOp, HeaderCond, BodyCondOp, BodyCond, Action, rewrite_url, replace_in_request_body,
  replace_in_response_body, Rule,
}
use hamsy_proxy.Rules.Externals.{Externals}
use hamsy_proxy.Rules.Compile.Status.{StatusMatcher, parse}

-- An invalid value with its message, `label 'value': message`.
abbrev quoted : Text → Text → Text → Text
quoted label value message = label ++ text " '" ++ value ++ text "': " ++ message

module _ (ext : Externals) where
  open ext use {Regex, regex_new, Glob, build_glob}

  pub record CompiledEntry : Type 0 where
    pub url_regex : Option Regex
    pub url_glob : Option Glob
    pub host_globs : List Glob
    pub status_matchers : List StatusMatcher
    pub req_header_regex : List (Option Regex)
    pub resp_header_regex : List (Option Regex)
    pub req_body_regex : Option Regex
    pub resp_body_regex : Option Regex
    pub action_regex : List (Option Regex)

  unfoldable pub compile_optional_regex : Text → List Text → Option Regex × List Text
  compile_optional_regex pattern errors = elim (regex_new pattern) [
    | ok re ↦ (some re, errors)
    | err e ↦ (none, errors ++ quoted (text "invalid regex") pattern e ∷ [])
  ]

  unfoldable pub compile_header_regex : HeaderOp → HeaderCond → List Text → Option Regex × List Text
  unfolding compile_optional_regex
  compile_header_regex HeaderOp.regex c errors = elim (c.value) [
    | some v ↦ compile_optional_regex v errors
    | none ↦ (
      none,
      errors
          ++ (text "header condition '" ++ c.name ++ text "' uses regex op without a value") ∷ [],
    )
  ]
  compile_header_regex op c errors = (none, errors)

  unfoldable pub compile_header_regexes :
      List HeaderCond → List Text → List (Option Regex) × List Text
  unfolding compile_header_regex
  compile_header_regexes [] errors = ([], errors)
  compile_header_regexes (c ∷ conds) errors =
      let (re, errors₁) = compile_header_regex (c.op) c errors in
      let (res, errors₂) = compile_header_regexes conds errors₁ in (re ∷ res, errors₂)

  body_regex : BodyCondOp → Text → List Text → Option Regex × List Text
  body_regex BodyCondOp.regex value errors = compile_optional_regex value errors
  body_regex op value errors = (none, errors)

  unfoldable pub compile_body_regex : Option BodyCond → List Text → Option Regex × List Text
  unfolding compile_optional_regex body_regex
  compile_body_regex none errors = (none, errors)
  compile_body_regex (some cond) errors = body_regex (cond.op) (cond.value) errors

  unfoldable pub compile_url_regex : UrlOp → Text → List Text → Option Regex × List Text
  compile_url_regex UrlOp.regex value errors = elim (regex_new value) [
    | ok re ↦ (some re, errors)
    | err e ↦ (none, errors ++ (text "invalid url regex: " ++ e) ∷ [])
  ]
  compile_url_regex op value errors = (none, errors)

  unfoldable pub compile_url_glob : UrlOp → Text → List Text → Option Glob × List Text
  compile_url_glob UrlOp.wildcard value errors = elim (build_glob value) [
    | ok g ↦ (some g, errors)
    | err e ↦ (none, errors ++ (text "invalid url glob: " ++ e) ∷ [])
  ]
  compile_url_glob op value errors = (none, errors)

  unfoldable pub compile_host_globs : List Text → List Glob → List Text → List Glob × List Text
  compile_host_globs [] globs errors = (globs, errors)
  compile_host_globs (pattern ∷ patterns) globs errors = elim (build_glob pattern) [
    | ok g ↦ compile_host_globs patterns (globs ++ g ∷ []) errors
    | err e ↦
        compile_host_globs patterns globs
          (errors ++ quoted (text "invalid host glob") pattern e ∷ [])
  ]

  unfoldable pub compile_action : Action → List Text → Option Regex × List Text
  unfolding compile_optional_regex
  compile_action (rewrite_url find to true) errors = compile_optional_regex find errors
  compile_action (replace_in_request_body find to true) errors = compile_optional_regex find errors
  compile_action (replace_in_response_body find to true) errors = compile_optional_regex find errors
  compile_action action errors = (none, errors)

  unfoldable pub compile_actions : List Action → List Text → List (Option Regex) × List Text
  unfolding compile_action
  compile_actions [] errors = ([], errors)
  compile_actions (a ∷ actions) errors =
      let (re, errors₁) = compile_action a errors in
      let (res, errors₂) = compile_actions actions errors₁ in (re ∷ res, errors₂)

  -- `if errors.is_empty() { Ok(…) } else { Err(errors) }`
  finish : CompiledEntry → List Text → Result CompiledEntry (List Text)
  finish entry [] = ok entry
  finish entry (e ∷ errors) = err (e ∷ errors)

  unfoldable pub compile_rule : Rule → Result CompiledEntry (List Text)
  unfolding compile_url_regex compile_url_glob compile_host_globs compile_header_regexes
      compile_body_regex compile_actions finish
  compile_rule rule =
      let m = rule.matcher in
      let (url_re, e₁) = compile_url_regex (m.url_op) (m.url_value) [] in
      let (glob, e₂) = compile_url_glob (m.url_op) (m.url_value) e₁ in
      let (globs, e₃) = compile_host_globs (m.host_ports) [] e₂ in
      let (req_headers, e₄) = compile_header_regexes (m.request_headers) e₃ in
      let (resp_headers, e₅) = compile_header_regexes (m.response_headers) e₄ in
      let (req_body, e₆) = compile_body_regex (m.request_body) e₅ in
      let (resp_body, e₇) = compile_body_regex (m.response_body) e₆ in
      let (acts, errors) = compile_actions (rule.actions) e₇ in
      finish
        (record {
          url_regex = url_re;
          url_glob = glob;
          host_globs = globs;
          status_matchers = filter_map parse (m.status_codes);
          req_header_regex = req_headers;
          resp_header_regex = resp_headers;
          req_body_regex = req_body;
          resp_body_regex = resp_body;
          action_regex = acts;
        })
        errors
