-- ===== src/Rules/Response.antt =====
-- `apply_response_inner`, `apply_response` and `needs_response_body`. The mutable variables of the
-- loop are the fields of `ResponseState`.
pub mod Probe
pub mod Unmodified
use hamsy_proxy.Shared.{
  ℕ, Bool, true, false, Option, none, some, List, [], ◌∷◌, ◌++◌, ◌&&◌, ◌||◌, any, is_some,
  if◌then◌else◌,
}
use hamsy_proxy.Shared.Words.{saturating_add}
use hamsy_proxy.Shared.Text.{Text}
use hamsy_proxy.Flow.{ResourceType, HeaderPair}
use hamsy_proxy.Rules.Model.{Action, Rule}
use hamsy_proxy.Rules.Externals.{Externals}
use hamsy_proxy.Rules.Headers.{set_header, remove_header}
use hamsy_proxy.Rules.Captures.{decode_payload_encoding}
use hamsy_proxy.Rules.Bodies.{edits_response_body, replaced_body, patched_body}
use hamsy_proxy.Rules.Compile.Entry.{CompiledEntry}
use hamsy_proxy.Rules.Compile.Set.{RuleSet, entries}
use hamsy_proxy.Rules.Matching.{matches_response}
use hamsy_proxy.Rules.Request.{tighter, set_content_type}

pub record ResponseOutcome : Type 0 where
  pub status : ℕ
  pub headers : List HeaderPair
  pub body : Option Text
  pub matched : List Text
  pub modified : Bool
  pub delay_ms : ℕ
  pub throttle_bps : Option ℕ

pub record ResponseState : Type 0 where
  pub status : ℕ
  pub headers : List HeaderPair
  pub body : Option Text
  pub matched : List Text
  pub modified : Bool
  pub delay_ms : ℕ
  pub throttle_bps : Option ℕ
  pub short_circuit : Bool
  pub needs_body : Bool
  pub rule_modified : Bool

unfoldable pub put_response_body : Option Text → ResponseState → ResponseState
put_response_body none st = st
put_response_body (some bytes) st = record st { body = some bytes; rule_modified = true }

unfoldable pub drop_response_header : List HeaderPair × Bool → ResponseState → ResponseState
drop_response_header (headers, removed) st =
    if removed
    then record st { headers = headers; rule_modified = true }
    else record st { headers = headers }

unfoldable pub response_outcome : ResponseState → ResponseOutcome
response_outcome st = record {
  status = st.status;
  headers = st.headers;
  body = st.body;
  matched = st.matched;
  modified = st.modified;
  delay_ms = st.delay_ms;
  throttle_bps = st.throttle_bps;
}

module _ (ext : Externals) where
  open ext use {Regex, Url}

  pub record ResponseCtx : Type 0 where
    pub method : Text
    pub url : Url
    pub headers : List HeaderPair
    pub body : Option Text
    pub resource_type : ResourceType
    pub status : ℕ
    pub resp_headers : List HeaderPair
    pub resp_body : Option Text

  -- The response-phase action of a matched rule.
  unfoldable pub response_action : Action → Option Regex → ResponseState → ResponseState
  unfolding put_response_body drop_response_header set_content_type
  response_action (Action.set_response_header name value) re st = record st {
    headers = set_header (st.headers) name value;
    rule_modified = true;
  }
  response_action (Action.remove_response_header name) re st =
      drop_response_header (remove_header (st.headers) name) st
  response_action (Action.set_response_body new_body encoding content_type) re st = record st {
    body = some (decode_payload_encoding ext new_body encoding);
    headers = set_content_type content_type (st.headers);
    rule_modified = true;
  }
  response_action (Action.replace_in_response_body find to regex) re st =
      put_response_body (replaced_body ext (st.body) find to regex re) st
  response_action (Action.json_patch_response ops) re st =
      put_response_body (patched_body ext (st.body) ops) st
  response_action (Action.set_status status) re st = record st {
    status = status;
    rule_modified = true;
  }
  response_action (Action.delay ms) re st = record st { delay_ms = saturating_add (st.delay_ms) ms }
  response_action (Action.throttle bytes_per_sec) re st = record st {
    throttle_bps = some (tighter (st.throttle_bps) bytes_per_sec);
  }
  response_action (Action.block reason) re st = record st { short_circuit = true }
  response_action (Action.redirect to) re st = st
  response_action (Action.rewrite_url find to regex) re st = st
  response_action (Action.set_query_param name value) re st = st
  response_action (Action.remove_query_param name) re st = st
  response_action (Action.set_request_header name value) re st = st
  response_action (Action.remove_request_header name) re st = st
  response_action (Action.set_request_body body encoding content_type) re st = st
  response_action (Action.replace_in_request_body find to regex) re st = st
  response_action (Action.json_patch_request ops) re st = st
  response_action (Action.mock_response status headers body encoding delay_ms) re st = st
  response_action (Action.set_method method) re st = st

  unfoldable pub response_actions :
      List Action → List (Option Regex) → ResponseState → ResponseState
  unfolding response_action
  response_actions [] regexes st = st
  response_actions (a ∷ actions) [] st = st
  response_actions (a ∷ actions) (re ∷ regexes) st =
      response_actions actions regexes (response_action a re st)

  -- What the body of the loop does with a rule that matches, up to the `break`.
  unfoldable pub run_response_rule : Rule → CompiledEntry ext → ResponseState → ResponseState
  unfolding response_actions
  run_response_rule rule compiled st =
      let st' =
        response_actions (rule.actions) (compiled.action_regex)
          (record st { matched = st.matched ++ rule.id ∷ []; rule_modified = false }) in
      record st' { modified = st'.modified || st'.rule_modified }

  unfoldable pub rule_needs_response_body : Rule → Bool
  unfolding edits_response_body
  rule_needs_response_body rule =
      is_some (rule.matcher.response_body) || any edits_response_body (rule.actions)

  unfoldable pub response_loop :
      Bool → ResponseCtx → List (Rule × CompiledEntry ext) → ResponseState → ResponseState
  response_loop probe ctx [] st = st
  response_loop probe ctx ((rule, compiled) ∷ rest) st =
      elim (matches_response ext rule compiled (ctx.method) (ctx.url) (ctx.headers) (ctx.body)
        (ctx.resource_type) (st.status) (st.headers) (st.body) probe) [
          | false ↦ response_loop probe ctx rest st
          | true ↦ elim (probe && rule_needs_response_body rule) [
            | true ↦ record st { needs_body = true }
            | false ↦ elim ((run_response_rule rule compiled st).short_circuit) [
              | true ↦ run_response_rule rule compiled st
              | false ↦ response_loop probe ctx rest (run_response_rule rule compiled st)
            ]
          ]
        ]

  unfoldable pub response_start : ResponseCtx → ResponseState
  response_start ctx = record {
    status = ctx.status;
    headers = ctx.resp_headers;
    body = ctx.resp_body;
    matched = [];
    modified = false;
    delay_ms = 0;
    throttle_bps = none;
    short_circuit = false;
    needs_body = false;
    rule_modified = false;
  }

  unfoldable pub apply_response_inner : RuleSet ext → ResponseCtx → Bool → ResponseOutcome × Bool
  unfolding response_loop response_start response_outcome
  apply_response_inner set ctx probe =
      let st = response_loop probe ctx (entries ext set) (response_start ctx) in
      (response_outcome st, st.needs_body)

  unfoldable pub apply_response : RuleSet ext → ResponseCtx → ResponseOutcome
  unfolding apply_response_inner
  apply_response set ctx = (apply_response_inner set ctx false).0

  unfoldable pub needs_response_body : RuleSet ext → ResponseCtx → Bool
  unfolding apply_response_inner
  needs_response_body set ctx = (apply_response_inner set ctx true).1
