-- ===== src/Rules/RequestActions.antt =====
-- The state of `apply_request_inner` and what the body of its loop does with a rule that matches.
-- The mutable variables of the loop are the fields of `RequestState`.
use Prim.Native.Nat.{min}
use hamsy_proxy.Shared.{
  ℕ, Bool, true, false, Option, none, some, List, [], ◌∷◌, ◌++◌, ◌||◌, is_empty, if◌then◌else◌,
}
use hamsy_proxy.Shared.Words.{saturating_add}
use hamsy_proxy.Shared.Text.{Text, text, text_eq}
use hamsy_proxy.Flow.{ResourceType, HeaderPair}
use hamsy_proxy.Rules.Model.{UrlOp, Action, Rule}
use hamsy_proxy.Rules.Externals.{Externals}
use hamsy_proxy.Rules.Headers.{set_header, remove_header}
use hamsy_proxy.Rules.Captures.{
  substitute_captures, apply_find_replace, decode_payload_encoding, set_query_param,
  remove_query_param,
}
use hamsy_proxy.Rules.Bodies.{replaced_body, patched_body}
use hamsy_proxy.Rules.Compile.Entry.{CompiledEntry}

pub record MockedResponse : Type 0 where
  pub status : ℕ
  pub headers : List HeaderPair
  pub body : Text
  pub delay_ms : ℕ

pub record RequestOutcome : Type 0 where
  pub method : Text
  pub url : Text
  pub headers : List HeaderPair
  pub body : Option Text
  pub matched : List Text
  pub modified : Bool
  pub blocked : Option Text
  pub mocked : Option MockedResponse
  pub delay_ms : ℕ
  pub throttle_bps : Option ℕ

-- The most restrictive throttle so far.
unfoldable pub tighter : Option ℕ → ℕ → ℕ
tighter none new = new
tighter (some existing) new = min existing new

unfoldable pub set_content_type : Option Text → List HeaderPair → List HeaderPair
set_content_type none headers = headers
set_content_type (some ct) headers = set_header headers (text "Content-Type") ct

module _ (ext : Externals) where
  open ext use {Regex, captures, Url, parse_url, as_str}

  pub record RequestCtx : Type 0 where
    pub method : Text
    pub url : Url
    pub headers : List HeaderPair
    pub body : Option Text
    pub resource_type : ResourceType

  pub record RequestState : Type 0 where
    pub method : Text
    pub url : Url
    pub headers : List HeaderPair
    pub body : Option Text
    pub matched : List Text
    pub modified : Bool
    pub needs_body : Bool
    pub blocked : Option Text
    pub mocked : Option MockedResponse
    pub delay_ms : ℕ
    pub throttle_bps : Option ℕ
    pub rule_modified : Bool

  -- `if let Ok(parsed) = parsed { url = parsed; rule_modified = true; }`
  unfoldable pub put_url : Option Url → RequestState → RequestState
  put_url none st = st
  put_url (some parsed) st = record st { url = parsed; rule_modified = true }

  unfoldable pub put_body : Option Text → RequestState → RequestState
  put_body none st = st
  put_body (some bytes) st = record st { body = some bytes; rule_modified = true }

  unfoldable pub drop_query_param : Url × Bool → RequestState → RequestState
  drop_query_param (url, removed) st =
      if removed then record st { url = url; rule_modified = true } else record st { url = url }

  unfoldable pub drop_request_header : List HeaderPair × Bool → RequestState → RequestState
  drop_request_header (headers, removed) st =
      if removed
      then record st { headers = headers; rule_modified = true }
      else record st { headers = headers }

  -- The URL that a rewrite leads to, if it changes and parses.
  unfoldable pub rewritten_url : Text → Text → Option Url
  unfolding text_eq
  rewritten_url current updated = if text_eq updated current then none else parse_url updated

  -- The request-phase action of a matched rule, with the rule's captures.
  unfoldable pub request_action :
      Option (ℕ → Option Text) → Action → Option Regex → RequestState → RequestState
  unfolding put_url put_body drop_query_param drop_request_header rewritten_url set_content_type
  request_action caps (Action.redirect to) re st =
      put_url (parse_url (substitute_captures to caps)) st
  request_action caps (Action.rewrite_url find to regex) re st =
      let current = as_str (st.url) in
      put_url
        (rewritten_url current
          (apply_find_replace ext current find (substitute_captures to caps) regex re))
        st
  request_action caps (Action.set_query_param name value) re st = record st {
    url = set_query_param ext (st.url) name value;
    rule_modified = true;
  }
  request_action caps (Action.remove_query_param name) re st =
      drop_query_param (remove_query_param ext (st.url) name) st
  request_action caps (Action.set_request_header name value) re st = record st {
    headers = set_header (st.headers) name value;
    rule_modified = true;
  }
  request_action caps (Action.remove_request_header name) re st =
      drop_request_header (remove_header (st.headers) name) st
  request_action caps (Action.set_request_body new_body encoding content_type) re st = record st {
    body = some (decode_payload_encoding ext new_body encoding);
    headers = set_content_type content_type (st.headers);
    rule_modified = true;
  }
  request_action caps (Action.replace_in_request_body find to regex) re st =
      put_body (replaced_body ext (st.body) find to regex re) st
  request_action caps (Action.json_patch_request ops) re st =
      put_body (patched_body ext (st.body) ops) st
  request_action caps (Action.mock_response status headers body encoding delay_ms) re st =
      record st {
        mocked = some (record {
          status = status;
          headers = headers;
          body = decode_payload_encoding ext body encoding;
          delay_ms = delay_ms;
        });
        rule_modified = true;
      }
  request_action caps (Action.set_method method) re st = record st {
    method = method;
    rule_modified = true;
  }
  request_action caps (Action.block reason) re st = record st {
    blocked = some (if is_empty reason then text "blocked by rule" else reason);
    rule_modified = true;
  }
  request_action caps (Action.delay ms) re st = record st {
    delay_ms = saturating_add (st.delay_ms) ms;
  }
  request_action caps (Action.throttle bytes_per_sec) re st = record st {
    throttle_bps = some (tighter (st.throttle_bps) bytes_per_sec);
  }
  request_action caps (Action.set_response_header name value) re st = st
  request_action caps (Action.remove_response_header name) re st = st
  request_action caps (Action.set_response_body body encoding content_type) re st = st
  request_action caps (Action.replace_in_response_body find to regex) re st = st
  request_action caps (Action.json_patch_response ops) re st = st
  request_action caps (Action.set_status status) re st = st

  -- The loop over the actions, zipped with their compiled patterns.
  unfoldable pub request_actions :
      Option (ℕ → Option Text) → List Action → List (Option Regex) → RequestState → RequestState
  unfolding request_action
  request_actions caps [] regexes st = st
  request_actions caps (a ∷ actions) [] st = st
  request_actions caps (a ∷ actions) (re ∷ regexes) st =
      request_actions caps actions regexes (request_action caps a re st)

  unfoldable pub matcher_captures : UrlOp → Option Regex → Text → Option (ℕ → Option Text)
  matcher_captures UrlOp.regex (some re) url = captures re url
  matcher_captures op re url = none

  -- What the body of the loop does with a rule that matches, up to the `break`.
  unfoldable pub run_request_rule : Rule → CompiledEntry ext → RequestState → RequestState
  unfolding request_actions matcher_captures
  run_request_rule rule compiled st =
      let caps = matcher_captures (rule.matcher.url_op) (compiled.url_regex) (as_str (st.url)) in
      let st' =
        request_actions caps (rule.actions) (compiled.action_regex)
          (record st { matched = st.matched ++ rule.id ∷ []; rule_modified = false }) in
      record st' { modified = st'.modified || st'.rule_modified }
