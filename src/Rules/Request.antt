-- ===== src/Rules/Request.antt =====
-- `apply_request_inner`, `apply_request` and `needs_request_body`. The loop over the rules.
pub mod Probe
pub mod Unmodified
pub mod Stops
use Prim.Native.Nat.{min}
use hamsy_proxy.Shared.{
  ℕ, Bool, true, false, not, Option, none, some, List, [], ◌∷◌, ◌++◌, ◌&&◌, ◌||◌, any, is_some,
  is_empty, if◌then◌else◌,
}
use hamsy_proxy.Shared.Words.{saturating_add}
use hamsy_proxy.Shared.Text.{Text, text, text_eq}
use hamsy_proxy.Flow.{ResourceType, HeaderPair}
use hamsy_proxy.Rules.Model.{UrlOp, BodyCond, Action, Rule}
use hamsy_proxy.Rules.Externals.{Externals}
use hamsy_proxy.Rules.Headers.{set_header, remove_header}
use hamsy_proxy.Rules.Captures.{
  substitute_captures, apply_find_replace, decode_payload_encoding, set_query_param,
  remove_query_param,
}
use hamsy_proxy.Rules.Bodies.{edits_request_body, replaced_body, patched_body}
use hamsy_proxy.Rules.Compile.Entry.{CompiledEntry}
use hamsy_proxy.Rules.Compile.Set.{RuleSet, entries}
use hamsy_proxy.Rules.Matching.{matches_request}
pub use hamsy_proxy.Rules.RequestActions.{MockedResponse, RequestOutcome, RequestCtx, RequestState}
unfoldable pub use hamsy_proxy.Rules.RequestActions.{
  tighter, set_content_type, put_url, put_body, drop_query_param, drop_request_header,
  rewritten_url, request_action, request_actions, matcher_captures, run_request_rule,
}

module _ (ext : Externals) where
  open ext use {Regex, captures, Url, parse_url, as_str}

  -- `blocked.is_some() || mocked.is_some()`
  abbrev pub halted : RequestState ext → Bool
  halted st = is_some (st.blocked) || is_some (st.mocked)

  -- Whether a probe must stop at a rule that matches.
  unfoldable pub rule_needs_request_body : Rule → Bool
  unfolding edits_request_body
  rule_needs_request_body rule =
      is_some (rule.matcher.request_body) || any edits_request_body (rule.actions)

  unfoldable pub request_loop :
      Bool → ResourceType → List (Rule × CompiledEntry ext) → RequestState ext → RequestState ext
  request_loop probe rt [] st = st
  request_loop probe rt ((rule, compiled) ∷ rest) st =
      elim (matches_request ext rule compiled (st.method) (st.url) (st.headers) (st.body) rt
        probe) [
          | false ↦ request_loop probe rt rest st
          | true ↦ elim (probe && rule_needs_request_body rule) [
            | true ↦ record st { needs_body = true }
            | false ↦ elim (halted (run_request_rule ext rule compiled st)) [
              | true ↦ run_request_rule ext rule compiled st
              | false ↦ request_loop probe rt rest (run_request_rule ext rule compiled st)
            ]
          ]
        ]

  unfoldable pub request_start : RequestCtx ext → RequestState ext
  request_start ctx = record {
    method = ctx.method;
    url = ctx.url;
    headers = ctx.headers;
    body = ctx.body;
    matched = [];
    modified = false;
    needs_body = false;
    blocked = none;
    mocked = none;
    delay_ms = 0;
    throttle_bps = none;
    rule_modified = false;
  }

  -- A response rule with a request-body condition that the rewritten request can reach.
  unfoldable pub reaches_body_condition :
      ResourceType → RequestState ext → List (Rule × CompiledEntry ext) → Bool
  unfolding matches_request
  reaches_body_condition rt st pairs =
      any
        (λ e.
          is_some (e.0.matcher.request_body)
          && matches_request ext (e.0) (e.1) (st.method) (st.url) (st.headers) none rt true)
        pairs

  unfoldable pub request_outcome : RequestState ext → RequestOutcome
  request_outcome st = record {
    method = st.method;
    url = as_str (st.url);
    headers = st.headers;
    body = st.body;
    matched = st.matched;
    modified = st.modified;
    blocked = st.blocked;
    mocked = st.mocked;
    delay_ms = st.delay_ms;
    throttle_bps = st.throttle_bps;
  }

  unfoldable pub apply_request_inner : RuleSet ext → RequestCtx ext → Bool → RequestOutcome × Bool
  unfolding request_loop request_start reaches_body_condition request_outcome
  apply_request_inner set ctx probe =
      let st = request_loop probe (ctx.resource_type) (entries ext set) (request_start ctx) in
      (
        request_outcome st,
        if probe && not (st.needs_body) && not (halted st)
            then reaches_body_condition (ctx.resource_type) st (entries ext set)
            else st.needs_body,
      )

  unfoldable pub apply_request : RuleSet ext → RequestCtx ext → RequestOutcome
  unfolding apply_request_inner
  apply_request set ctx = (apply_request_inner set ctx false).0

  unfoldable pub needs_request_body : RuleSet ext → RequestCtx ext → Bool
  unfolding apply_request_inner
  needs_request_body set ctx = (apply_request_inner set ctx true).1
