-- ===== src/Rules/Request/Unmodified.antt =====
-- What the flag `modified` of the request phase says.
use hamsy_proxy.Shared.{
  ◌≡◌, refl, ap, ◌∙◌, Bool, true, false, Option, none, some, List, [], ◌∷◌, arith, ℕ, ◌++◌,
}
use hamsy_proxy.Shared.Text.{Text}
use hamsy_proxy.Flow.{ResourceType, HeaderPair}
use hamsy_proxy.Rules.Model.{Action, Rule}
use hamsy_proxy.Rules.Externals.{Externals}
use hamsy_proxy.Rules.Headers.{remove_header_unchanged}
use hamsy_proxy.Rules.Captures.{remove_query_param_unchanged}
use hamsy_proxy.Rules.Compile.Entry.{CompiledEntry}
use hamsy_proxy.Rules.Compile.Set.{RuleSet, entries}
use hamsy_proxy.Rules.Request.{
  MockedResponse, RequestCtx, RequestState, put_url, put_body, drop_query_param,
  drop_request_header, request_action, request_actions, run_request_rule, request_loop,
  request_start, apply_request, matcher_captures,
}

module _ (ext : Externals) where
  open ext use {Regex, Url, as_str}

  -- The parts of the state that a rule may modify.
  abbrev Core : Type 0
  Core = Text × Url × List HeaderPair × Option Text × Option Text × Option MockedResponse × Bool

  core : RequestState ext → Core
  core st = (st.method, st.url, st.headers, st.body, st.blocked, st.mocked, st.modified)

  -- With the flag down after it, a step had it down before and left the core as it was.
  abbrev IsCalm : RequestState ext → RequestState ext → Type 0
  IsCalm st st' = st'.rule_modified ≡ false → (st.rule_modified ≡ false) × (core st' ≡ core st)

  put_url-IsCalm : (u : Option Url) (st : RequestState ext) → IsCalm st (put_url ext u st)
  unfolding put_url
  put_url-IsCalm none st h = (h, refl)
  put_url-IsCalm (some u) st h = cc

  put_body-IsCalm : (b : Option Text) (st : RequestState ext) → IsCalm st (put_body ext b st)
  unfolding put_body
  put_body-IsCalm none st h = (h, refl)
  put_body-IsCalm (some u) st h = cc

  drop_query_param-IsCalm :
      (p : Url × Bool) (st : RequestState ext)
      → (p.1 ≡ false → p.0 ≡ st.url)
      → IsCalm st (drop_query_param ext p st)
  unfolding drop_query_param core
  drop_query_param-IsCalm (u, true) st keep h = cc
  drop_query_param-IsCalm (u, false) st keep h = (h, rw (keep refl))

  drop_request_header-IsCalm :
      (p : List HeaderPair × Bool) (st : RequestState ext)
      → (p.1 ≡ false → p.0 ≡ st.headers)
      → IsCalm st (drop_request_header ext p st)
  unfolding drop_request_header core
  drop_request_header-IsCalm (u, true) st keep h = cc
  drop_request_header-IsCalm (u, false) st keep h = (h, rw (keep refl))

  request_action-IsCalm :
      (caps : Option (ℕ → Option Text)) (a : Action) (re : Option Regex) (st : RequestState ext)
      → IsCalm st (request_action ext caps a re st)
  unfolding request_action core
  request_action-IsCalm caps (Action.redirect to) re st h = put_url-IsCalm _ st h
  request_action-IsCalm caps (Action.rewrite_url find to regex) re st h = put_url-IsCalm _ st h
  request_action-IsCalm caps (Action.remove_query_param name) re st h =
      drop_query_param-IsCalm _ st (remove_query_param_unchanged ext (st.url) name) h
  request_action-IsCalm caps (Action.remove_request_header name) re st h =
      drop_request_header-IsCalm _ st (remove_header_unchanged (st.headers) name) h
  request_action-IsCalm caps (Action.replace_in_request_body find to regex) re st h =
      put_body-IsCalm _ st h
  request_action-IsCalm caps (Action.json_patch_request ops) re st h = put_body-IsCalm _ st h
  request_action-IsCalm caps (Action.delay ms) re st h = (h, refl)
  request_action-IsCalm caps (Action.throttle bps) re st h = (h, refl)
  request_action-IsCalm caps (Action.set_response_header name value) re st h = (h, refl)
  request_action-IsCalm caps (Action.remove_response_header name) re st h = (h, refl)
  request_action-IsCalm caps (Action.set_response_body body encoding ct) re st h = (h, refl)
  request_action-IsCalm caps (Action.replace_in_response_body find to regex) re st h = (h, refl)
  request_action-IsCalm caps (Action.json_patch_response ops) re st h = (h, refl)
  request_action-IsCalm caps (Action.set_status status) re st h = (h, refl)
  request_action-IsCalm caps a re st h = cc

  request_actions-IsCalm :
      (caps : Option (ℕ → Option Text)) (actions : List Action) (regexes : List (Option Regex))
      (st : RequestState ext)
      → IsCalm st (request_actions ext caps actions regexes st)
  unfolding request_actions
  request_actions-IsCalm caps [] regexes st h = (h, refl)
  request_actions-IsCalm caps (a ∷ actions) [] st h = (h, refl)
  request_actions-IsCalm caps (a ∷ actions) (re ∷ regexes) st h =
      let (calm, same) =
        request_actions-IsCalm caps actions regexes (request_action ext caps a re st) h in
      let (calm', same') = request_action-IsCalm caps a re st calm in (calm', same ∙ same')

  run_request_rule_unmodified :
      (rule : Rule) (compiled : CompiledEntry ext) (st : RequestState ext)
      → (run_request_rule ext rule compiled st).modified ≡ false
      → (st.modified ≡ false) × (core (run_request_rule ext rule compiled st) ≡ core st)
  unfolding run_request_rule core
  run_request_rule_unmodified rule compiled st h = ground (
    arith,
    request_actions-IsCalm
        (matcher_captures ext (rule.matcher.url_op) (compiled.url_regex) (as_str (st.url)))
        (rule.actions) (compiled.action_regex)
        (record st { matched = st.matched ++ rule.id ∷ []; rule_modified = false }),
  )

  request_loop_unmodified :
      (probe : Bool) (rt : ResourceType) (pairs : List (Rule × CompiledEntry ext))
      (st : RequestState ext)
      → (request_loop ext probe rt pairs st).modified ≡ false
      → (st.modified ≡ false) × (core (request_loop ext probe rt pairs st) ≡ core st)
  unfolding request_loop core
  request_loop_unmodified probe rt [] st h = (h, refl)
  request_loop_unmodified probe rt ((rule, compiled) ∷ rest) st h = ground (
    arith,
    run_request_rule_unmodified rule compiled st,
    request_loop_unmodified probe rt rest st,
    request_loop_unmodified probe rt rest (run_request_rule ext rule compiled st),
  )

  -- If the request phase reports no modification, then the method, the URL, the headers and the
  -- body are those of the request, and the request is neither blocked nor mocked.
  pub apply_request_unmodified :
      (set : RuleSet ext) (ctx : RequestCtx ext)
      → (apply_request ext set ctx).modified ≡ false
      → let o = apply_request ext set ctx in
        (o.method ≡ ctx.method)
        × (o.url ≡ as_str (ctx.url))
        × (o.headers ≡ ctx.headers)
        × (o.body ≡ ctx.body)
        × (o.blocked ≡ none)
        × (o.mocked ≡ none)
  unfolding apply_request request_start core
  apply_request_unmodified set ctx h =
      let pairs = entries ext set in
      let run = request_loop_unmodified false (ctx.resource_type) pairs (request_start ext ctx) h in
      (
        ap (λ (c : Core). c.0) (run.1),
        ap (λ (c : Core). as_str (c.1)) (run.1),
        ap (λ (c : Core). c.2) (run.1),
        ap (λ (c : Core). c.3) (run.1),
        ap (λ (c : Core). c.4) (run.1),
        ap (λ (c : Core). c.5) (run.1),
      )
