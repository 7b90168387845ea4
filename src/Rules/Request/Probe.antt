-- ===== src/Rules/Request/Probe.antt =====
-- A probe that does not ask for the body predicts the request phase: the body plays no part.
use hamsy_proxy.Shared.{
  ◌≡◌, refl, ap, ◌∙◌, Bool, true, false, Option, none, some, List, [], ◌∷◌, ◌||◌, any, sym, arith,
  ℕ, is_some,
}
use hamsy_proxy.Shared.Text.{Text}
use hamsy_proxy.Flow.{ResourceType, HeaderPair}
use hamsy_proxy.Rules.Model.{Action, Rule, BodyCond}
use hamsy_proxy.Rules.Externals.{Externals}
use hamsy_proxy.Rules.Bodies.{edits_request_body}
use hamsy_proxy.Rules.Compile.Entry.{CompiledEntry}
use hamsy_proxy.Rules.Compile.Set.{RuleSet, entries}
use hamsy_proxy.Rules.Matching.{matches_request, body_cond_matches}
use hamsy_proxy.Rules.Request.{
  RequestOutcome, RequestCtx, RequestState, put_url, drop_query_param, drop_request_header,
  request_action, request_actions, run_request_rule, rule_needs_request_body, request_loop,
  request_start, request_outcome, apply_request, needs_request_body,
}

module _ (ext : Externals) where
  open ext use {Regex, Url}

  abbrev pub with_body : Option Text → RequestState ext → RequestState ext
  with_body b st = record st { body = b }

  put_url-with_body :
      (u : Option Url) (b : Option Text) (st : RequestState ext)
      → put_url ext u (with_body b st) ≡ with_body b (put_url ext u st)
  unfolding put_url
  put_url-with_body none b st = refl
  put_url-with_body (some u) b st = refl

  drop_query_param-with_body :
      (p : Url × Bool) (b : Option Text) (st : RequestState ext)
      → drop_query_param ext p (with_body b st) ≡ with_body b (drop_query_param ext p st)
  unfolding drop_query_param
  drop_query_param-with_body (u, true) b st = refl
  drop_query_param-with_body (u, false) b st = refl

  drop_request_header-with_body :
      (p : List HeaderPair × Bool) (b : Option Text) (st : RequestState ext)
      → drop_request_header ext p (with_body b st) ≡ with_body b (drop_request_header ext p st)
  unfolding drop_request_header
  drop_request_header-with_body (u, true) b st = refl
  drop_request_header-with_body (u, false) b st = refl

  -- An action that does not edit the body does the same whatever the body is.
  request_action-with_body :
      (caps : Option (ℕ → Option Text)) (a : Action) (re : Option Regex) (b : Option Text)
      (st : RequestState ext)
      → edits_request_body a ≡ false
      → request_action ext caps a re (with_body b st)
        ≡ with_body b (request_action ext caps a re st)
  unfolding request_action edits_request_body
  request_action-with_body caps (Action.redirect to) re b st h = put_url-with_body _ b st
  request_action-with_body caps (Action.rewrite_url find to regex) re b st h =
      put_url-with_body _ b st
  request_action-with_body caps (Action.remove_query_param name) re b st h =
      drop_query_param-with_body _ b st
  request_action-with_body caps (Action.remove_request_header name) re b st h =
      drop_request_header-with_body _ b st
  request_action-with_body caps (Action.set_request_body body encoding ct) re b st h = cc
  request_action-with_body caps (Action.replace_in_request_body find to regex) re b st h = cc
  request_action-with_body caps (Action.json_patch_request ops) re b st h = cc
  request_action-with_body caps a re b st h = refl

  request_actions-with_body :
      (caps : Option (ℕ → Option Text)) (actions : List Action) (regexes : List (Option Regex))
      (b : Option Text) (st : RequestState ext)
      → any edits_request_body actions ≡ false
      → request_actions ext caps actions regexes (with_body b st)
        ≡ with_body b (request_actions ext caps actions regexes st)
  unfolding request_actions
  request_actions-with_body caps [] regexes b st h = refl
  request_actions-with_body caps (a ∷ actions) [] b st h = refl
  request_actions-with_body caps (a ∷ actions) (re ∷ regexes) b st h =
      ap (request_actions ext caps actions regexes)
        (request_action-with_body caps a re b st (ground arith))
      ∙ request_actions-with_body caps actions regexes b (request_action ext caps a re st)
          (ground arith)

  run_request_rule-with_body :
      (rule : Rule) (compiled : CompiledEntry ext) (b : Option Text) (st : RequestState ext)
      → rule_needs_request_body ext rule ≡ false
      → run_request_rule ext rule compiled (with_body b st)
        ≡ with_body b (run_request_rule ext rule compiled st)
  unfolding run_request_rule rule_needs_request_body
  run_request_rule-with_body rule compiled b st h =
      ap (λ (st' : RequestState ext). record st' { modified = st'.modified || st'.rule_modified })
        (request_actions-with_body _ (rule.actions) (compiled.action_regex) b _ (ground arith))

  -- A rule that a probe passes over is passed over whatever the body is.
  miss_of_probe :
      (rule : Rule) (compiled : CompiledEntry ext) (rt : ResourceType) (b : Option Text)
      (st : RequestState ext)
      → matches_request ext rule compiled (st.method) (st.url) (st.headers) (st.body) rt true
        ≡ false
      → matches_request ext rule compiled (st.method) (st.url) (st.headers) b rt false ≡ false
  unfolding matches_request
  miss_of_probe rule compiled rt b st h = ground arith

  no_condition :
      (cond : Option BodyCond) (re : Option Regex) (b : Option Text)
      → is_some cond ≡ false
      → body_cond_matches ext cond re b ≡ true
  unfolding body_cond_matches
  no_condition none re b h = refl
  no_condition (some c) re b h = cc

  -- A rule without a body condition that a probe takes is taken whatever the body is.
  hit_of_probe :
      (rule : Rule) (compiled : CompiledEntry ext) (rt : ResourceType) (b : Option Text)
      (st : RequestState ext)
      → rule_needs_request_body ext rule ≡ false
      → matches_request ext rule compiled (st.method) (st.url) (st.headers) (st.body) rt true ≡ true
      → matches_request ext rule compiled (st.method) (st.url) (st.headers) b rt false ≡ true
  unfolding matches_request rule_needs_request_body
  hit_of_probe rule compiled rt b st h e =
      ground (arith, no_condition (rule.matcher.request_body) (compiled.req_body_regex) b)

  pub request_loop-probe :
      (rt : ResourceType) (pairs : List (Rule × CompiledEntry ext)) (b : Option Text)
      (st : RequestState ext)
      → (request_loop ext true rt pairs st).needs_body ≡ false
      → request_loop ext false rt pairs (with_body b st)
        ≡ with_body b (request_loop ext true rt pairs st)
  unfolding request_loop
  request_loop-probe rt [] b st h = refl
  request_loop-probe rt ((rule, compiled) ∷ rest) b st h = ground (
    arith,
    miss_of_probe rule compiled rt b st,
    hit_of_probe rule compiled rt b st,
    run_request_rule-with_body rule compiled b st,
    request_loop-probe rt rest b st,
    request_loop-probe rt rest b (run_request_rule ext rule compiled st),
  )

  -- A probe that asks for no body has not stopped at a rule.
  pub needs_body_of_probe :
      (set : RuleSet ext) (ctx : RequestCtx ext)
      → needs_request_body ext set ctx ≡ false
      → (request_loop ext true
          (ctx.resource_type)
          (entries ext set)
          (request_start ext ctx)).needs_body
        ≡ false
  unfolding needs_request_body
  needs_body_of_probe set ctx h = ground arith

  -- If the probe asks for no body, then the request phase on any body has the outcome of the
  -- request phase on the probed context, with that body passed through untouched.
  pub apply_request_of_no_need :
      (set : RuleSet ext) (ctx : RequestCtx ext) (b : Option Text)
      → needs_request_body ext set ctx ≡ false
      → apply_request ext set (record ctx { body = b })
        ≡ record (apply_request ext set (record ctx { body = none })) { body = b }
  unfolding apply_request request_start
  apply_request_of_no_need set ctx b h =
      let pairs = entries ext set in
      let calm = needs_body_of_probe set ctx h in
      let run = λ (c : Option Text).
        request_loop-probe (ctx.resource_type) pairs c (request_start ext ctx) calm in
      ap (request_outcome ext) (run b)
      ∙ ap (λ (o : RequestOutcome). record o { body = b })
          (sym (ap (request_outcome ext) (run none)))
