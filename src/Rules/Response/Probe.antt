-- ===== src/Rules/Response/Probe.antt =====
-- A probe that does not ask for the response body predicts the response phase.
use hamsy_proxy.Shared.{
  ◌≡◌, refl, ap, ◌∙◌, sym, Bool, true, false, Option, none, some, List, [], ◌∷◌, ◌||◌, any, arith,
  is_some,
}
use hamsy_proxy.Shared.Text.{Text}
use hamsy_proxy.Flow.{HeaderPair}
use hamsy_proxy.Rules.Model.{Action, Rule, BodyCond}
use hamsy_proxy.Rules.Externals.{Externals}
use hamsy_proxy.Rules.Bodies.{edits_response_body}
use hamsy_proxy.Rules.Compile.Entry.{CompiledEntry}
use hamsy_proxy.Rules.Compile.Set.{RuleSet, entries}
use hamsy_proxy.Rules.Matching.{matches_response, body_cond_matches}
use hamsy_proxy.Rules.Response.{
  ResponseOutcome, ResponseCtx, ResponseState, drop_response_header, response_action,
  response_actions, run_response_rule, rule_needs_response_body, response_loop, response_start,
  response_outcome, apply_response, needs_response_body,
}

abbrev with_body : Option Text → ResponseState → ResponseState
with_body b st = record st { body = b }

drop_response_header-with_body :
    (p : List HeaderPair × Bool) (b : Option Text) (st : ResponseState)
    → drop_response_header p (with_body b st) ≡ with_body b (drop_response_header p st)
unfolding drop_response_header
drop_response_header-with_body (u, true) b st = refl
drop_response_header-with_body (u, false) b st = refl

module _ (ext : Externals) where
  open ext use {Regex, Url}

  response_action-with_body :
      (a : Action) (re : Option Regex) (b : Option Text) (st : ResponseState)
      → edits_response_body a ≡ false
      → response_action ext a re (with_body b st) ≡ with_body b (response_action ext a re st)
  unfolding response_action edits_response_body
  response_action-with_body (Action.remove_response_header name) re b st h =
      drop_response_header-with_body _ b st
  response_action-with_body (Action.set_response_body body encoding ct) re b st h = cc
  response_action-with_body (Action.replace_in_response_body find to regex) re b st h = cc
  response_action-with_body (Action.json_patch_response ops) re b st h = cc
  response_action-with_body a re b st h = refl

  response_actions-with_body :
      (actions : List Action) (regexes : List (Option Regex)) (b : Option Text) (st : ResponseState)
      → any edits_response_body actions ≡ false
      → response_actions ext actions regexes (with_body b st)
        ≡ with_body b (response_actions ext actions regexes st)
  unfolding response_actions
  response_actions-with_body [] regexes b st h = refl
  response_actions-with_body (a ∷ actions) [] b st h = refl
  response_actions-with_body (a ∷ actions) (re ∷ regexes) b st h =
      ap (response_actions ext actions regexes) (response_action-with_body a re b st (ground arith))
      ∙ response_actions-with_body actions regexes b (response_action ext a re st) (ground arith)

  run_response_rule-with_body :
      (rule : Rule) (compiled : CompiledEntry ext) (b : Option Text) (st : ResponseState)
      → rule_needs_response_body ext rule ≡ false
      → run_response_rule ext rule compiled (with_body b st)
        ≡ with_body b (run_response_rule ext rule compiled st)
  unfolding run_response_rule rule_needs_response_body
  run_response_rule-with_body rule compiled b st h =
      ap (λ (st' : ResponseState). record st' { modified = st'.modified || st'.rule_modified })
        (response_actions-with_body (rule.actions) (compiled.action_regex) b _ (ground arith))

  module _ (ctx : ResponseCtx ext) where
    -- The match of a rule at a state of the loop.
    abbrev hits : Rule → CompiledEntry ext → ResponseState → Option Text → Bool → Bool
    hits rule compiled st b probe =
        matches_response ext rule compiled (ctx.method) (ctx.url) (ctx.headers) (ctx.body)
          (ctx.resource_type) (st.status) (st.headers) b probe

    miss_of_probe :
        (rule : Rule) (compiled : CompiledEntry ext) (b : Option Text) (st : ResponseState)
        → hits rule compiled st (st.body) true ≡ false
        → hits rule compiled st b false ≡ false
    unfolding matches_response
    miss_of_probe rule compiled b st h = ground arith

    no_condition :
        (cond : Option BodyCond) (re : Option Regex) (b : Option Text)
        → is_some cond ≡ false
        → body_cond_matches ext cond re b ≡ true
    unfolding body_cond_matches
    no_condition none re b h = refl
    no_condition (some c) re b h = cc

    hit_of_probe :
        (rule : Rule) (compiled : CompiledEntry ext) (b : Option Text) (st : ResponseState)
        → rule_needs_response_body ext rule ≡ false
        → hits rule compiled st (st.body) true ≡ true
        → hits rule compiled st b false ≡ true
    unfolding matches_response rule_needs_response_body
    hit_of_probe rule compiled b st h e =
        ground (arith, no_condition (rule.matcher.response_body) (compiled.resp_body_regex) b)

    response_loop-probe :
        (pairs : List (Rule × CompiledEntry ext)) (b : Option Text) (st : ResponseState)
        → (response_loop ext true ctx pairs st).needs_body ≡ false
        → response_loop ext false ctx pairs (with_body b st)
          ≡ with_body b (response_loop ext true ctx pairs st)
    unfolding response_loop
    response_loop-probe [] b st h = refl
    response_loop-probe ((rule, compiled) ∷ rest) b st h = ground (
      arith,
      miss_of_probe rule compiled b st,
      hit_of_probe rule compiled b st,
      run_response_rule-with_body rule compiled b st,
      response_loop-probe rest b st,
      response_loop-probe rest b (run_response_rule ext rule compiled st),
    )

  -- The loop reads only the request part of its context.
  response_loop-ctx :
      (ctx : ResponseCtx ext) (probe : Bool) (b : Option Text)
      (pairs : List (Rule × CompiledEntry ext)) (st : ResponseState)
      → response_loop ext probe (record ctx { resp_body = b }) pairs st
        ≡ response_loop ext probe ctx pairs st
  unfolding response_loop
  response_loop-ctx ctx probe b [] st = refl
  response_loop-ctx ctx probe b ((rule, compiled) ∷ rest) st = ground (
    arith,
    response_loop-ctx ctx probe b rest st,
    response_loop-ctx ctx probe b rest (run_response_rule ext rule compiled st),
  )

  needs_body_of_probe :
      (set : RuleSet ext) (ctx : ResponseCtx ext)
      → needs_response_body ext set ctx ≡ false
      → (response_loop ext true ctx (entries ext set) (response_start ext ctx)).needs_body ≡ false
  unfolding needs_response_body
  needs_body_of_probe set ctx h = h

  apply_response-run :
      (set : RuleSet ext) (ctx : ResponseCtx ext) (b : Option Text)
      → needs_response_body ext set ctx ≡ false
      → apply_response ext set (record ctx { resp_body = b })
        ≡ response_outcome
            (with_body b (response_loop ext true ctx (entries ext set) (response_start ext ctx)))
  unfolding apply_response response_start
  apply_response-run set ctx b h =
      let pairs = entries ext set in
      ap response_outcome (
        response_loop-ctx ctx false b pairs (with_body b (response_start ext ctx))
        ∙ response_loop-probe ctx pairs b (response_start ext ctx) (needs_body_of_probe set ctx h))

  -- If the probe asks for no response body, then the response phase on any response body has the
  -- outcome of the response phase without one, with that body passed through untouched.
  pub apply_response_of_no_need :
      (set : RuleSet ext) (ctx : ResponseCtx ext) (b : Option Text)
      → needs_response_body ext set ctx ≡ false
      → apply_response ext set (record ctx { resp_body = b })
        ≡ record (apply_response ext set (record ctx { resp_body = none })) { body = b }
  unfolding response_outcome
  apply_response_of_no_need set ctx b h =
      apply_response-run set ctx b h
      ∙ ap (λ (o : ResponseOutcome). record o { body = b })
          (sym (apply_response-run set ctx none h))
