-- ===== src/Rules/Response/Unmodified.antt =====
-- What the flag `modified` of the response phase says.
use hamsy_proxy.Shared.{
  ◌≡◌, refl, ap, ◌∙◌, Bool, true, false, Option, none, some, List, [], ◌∷◌, ◌++◌, arith, ℕ,
}
use hamsy_proxy.Shared.Text.{Text}
use hamsy_proxy.Flow.{HeaderPair}
use hamsy_proxy.Rules.Model.{Action, Rule}
use hamsy_proxy.Rules.Externals.{Externals}
use hamsy_proxy.Rules.Headers.{remove_header_unchanged}
use hamsy_proxy.Rules.Compile.Entry.{CompiledEntry}
use hamsy_proxy.Rules.Compile.Set.{RuleSet, entries}
use hamsy_proxy.Rules.Response.{
  ResponseCtx, ResponseState, put_response_body, drop_response_header, response_action,
  response_actions, run_response_rule, response_loop, response_start, apply_response,
}

-- The parts of the state that a rule may modify.
abbrev Core : Type 0
Core = ℕ × List HeaderPair × Option Text × Bool

core : ResponseState → Core
core st = (st.status, st.headers, st.body, st.modified)

-- With the flag down after it, a step had it down before and left the core as it was.
abbrev IsCalm : ResponseState → ResponseState → Type 0
IsCalm st st' = st'.rule_modified ≡ false → (st.rule_modified ≡ false) × (core st' ≡ core st)

put_response_body-IsCalm :
    (b : Option Text) (st : ResponseState) → IsCalm st (put_response_body b st)
unfolding put_response_body
put_response_body-IsCalm none st h = (h, refl)
put_response_body-IsCalm (some u) st h = cc

drop_response_header-IsCalm :
    (p : List HeaderPair × Bool) (st : ResponseState)
    → (p.1 ≡ false → p.0 ≡ st.headers)
    → IsCalm st (drop_response_header p st)
unfolding drop_response_header core
drop_response_header-IsCalm (u, true) st keep h = cc
drop_response_header-IsCalm (u, false) st keep h = (h, rw (keep refl))

module _ (ext : Externals) where
  open ext use {Regex}

  response_action-IsCalm :
      (a : Action) (re : Option Regex) (st : ResponseState)
      → IsCalm st (response_action ext a re st)
  unfolding response_action core
  response_action-IsCalm (Action.remove_response_header name) re st h =
      drop_response_header-IsCalm _ st (remove_header_unchanged (st.headers) name) h
  response_action-IsCalm (Action.replace_in_response_body find to regex) re st h =
      put_response_body-IsCalm _ st h
  response_action-IsCalm (Action.json_patch_response ops) re st h = put_response_body-IsCalm _ st h
  response_action-IsCalm (Action.set_response_header name value) re st h = cc
  response_action-IsCalm (Action.set_response_body body encoding ct) re st h = cc
  response_action-IsCalm (Action.set_status status) re st h = cc
  response_action-IsCalm a re st h = (h, refl)

  response_actions-IsCalm :
      (actions : List Action) (regexes : List (Option Regex)) (st : ResponseState)
      → IsCalm st (response_actions ext actions regexes st)
  unfolding response_actions
  response_actions-IsCalm [] regexes st h = (h, refl)
  response_actions-IsCalm (a ∷ actions) [] st h = (h, refl)
  response_actions-IsCalm (a ∷ actions) (re ∷ regexes) st h =
      let (calm, same) = response_actions-IsCalm actions regexes (response_action ext a re st) h in
      let (calm', same') = response_action-IsCalm a re st calm in (calm', same ∙ same')

  run_response_rule_unmodified :
      (rule : Rule) (compiled : CompiledEntry ext) (st : ResponseState)
      → (run_response_rule ext rule compiled st).modified ≡ false
      → (st.modified ≡ false) × (core (run_response_rule ext rule compiled st) ≡ core st)
  unfolding run_response_rule core
  run_response_rule_unmodified rule compiled st h = ground (
    arith,
    response_actions-IsCalm (rule.actions) (compiled.action_regex)
        (record st { matched = st.matched ++ rule.id ∷ []; rule_modified = false }),
  )

  response_loop_unmodified :
      (probe : Bool) (ctx : ResponseCtx ext) (pairs : List (Rule × CompiledEntry ext))
      (st : ResponseState)
      → (response_loop ext probe ctx pairs st).modified ≡ false
      → (st.modified ≡ false) × (core (response_loop ext probe ctx pairs st) ≡ core st)
  unfolding response_loop core
  response_loop_unmodified probe ctx [] st h = (h, refl)
  response_loop_unmodified probe ctx ((rule, compiled) ∷ rest) st h = ground (
    arith,
    run_response_rule_unmodified rule compiled st,
    response_loop_unmodified probe ctx rest st,
    response_loop_unmodified probe ctx rest (run_response_rule ext rule compiled st),
  )

  -- If the response phase reports no modification, then the status, the headers and the body are
  -- those of the response.
  pub apply_response_unmodified :
      (set : RuleSet ext) (ctx : ResponseCtx ext)
      → (apply_response ext set ctx).modified ≡ false
      → let o = apply_response ext set ctx in
        (o.status ≡ ctx.status) × (o.headers ≡ ctx.resp_headers) × (o.body ≡ ctx.resp_body)
  unfolding apply_response response_start core
  apply_response_unmodified set ctx h =
      let run = response_loop_unmodified false ctx (entries ext set) (response_start ext ctx) h in
      (
        ap (λ (c : Core). c.0) (run.1),
        ap (λ (c : Core). c.1) (run.1),
        ap (λ (c : Core). c.2) (run.1),
      )
