-- ===== src/Rules/Request/Stops.antt =====
-- The order of the rules in the request phase: a rule that blocks or mocks ends it.
use mathlib.Core.List.{Sublist, nil-sublist, append_assoc, append-nil}
use mathlib.Core.List.Sublist
use hamsy_proxy.Shared.{
  ◌≡◌, refl, ap, ◌∙◌, sym, Bool, true, false, Option, List, [], ◌∷◌, ◌++◌, arith, ℕ, map,
  if◌then◌else◌, zip, Bool-cases, inl, inr,
}
use hamsy_proxy.Shared.Text.{Text}
use hamsy_proxy.Flow.{ResourceType, HeaderPair}
use hamsy_proxy.Rules.Model.{Rule, Action}
use hamsy_proxy.Rules.Externals.{Externals}
use hamsy_proxy.Rules.Compile.Entry.{CompiledEntry}
use hamsy_proxy.Rules.Compile.Set.{RuleSet, entries}
use hamsy_proxy.Rules.Request.{
  RequestCtx, RequestState, put_url, put_body, drop_query_param, drop_request_header,
  request_action, request_actions, request_loop, run_request_rule, halted, apply_request,
  request_start,
}
use hamsy_proxy.Rules.Matching.{matches_request}

module _ (ext : Externals) where
  open ext use {Regex, Url}

  -- The loop over two runs of rules is the loop over the first, followed by the loop over the
  -- second unless the first blocked or mocked the request.
  pub request_loop-append :
      (rt : ResourceType) (first second : List (Rule × CompiledEntry ext)) (st : RequestState ext)
      → halted ext st ≡ false
      → request_loop ext false rt (first ++ second) st ≡ (
          if halted ext (request_loop ext false rt first st)
          then request_loop ext false rt first st
          else request_loop ext false rt second (request_loop ext false rt first st))
  unfolding request_loop
  request_loop-append rt [] second st h = rw h
  request_loop-append rt ((rule, compiled) ∷ rest) second st h = ground (
    arith,
    request_loop-append rt rest second st,
    request_loop-append rt rest second (run_request_rule ext rule compiled st),
  )

  put_url-matched :
      (u : Option Url) (st : RequestState ext) → (put_url ext u st).matched ≡ st.matched
  unfolding put_url
  put_url-matched u st = ground arith

  put_body-matched :
      (b : Option Text) (st : RequestState ext) → (put_body ext b st).matched ≡ st.matched
  unfolding put_body
  put_body-matched b st = ground arith

  drop_query_param-matched :
      (p : Url × Bool) (st : RequestState ext) → (drop_query_param ext p st).matched ≡ st.matched
  unfolding drop_query_param
  drop_query_param-matched (u, removed) st = ground arith

  drop_request_header-matched :
      (p : List HeaderPair × Bool) (st : RequestState ext)
      → (drop_request_header ext p st).matched ≡ st.matched
  unfolding drop_request_header
  drop_request_header-matched (u, removed) st = ground arith

  request_action-matched :
      (caps : Option (ℕ → Option Text)) (a : Action) (re : Option Regex) (st : RequestState ext)
      → (request_action ext caps a re st).matched ≡ st.matched
  unfolding request_action
  request_action-matched caps (Action.redirect to) re st = put_url-matched _ st
  request_action-matched caps (Action.rewrite_url find to regex) re st = put_url-matched _ st
  request_action-matched caps (Action.remove_query_param name) re st = drop_query_param-matched _ st
  request_action-matched caps (Action.remove_request_header name) re st =
      drop_request_header-matched _ st
  request_action-matched caps (Action.replace_in_request_body find to regex) re st =
      put_body-matched _ st
  request_action-matched caps (Action.json_patch_request ops) re st = put_body-matched _ st
  request_action-matched caps a re st = refl

  request_actions-matched :
      (caps : Option (ℕ → Option Text)) (actions : List Action) (regexes : List (Option Regex))
      (st : RequestState ext)
      → (request_actions ext caps actions regexes st).matched ≡ st.matched
  unfolding request_actions
  request_actions-matched caps [] regexes st = refl
  request_actions-matched caps (a ∷ actions) [] st = refl
  request_actions-matched caps (a ∷ actions) (re ∷ regexes) st =
      request_actions-matched caps actions regexes (request_action ext caps a re st)
      ∙ request_action-matched caps a re st

  run_request_rule-matched :
      (rule : Rule) (compiled : CompiledEntry ext) (st : RequestState ext)
      → (run_request_rule ext rule compiled st).matched ≡ st.matched ++ rule.id ∷ []
  unfolding run_request_rule
  run_request_rule-matched rule compiled st =
      request_actions-matched _ (rule.actions) (compiled.action_regex) _

  abbrev ids : List (Rule × CompiledEntry ext) → List Text
  ids pairs = map (λ e. e.0.id) pairs

  -- What a run of the loop adds to the matched rules.
  abbrev Adds : List Text → List Text → List Text → Type 0
  Adds all before after = (added : List Text) × (after ≡ before ++ added) × Sublist added all

  Adds-cons :
      (id : Text) (rest before middle after : List Text)
      → middle ≡ before ++ id ∷ []
      → Adds rest middle after
      → Adds (id ∷ rest) before after
  Adds-cons id rest before middle after h (added, same, sub) = (
    id ∷ added,
    same ∙ ap (λ m. m ++ added) h ∙ append_assoc before (id ∷ []) added,
    Sublist.cons-cons id sub,
  )

  Adds-skip :
      (id : Text) (rest before after : List Text)
      → Adds rest before after
      → Adds (id ∷ rest) before after
  Adds-skip id rest before after (added, same, sub) = (added, same, Sublist.cons id sub)

  Adds-none : (rest before : List Text) → Adds rest before before
  Adds-none rest before = ([], sym (append-nil before), nil-sublist rest)

  request_loop-Adds :
      (rt : ResourceType) (pairs : List (Rule × CompiledEntry ext)) (st : RequestState ext)
      → Adds (ids pairs) (st.matched) ((request_loop ext false rt pairs st).matched)
  unfolding request_loop
  request_loop-Adds rt [] st = Adds-none [] (st.matched)
  request_loop-Adds rt ((rule, compiled) ∷ rest) st =
      let st' = run_request_rule ext rule compiled st in
      let here = Adds-cons (rule.id) (ids rest) (st.matched) (st'.matched) in
      let added = run_request_rule-matched rule compiled st in
      elim (Bool-cases
        (matches_request ext rule compiled (st.method) (st.url) (st.headers) (st.body) rt false)) [
          | inl hit ↦ elim (Bool-cases (halted ext st')) [
            | inl stop ↦
                rw (hit, stop, request_loop)
                  (here (st'.matched) added (Adds-none (ids rest) (st'.matched)))
            | inr go ↦
                rw (hit, go, request_loop)
                  (here ((request_loop ext false rt rest st').matched) added
                    (request_loop-Adds rt rest st'))
          ]
          | inr miss ↦
              rw (miss, request_loop)
                (Adds-skip (rule.id) (ids rest) (st.matched)
                  ((request_loop ext false rt rest st).matched) (request_loop-Adds rt rest st))
        ]

  ids-entries :
      (rules : List Rule) (compiled : List (CompiledEntry ext))
      → Sublist (ids (zip rules compiled)) (map (λ r. r.id) rules)
  ids-entries [] compiled = nil-sublist _
  ids-entries (r ∷ rules) [] = nil-sublist _
  ids-entries (r ∷ rules) (c ∷ compiled) = Sublist.cons-cons (r.id) (ids-entries rules compiled)

  -- The matched rules of the request phase are reported in the order of the rule set, each rule at
  -- most as often as it stands there.
  pub apply_request-matched :
      (set : RuleSet ext) (ctx : RequestCtx ext)
      → Sublist ((apply_request ext set ctx).matched) (map (λ r. r.id) (set.rules))
  unfolding apply_request request_start
  apply_request-matched set ctx =
      let (added, same, sub) =
        request_loop-Adds (ctx.resource_type) (entries ext set) (request_start ext ctx) in
      rw same (Sublist.trans sub (ids-entries (set.rules) (set.compiled)))

  -- The rule, where the request goes on to it and it matches.
  abbrev pub fired : Bool → Bool → Text → List Text
  fired true hit id = []
  fired false true id = id ∷ []
  fired false false id = []

  one_more-matched :
      (rt : ResourceType) (rule : Rule) (compiled : CompiledEntry ext) (st : RequestState ext)
      (stopped hit : Bool)
      → halted ext st ≡ stopped
      → matches_request ext rule compiled (st.method) (st.url) (st.headers) (st.body) rt false ≡ hit
      → (if stopped then st else request_loop ext false rt ((rule, compiled) ∷ []) st).matched
        ≡ st.matched ++ fired stopped hit (rule.id)
  unfolding request_loop
  one_more-matched rt rule compiled st true hit h m = sym (append-nil (st.matched))
  one_more-matched rt rule compiled st false false h m =
      rw (m, request_loop) (sym (append-nil (st.matched)))
  one_more-matched rt rule compiled st false true h m =
      elim (Bool-cases (halted ext (run_request_rule ext rule compiled st))) [
        | inl stop ↦ rw (m, stop, request_loop) (run_request_rule-matched rule compiled st)
        | inr go ↦ rw (m, go, request_loop) (run_request_rule-matched rule compiled st)
      ]

  start-not_halted : (ctx : RequestCtx ext) → halted ext (request_start ext ctx) ≡ false
  unfolding request_start
  start-not_halted ctx = refl

  -- The matched rules of the request phase, one rule after the other: behind any rules, a further one
  -- is reported at the end if none of them blocked or mocked the request and it matches the request as
  -- they left it, and else nothing more is reported.
  pub apply_request-matched_last :
      (set : RuleSet ext) (ctx : RequestCtx ext) (before : List (Rule × CompiledEntry ext))
      (rule : Rule) (compiled : CompiledEntry ext)
      → entries ext set ≡ before ++ (rule, compiled) ∷ []
      → let st = request_loop ext false (ctx.resource_type) before (request_start ext ctx) in
        (apply_request ext set ctx).matched
        ≡ st.matched
          ++ fired
              (halted ext st)
              (matches_request ext rule compiled
                (st.method)
                (st.url)
                (st.headers)
                (st.body)
                (ctx.resource_type)
                false)
              (rule.id)
  unfolding apply_request
  apply_request-matched_last set ctx before rule compiled last =
      let rt = ctx.resource_type in
      let first = request_start ext ctx in
      let st = request_loop ext false rt before first in
      ap (λ es. (request_loop ext false rt es first).matched) last
      ∙ ap (λ (t : RequestState ext). t.matched)
          (request_loop-append rt before ((rule, compiled) ∷ []) first (start-not_halted ctx))
      ∙ one_more-matched rt rule compiled st (halted ext st) _ refl refl
