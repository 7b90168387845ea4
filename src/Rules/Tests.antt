-- ===== src/Rules/Tests.antt =====
-- The two phases, the compilation and the headers on the sample rules.
use hamsy_proxy.Shared.{◌≡◌, refl, false, some, none, List, [], ◌∷◌, filter}
use hamsy_proxy.Shared.Text.{text, contains}
use hamsy_proxy.Shared.Int.{pos}
use hamsy_proxy.Rules.Headers.{set_header}
use hamsy_proxy.Rules.Compile.Status.{parse, exact, class, range}
use hamsy_proxy.Rules.Compile.Order.{has_priority}
use hamsy_proxy.Rules.Compile.Set.{RuleSet, new}
use hamsy_proxy.Rules.Compile.Entry.{CompiledEntry}
use hamsy_proxy.Rules.Model.{Rule, BodyCondOp, Action}
use hamsy_proxy.Rules.Compile.Laws.{Ascending, is_kept, new-Ascending, new_stable}
use hamsy_proxy.Rules.Request.{
  RequestCtx, needs_request_body, apply_request, run_request_rule, rule_needs_request_body,
}
use hamsy_proxy.Rules.Request.Probe.{apply_request_of_no_need}
use hamsy_proxy.Rules.Request.Unmodified.{apply_request_unmodified}
use hamsy_proxy.Rules.Request.Stops.{apply_request-matched_last}
use hamsy_proxy.Rules.Response.{
  needs_response_body, apply_response, rule_needs_response_body, run_response_rule,
}
use hamsy_proxy.Rules.Matching.{matches_response}
use hamsy_proxy.Rules.Response.Probe.{apply_response_of_no_need}
use hamsy_proxy.Rules.Response.Unmodified.{apply_response_unmodified}
use hamsy_proxy.Rules.Samples.{
  plain_texts, three_rules, set, request, response, post, unrelated, rule, any_matcher, header_rule,
  status_rule,
}

no_request_body : needs_request_body plain_texts set request ≡ false
unfolding needs_request_body new contains run_request_rule rule_needs_request_body
no_request_body = refl

apply_request_of_no_need_example :
    apply_request plain_texts set (record request { body = some (text "data") })
    ≡ record (apply_request plain_texts set (record request { body = none })) {
      body = some (text "data");
    }
apply_request_of_no_need_example =
    apply_request_of_no_need plain_texts set request (some (text "data")) no_request_body

nothing_matches : (apply_request plain_texts unrelated request).modified ≡ false
unfolding apply_request new run_request_rule contains set_header
nothing_matches = refl

apply_request_unmodified_example :
    let o = apply_request plain_texts unrelated request in
    (o.method ≡ text "GET")
    × (o.url ≡ text "u")
    × (o.headers ≡ [])
    × (o.body ≡ none)
    × (o.blocked ≡ none)
    × (o.mocked ≡ none)
apply_request_unmodified_example =
    apply_request_unmodified plain_texts unrelated request nothing_matches

abbrev plain_entry : CompiledEntry plain_texts
plain_entry = record {
  url_regex = none;
  url_glob = none;
  host_globs = [];
  status_matchers = [];
  req_header_regex = [];
  resp_header_regex = [];
  req_body_regex = none;
  resp_body_regex = none;
  action_regex = none ∷ [];
}

abbrev two_rules : RuleSet plain_texts
two_rules = new plain_texts (header_rule ∷ status_rule ∷ [])

abbrev before : List (Rule × CompiledEntry plain_texts)
before = (status_rule, plain_entry) ∷ []

apply_request-matched_last_example :
    (apply_request plain_texts two_rules request).matched ≡ text "s" ∷ text "h" ∷ []
unfolding new hamsy_proxy.Rules.Request.request_loop hamsy_proxy.Rules.Request.request_start
    run_request_rule hamsy_proxy.Rules.Matching.matches_request
apply_request-matched_last_example =
    apply_request-matched_last plain_texts two_rules request before header_rule plain_entry refl

no_response_body : needs_response_body plain_texts set response ≡ false
unfolding needs_response_body new contains matches_response rule_needs_response_body
    run_response_rule
no_response_body = refl

apply_response_of_no_need_example :
    apply_response plain_texts set (record response { resp_body = post })
    ≡ record (apply_response plain_texts set (record response { resp_body = none })) { body = post }
apply_response_of_no_need_example =
    apply_response_of_no_need plain_texts set response post no_response_body

no_response_rule : (apply_response plain_texts unrelated response).modified ≡ false
unfolding apply_response new contains matches_response
no_response_rule = refl

apply_response_unmodified_example :
    let o = apply_response plain_texts unrelated response in
    (o.status ≡ 200) × (o.headers ≡ []) × (o.body ≡ none)
apply_response_unmodified_example =
    apply_response_unmodified plain_texts unrelated response no_response_rule

-- A rule on the body of POST requests, behind one that rewrites the method to GET.
abbrev rewriting : RuleSet plain_texts
rewriting = new plain_texts (
    rule (text "m") 1 any_matcher (Action.set_method (text "GET") ∷ [])
    ∷ rule (text "p") 2
        (record any_matcher {
          methods = text "POST" ∷ [];
          request_body = some (record { op = BodyCondOp.contains; value = text "data" });
        })
        (Action.set_status 500 ∷ [])
    ∷ [])

abbrev posted : RequestCtx plain_texts
posted = record request { method = text "POST" }

-- The probe does not see the body condition, while a response phase with the method of the client does.
client_method :
    (needs_request_body plain_texts rewriting posted ≡ false)
    × ((apply_response plain_texts rewriting (record response { method = text "POST" })).status
        ≡ 200)
    × ((apply_response plain_texts rewriting
          (record response { method = text "POST"; body = post })).status
        ≡ 500)
unfolding needs_request_body new rule_needs_request_body run_request_rule apply_response
    matches_response run_response_rule contains
client_method = (refl, refl, refl)

new-Ascending_example : Ascending ((new plain_texts three_rules).rules)
new-Ascending_example = new-Ascending plain_texts three_rules

new_stable_example :
    filter (has_priority (pos 1)) ((new plain_texts three_rules).rules)
    ≡ filter (is_kept plain_texts) (filter (has_priority (pos 1)) three_rules)
new_stable_example = new_stable plain_texts three_rules (pos 1)

parse_tests :
    (parse (text " 4xx") ≡ some (class 4))
    × (parse (text "500 - 599") ≡ some (range 500 599))
    × (parse (text "204") ≡ some (exact 204))
    × (parse (text "70000") ≡ none)
unfolding parse
parse_tests = (refl, refl, refl, refl)
