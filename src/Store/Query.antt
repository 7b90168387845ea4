-- ===== src/Store/Query.antt =====
-- crates/hamsy-core/src/store.rs, `FlowQuery`, `list` and `flow_matches_search`.
use hamsy_proxy.Shared.{
  ℕ, ◌-◌, ◌/◌, Bool, false, not, Option, none, some, List, ◌==◌, ◌&&◌, ◌||◌, any, filter,
  filter_map, length, drop, is_empty, is_none_or, ltb, map, if◌then◌else◌,
}
use hamsy_proxy.Shared.Text.{Text, text_eq, contains, eq_ignore_ascii_case, to_ascii_lowercase}
use hamsy_proxy.Shared.Number.{to_decimal}
use hamsy_proxy.Flow.{ResourceType, resource_eq, HeaderPair, FlowSummary, Flow}
use hamsy_proxy.Store.{Inner}

pub record FlowQuery : Type 0 where
  pub after_seq : Option ℕ
  pub limit : Option ℕ
  pub search : Option Text
  pub methods : List Text
  pub status_class : Option ℕ
  pub resource_types : List ResourceType
  pub host : Option Text
  pub app : Option Text
  pub only_modified : Bool

abbrev some_and {ℓ} : {A : Type ℓ} → Option A → (A → Bool) → Bool
some_and none p = false
some_and (some a) p = p a

header_contains : Text → List HeaderPair → Bool
header_contains needle headers = any (λ h. contains (to_ascii_lowercase (h.value)) needle) headers

-- `results.split_off(len - limit)` where there are more than `limit`
unfoldable pub last_results : Option ℕ → List FlowSummary → List FlowSummary
last_results none results = results
last_results (some limit) results =
    if ltb limit (length results) then drop (length results - limit) results else results

module _ {F64 : Type 0} where
  unfoldable pub flow_matches_search : Flow F64 → Text → Bool
  unfolding header_contains contains to_ascii_lowercase to_decimal
  flow_matches_search flow needle =
      contains (to_ascii_lowercase (flow.summary.url)) needle
      || contains (to_ascii_lowercase (flow.summary.host)) needle
      || contains (to_ascii_lowercase (flow.summary.method)) needle
      || some_and (flow.summary.status) (λ s. contains (to_decimal s) needle)
      || some_and (flow.request) (λ r. header_contains needle (r.headers))
      || some_and (flow.response) (λ r. header_contains needle (r.headers))

  -- The filters of `list`, in their order.
  unfoldable pub matches_query : FlowQuery → Flow F64 → Bool
  unfolding flow_matches_search eq_ignore_ascii_case resource_eq to_ascii_lowercase text_eq
  matches_query query flow =
      is_none_or (query.after_seq) (λ after. ltb after (flow.summary.seq))
      && (is_empty (query.methods)
          || any (λ m. eq_ignore_ascii_case m (flow.summary.method)) (query.methods))
      && is_none_or (query.status_class)
          (λ class. some_and (flow.summary.status) (λ s. s / 100 == class))
      && (is_empty (query.resource_types)
          || any (resource_eq (flow.summary.resource_type)) (query.resource_types))
      && is_none_or (query.host)
          (λ h. text_eq (to_ascii_lowercase (flow.summary.host)) (to_ascii_lowercase h))
      && is_none_or (query.app) (λ a.
        some_and (flow.summary.app)
          (λ own. text_eq (to_ascii_lowercase own) (to_ascii_lowercase a)))
      && (not (query.only_modified) || flow.summary.modified)
      && is_none_or (query.search) (λ s. flow_matches_search flow (to_ascii_lowercase s))

  unfoldable pub list : Inner F64 → FlowQuery → List FlowSummary
  unfolding last_results matches_query
  list s query =
      last_results (query.limit)
        (map (λ flow. flow.summary) (filter (matches_query query) (filter_map (s.flows) (s.order))))
