-- ===== src/Rules/Bodies.antt =====
-- `apply_json_ops`, the body edits that both phases share, and which actions are body edits.
use hamsy_proxy.Shared.{Bool, true, false, Option, none, some, List}
use mathlib.Core.Option
use hamsy_proxy.Shared.Text.{Text, text_eq}
use hamsy_proxy.Shared.Utf8.{from_utf8_lossy}
use hamsy_proxy.JsonPatch.Ops.{JsonOp, run_ops}
use hamsy_proxy.Rules.Model.{
  Action, set_request_body, set_response_body, replace_in_request_body, replace_in_response_body,
  json_patch_request, json_patch_response,
}
use hamsy_proxy.Rules.Externals.{Externals}
use hamsy_proxy.Rules.Captures.{apply_find_replace}

-- The actions for which a probe of the request phase asks for the body.
unfoldable pub edits_request_body : Action → Bool
edits_request_body (set_request_body body encoding content_type) = true
edits_request_body (replace_in_request_body find to regex) = true
edits_request_body (json_patch_request ops) = true
edits_request_body action = false

unfoldable pub edits_response_body : Action → Bool
edits_response_body (set_response_body body encoding content_type) = true
edits_response_body (replace_in_response_body find to regex) = true
edits_response_body (json_patch_response ops) = true
edits_response_body action = false

module _ (ext : Externals) where
  open ext use {Regex, json_from_slice, json_to_vec}

  unfoldable pub apply_json_ops : Text → List JsonOp → Option Text
  unfolding run_ops
  apply_json_ops bytes ops =
      Option.bind (json_from_slice bytes) (λ value. json_to_vec (run_ops value ops))

  -- The new body of a find-and-replace action; `none` where it stays.
  unfoldable pub replaced_body : Option Text → Text → Text → Bool → Option Regex → Option Text
  unfolding apply_find_replace from_utf8_lossy text_eq
  replaced_body none find to regex compiled = none
  replaced_body (some bytes) find to regex compiled =
      let input = from_utf8_lossy bytes in
      let replaced = apply_find_replace ext input find to regex compiled in
      elim (text_eq replaced input) [ true ↦ none | false ↦ some replaced ]

  -- The new body of a patch action; `none` where it stays.
  unfoldable pub patched_body : Option Text → List JsonOp → Option Text
  unfolding apply_json_ops
  patched_body none ops = none
  patched_body (some bytes) ops = apply_json_ops bytes ops
