-- ===== src/Rules/Externals.antt =====
-- What the rules take from other packages: regular expressions, globs, URLs, base64 and the JSON
-- reader and writer. Nothing is assumed of them; an error is its message.
use hamsy_proxy.Shared.{ℕ, Bool, Option, List, Result}
use hamsy_proxy.Shared.Text.{Text}
use hamsy_proxy.JsonPatch.Value.{Value}

pub record Externals : Type 1 where
  pub Regex : Type 0
  pub regex_new : Text → Result Regex Text
  pub is_match : Regex → Text → Bool
  -- the group with a number, if the text matches and the group took part
  pub captures : Regex → Text → Option (ℕ → Option Text)
  pub replace_all : Regex → Text → Text → Text
  pub Glob : Type 0
  pub build_glob : Text → Result Glob Text
  pub glob_match : Glob → Text → Bool
  pub Url : Type 0
  pub parse_url : Text → Option Url
  pub as_str : Url → Text
  pub host_str : Url → Option Text
  pub port : Url → Option ℕ
  pub scheme : Url → Text
  pub query_pairs : Url → List (Text × Text)
  -- `query_pairs_mut().clear().extend_pairs(pairs)`
  pub with_query_pairs : Url → List (Text × Text) → Url
  -- `set_query(None)`
  pub without_query : Url → Url
  pub base64_decode : Text → Option Text
  pub json_from_slice : Text → Option Value
  pub json_to_vec : Value → Option Text
