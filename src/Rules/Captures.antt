-- ===== src/Rules/Captures.antt =====
-- `substitute_captures`, `apply_find_replace`, `decode_payload_encoding` and the query parameters.
use hamsy_proxy.Shared.{
  ℕ, ◌-◌, ◌≡◌, Bool, true, false, not, Option, none, some, List, [], ◌∷◌, ◌++◌, ◌==◌, ◌&&◌, arith,
  leb, length, filter, is_empty, unwrap_or, if◌then◌else◌,
}
use hamsy_proxy.Shared.Text.{Text, text_eq, replace}
use hamsy_proxy.Rules.Model.{PayloadEncoding, plain, base64}
use hamsy_proxy.Rules.Externals.{Externals}

abbrev is_group : ℕ → Bool
is_group c = leb b'0' c && leb c b'9' && not (c == b'0')

-- The loop over the template; a pending dollar sign has been read and not yet written.
unfoldable pub substitute_from : (ℕ → Option Text) → Bool → Text → Text
substitute_from caps false [] = []
substitute_from caps true [] = b'$' ∷ []
substitute_from caps false (c ∷ rest) =
    let pending = substitute_from caps true rest in
    let plain_text = c ∷ substitute_from caps false rest in
    if c == b'$' then pending else plain_text
substitute_from caps true (c ∷ rest) =
    let group = unwrap_or (caps (c - b'0')) [] ++ substitute_from caps false rest in
    let pending = b'$' ∷ substitute_from caps true rest in
    let plain_text = b'$' ∷ c ∷ substitute_from caps false rest in
    if is_group c then group else if c == b'$' then pending else plain_text

unfoldable pub substitute_captures : Text → Option (ℕ → Option Text) → Text
unfolding substitute_from
substitute_captures template none = template
substitute_captures template (some caps) = substitute_from caps false template

module _ (ext : Externals) where
  open ext use {
    Regex, replace_all, Url, query_pairs, with_query_pairs, without_query, base64_decode,
  }

  unfoldable pub apply_find_replace : Text → Text → Text → Bool → Option Regex → Text
  unfolding replace
  apply_find_replace input find to true none = input
  apply_find_replace input find to true (some re) = replace_all re input to
  apply_find_replace input find to false compiled = replace input find to

  unfoldable pub decode_payload_encoding : Text → PayloadEncoding → Text
  decode_payload_encoding body plain = body
  decode_payload_encoding body base64 = unwrap_or (base64_decode body) []

  abbrev other_pairs : Url → Text → List (Text × Text)
  other_pairs url name = filter (λ p. not (text_eq (p.0) name)) (query_pairs url)

  unfoldable pub set_query_param : Url → Text → Text → Url
  unfolding text_eq
  set_query_param url name value = with_query_pairs url (other_pairs url name ++ (name, value) ∷ [])

  -- The new URL, and whether a parameter was removed.
  unfoldable pub remove_query_param : Url → Text → Url × Bool
  unfolding text_eq
  remove_query_param url name =
      let filtered = other_pairs url name in
      if length filtered == length (query_pairs url)
      then (url, false)
      else if is_empty filtered
      then (without_query url, true)
      else (with_query_pairs url filtered, true)

  pub remove_query_param_unchanged :
      (url : Url) (name : Text)
      → (remove_query_param url name).1 ≡ false
      → (remove_query_param url name).0 ≡ url
  unfolding remove_query_param
  remove_query_param_unchanged url name h = ground arith
