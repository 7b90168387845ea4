-- ===== src/JsonPatch/Tests.antt =====
-- A document, and what the operations do to it.
use hamsy_proxy.Shared.{◌≡◌, ◌≢◌, refl, some, none, List, [], ◌∷◌, ◌++◌, arith}
use hamsy_proxy.Shared.Text.{text, text_eq}
use hamsy_proxy.JsonPatch.Value.{
  Value, null, string, array, object, get_member, nil, item, end, member,
}
use hamsy_proxy.JsonPatch.Path.{PathSegment, key, index, parse_path}
use hamsy_proxy.JsonPatch.Ops.{json_get, json_set, json_remove, child}
use hamsy_proxy.JsonPatch.Laws.{json_get-json_set, json_set_frame, Diverges, now, later, keys}
use hamsy_proxy.JsonPatch.Writes.{json_remove_siblings, json_get-json_remove}
use hamsy_proxy.JsonPatch.RoundTrip.{IsPrintable, print_path, parse_path-print_path}

-- {"user": {"name": "a", "tags": ["x"]}}
abbrev document : Value
document = object (
    member (text "user")
      (object (
        member (text "name") (string (text "a"))
          (member (text "tags") (array (item (string (text "x")) nil)) end)))
      end)

abbrev name_path : List PathSegment
name_path = key (text "user") ∷ key (text "name") ∷ []

abbrev tags_path : List PathSegment
tags_path = key (text "user") ∷ key (text "tags") ∷ []

abbrev first_tag_path : List PathSegment
first_tag_path = key (text "user") ∷ key (text "tags") ∷ index 0 ∷ []

json_get-json_set_example :
    json_get (json_set document first_tag_path null) first_tag_path ≡ some null
json_get-json_set_example = json_get-json_set document first_tag_path null

diverging : Diverges tags_path name_path
diverging = later (now (keys (ground arith)))

json_set_frame_example :
    json_get (json_set document tags_path null) name_path ≡ some (string (text "a"))
unfolding json_get child get_member text_eq
json_set_frame_example = json_set_frame document (string (text "a")) null diverging refl

json_get-json_remove_example :
    json_get
      (json_remove document ((key (text "user") ∷ []) ++ key (text "name") ∷ []))
      ((key (text "user") ∷ []) ++ key (text "name") ∷ [])
    ≡ none
json_get-json_remove_example = json_get-json_remove document (key (text "user") ∷ []) (text "name")

other_key : text "tags" ≢ text "name"
other_key = ground arith

json_remove_siblings_example :
    json_get
      (json_remove document ((key (text "user") ∷ []) ++ key (text "tags") ∷ []))
      ((key (text "user") ∷ []) ++ key (text "name") ∷ [])
    ≡ json_get document ((key (text "user") ∷ []) ++ key (text "name") ∷ [])
json_remove_siblings_example =
    json_remove_siblings document (key (text "user") ∷ []) [] (text "tags") (text "name") other_key

abbrev plain_path : List PathSegment
plain_path = key (b'a' ∷ b'b' ∷ []) ∷ index 12 ∷ key (b'c' ∷ []) ∷ []

plain_path-IsPrintable : IsPrintable plain_path
plain_path-IsPrintable = (
  ground arith,
  (ground arith, ground arith, (ground arith, ground arith, tt)),
  (ground arith, (ground arith, (ground arith, ground arith, tt), tt)),
)

parse_path-print_path_example : parse_path (print_path plain_path) ≡ plain_path
parse_path-print_path_example = parse_path-print_path plain_path plain_path-IsPrintable
