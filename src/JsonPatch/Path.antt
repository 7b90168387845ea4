-- ===== src/JsonPatch/Path.antt =====
-- `PathSegment` and `parse_path`.
use hamsy_proxy.Shared.{ℕ, none, some, List, [], ◌∷◌, ◌++◌, ◌==◌, ◌^◌}
use hamsy_proxy.Shared.{if◌then◌else◌, is_empty}
use hamsy_proxy.Shared.Text.{Text}
use hamsy_proxy.Shared.Number.{parse_uint}

pub data PathSegment : Type 0 where
  key : Text → PathSegment
  index : ℕ → PathSegment

-- `if !current.is_empty() { segments.push(Key(take(&mut current))) }`
abbrev pub flush_key : List PathSegment → Text → List PathSegment
flush_key segments current = if is_empty current then segments else segments ++ key current ∷ []

-- `if let Ok(n) = idx.parse::<usize>() { segments.push(Index(n)) }`
abbrev pub push_index : List PathSegment → Text → List PathSegment
push_index segments idx = elim (parse_uint (2 ^ 64) idx) [
  | none ↦ segments
  | some n ↦ segments ++ index n ∷ []
]

-- The loops of `parse_path`: outside brackets with the current key, or inside with the index read
-- so far.
unfoldable mutual
  pub parse_outside : List PathSegment → Text → Text → List PathSegment
  parse_outside segments current [] = flush_key segments current
  parse_outside segments current (c ∷ rest) =
      let dot = parse_outside (flush_key segments current) [] rest in
      let bracket = parse_inside (flush_key segments current) [] rest in
      let other = parse_outside segments (current ++ c ∷ []) rest in
      if c == b'.' then dot else if c == b'[' then bracket else other

  pub parse_inside : List PathSegment → Text → Text → List PathSegment
  parse_inside segments idx [] = push_index segments idx
  parse_inside segments idx (c ∷ rest) =
      let closed = parse_outside (push_index segments idx) [] rest in
      let more = parse_inside segments (idx ++ c ∷ []) rest in if c == b']' then closed else more

unfoldable pub parse_path : Text → List PathSegment
unfolding parse_outside parse_inside
parse_path path = parse_outside [] [] path
