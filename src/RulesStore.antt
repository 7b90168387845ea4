-- ===== src/RulesStore.antt =====
-- crates/hamsy-core/src/rules_store.rs: the persisted rules with their compiled set. Each operation
-- holds the lock throughout and is one step. Whether a write to the file works is an argument of the
-- operation: `none`, or the error that it fails with.
pub mod Laws
pub mod Reads
pub mod Reorder
pub mod Tests
use hamsy_proxy.Shared.{
  ℕ, Bool, not, Option, none, some, List, [], ◌∷◌, ◌++◌, find, Result, ok, err, unwrap_or,
  if◌then◌else◌,
}
use hamsy_proxy.Shared.Text.{Text, text_eq}
use hamsy_proxy.Rules.Model.{Rule}
use hamsy_proxy.Rules.Externals.{Externals}
use hamsy_proxy.Rules.Compile.Set.{RuleSet, new}

pub data CoreError : Type 0 where
  io json regex glob invalid_rule codec : Text → CoreError
  not_found : CoreError

-- `iter().position(|r| r.id == id)` and `remove(pos)`: the rule, and the list without it.
unfoldable pub take_by_id : Text → List Rule → Option (Rule × List Rule)
take_by_id id [] = none
take_by_id id (r ∷ rs) =
    let later : Option (Rule × List Rule) = elim (take_by_id id rs) [
      | none ↦ none
      | some (x, rest) ↦ some (x, r ∷ rest)
    ] in
    if text_eq (r.id) id then some (r, rs) else later

-- The list with the first rule of an id changed; `none` if there is none.
unfoldable pub change_by_id : (Rule → Rule) → Text → List Rule → Option (List Rule)
change_by_id f id [] = none
change_by_id f id (r ∷ rs) =
    let later : Option (List Rule) = elim (change_by_id f id rs) [
      | none ↦ none
      | some rest ↦ some (r ∷ rest)
    ] in
    if text_eq (r.id) id then some (f r ∷ rs) else later

abbrev pub without_rest : Option (Rule × List Rule) → Option (List Rule)
without_rest none = none
without_rest (some (r, rest)) = some rest

-- The loop of `reorder`.
unfoldable pub reorder_from : List Text → List Rule → List Rule → List Rule
unfolding take_by_id
reorder_from [] rules reordered = reordered ++ rules
reorder_from (id ∷ ids) rules reordered = elim (take_by_id id rules) [
  | none ↦ reorder_from ids rules reordered
  | some (r, rest) ↦ reorder_from ids rest (reordered ++ r ∷ [])
]

module _ (ext : Externals) where
  pub record RulesStore : Type 0 where
    pub rules : List Rule
    pub rule_set : RuleSet ext
    -- what the file holds; `none` if it is missing or cannot be read as rules
    pub file : Option (List Rule)

  unfoldable pub load : Option (List Rule) → RulesStore
  load file = record {
    rules = unwrap_or file [];
    rule_set = new ext (unwrap_or file []);
    file = file;
  }

  unfoldable pub get : Text → RulesStore → Option Rule
  get id s = find (λ r. text_eq (r.id) id) (s.rules)

  -- `*rules = …; self.persist(&rules)`
  unfoldable pub persist :
      Option CoreError → List Rule → RulesStore → RulesStore × Result (Unit {0}) CoreError
  persist none rules s =
      (record { rules = rules; rule_set = new ext rules; file = some rules }, ok tt)
  persist (some e) rules s = (record s { rules = rules; rule_set = new ext rules }, err e)

  -- `.ok_or(CoreError::NotFound)?` before a change
  unfoldable pub persist_found :
      Option CoreError → Option (List Rule) → RulesStore → RulesStore × Result (Unit {0}) CoreError
  unfolding persist
  persist_found write none s = (s, err not_found)
  persist_found write (some rules) s = persist write rules s

  abbrev flip : Rule → Rule
  flip r = record r { enabled = not (r.enabled) }

  pub data Op : Type 0 where
    create : Rule → Op
    update : Text → Rule → Op
    delete : Text → Op
    toggle : Text → Op
    reorder : List Text → Op
    import : List Rule → Op

  -- The methods of the store that change it.
  unfoldable pub run : Op → Option CoreError → RulesStore → RulesStore × Result (Unit {0}) CoreError
  unfolding persist_found change_by_id take_by_id reorder_from
  run (create rule) write s = persist write (s.rules ++ rule ∷ []) s
  run (update id rule) write s = persist_found write (change_by_id (λ r. rule) id (s.rules)) s
  run (delete id) write s = persist_found write (without_rest (take_by_id id (s.rules))) s
  run (toggle id) write s = persist_found write (change_by_id flip id (s.rules)) s
  run (reorder ids) write s = persist write (reorder_from ids (s.rules) []) s
  run (import rules) write s = persist write rules s
