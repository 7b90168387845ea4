-- ===== src/RulesStore/Reads.antt =====
-- What `get` returns after `update` and `toggle`, whether the write to the file works or fails.
use mathlib.Core.Option
use hamsy_proxy.Shared.{
  ◌≡◌, refl, true, Option, none, some, List, [], ◌∷◌, arith, find, unwrap_or, Bool-cases,
  Option-cases, inl, inr,
}
use hamsy_proxy.Shared.Text.{Text, text_eq, text_eq_refl}
use hamsy_proxy.Rules.Model.{Rule}
use hamsy_proxy.Rules.Externals.{Externals}
use hamsy_proxy.RulesStore.{
  CoreError, change_by_id, RulesStore, get, persist, persist_found, flip, update, toggle, run,
}

-- A change that keeps the id of the rule is what a look-up by that id sees.
find-change :
    (f : Rule → Rule) (id : Text) (rules : List Rule)
    → ((r : Rule) → text_eq (r.id) id ≡ true → text_eq ((f r).id) id ≡ true)
    → find (λ r. text_eq (r.id) id) (unwrap_or (change_by_id f id rules) rules)
      ≡ Option.map f (find (λ r. text_eq (r.id) id) rules)
unfolding change_by_id
find-change f id [] keep = refl
find-change f id (r ∷ rs) keep = elim (Bool-cases (text_eq (r.id) id)) [
  | inl here ↦ ground (arith, keep r)
  | inr later ↦ elim (Option-cases (change_by_id f id rs)) [
    | inl missing ↦ ground (arith, find-change f id rs keep)
    | inr (changed, found) ↦ ground (arith, find-change f id rs keep)
  ]
]

module _ (ext : Externals) where
  -- After a `toggle`, the look-up by that id finds the rule it found before with `enabled` flipped
  -- (or nothing, as before), also when the write to the file fails.
  pub get-toggle :
      (id : Text) (write : Option CoreError) (s : RulesStore ext)
      → get ext id ((run ext (toggle id) write s).0) ≡ Option.map (flip ext) (get ext id s)
  unfolding get run persist_found persist
  get-toggle id none s = ground (arith, find-change (flip ext) id (s.rules) (λ r h. h))
  get-toggle id (some e) s = ground (arith, find-change (flip ext) id (s.rules) (λ r h. h))

  -- After an `update` with a rule that has the id, the look-up by that id finds the new rule where it
  -- found a rule before, and nothing where it found nothing, also when the write to the file fails.
  pub get-update :
      (rule : Rule) (write : Option CoreError) (s : RulesStore ext)
      → get ext (rule.id) ((run ext (update (rule.id) rule) write s).0)
        ≡ Option.map (λ r. rule) (get ext (rule.id) s)
  unfolding get run persist_found persist
  get-update rule none s =
      ground (arith, find-change (λ r. rule) (rule.id) (s.rules) (λ r h. text_eq_refl (rule.id)))
  get-update rule (some e) s =
      ground (arith, find-change (λ r. rule) (rule.id) (s.rules) (λ r h. text_eq_refl (rule.id)))
