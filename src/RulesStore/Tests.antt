-- ===== src/RulesStore/Tests.antt =====
-- A store of three rules.
use mathlib.Core.List.{Perm}
use hamsy_proxy.Shared.{◌≡◌, Option, some, [], ◌∷◌}
use hamsy_proxy.Shared.Text.{text}
use hamsy_proxy.Rules.Model.{Rule}
use hamsy_proxy.Rules.Compile.Set.{new}
use hamsy_proxy.Rules.Samples.{plain_texts, rule, any_matcher, three_rules}
use hamsy_proxy.RulesStore.{CoreError, io, RulesStore, load, toggle, reorder, run}
use hamsy_proxy.RulesStore.Laws.{Effect, run-Effect, start, next, Reach-coherent}
use hamsy_proxy.RulesStore.Reorder.{reorder-perm}

abbrev loaded : RulesStore plain_texts
loaded = load plain_texts (some three_rules)

abbrev full_disk : Option CoreError
full_disk = some (io (text "no space"))

abbrev new_status : Rule
new_status = rule (text "s") 5 any_matcher []

run-Effect_example :
    Effect plain_texts
      (toggle (text "s"))
      full_disk
      loaded
      (run plain_texts (toggle (text "s")) full_disk loaded)
run-Effect_example = run-Effect plain_texts (toggle (text "s")) full_disk loaded

abbrev toggled : RulesStore plain_texts
toggled = (run plain_texts (toggle (text "s")) full_disk loaded).0

Reach-coherent_example : toggled.rule_set ≡ new plain_texts (toggled.rules)
Reach-coherent_example =
    Reach-coherent plain_texts
      (next {s = loaded} (toggle (text "s")) full_disk (start (some three_rules)))

reorder-perm_example :
    Perm
      ((run plain_texts (reorder (text "s" ∷ text "x" ∷ [])) full_disk loaded).0.rules)
      (loaded.rules)
reorder-perm_example = reorder-perm plain_texts (text "s" ∷ text "x" ∷ []) full_disk loaded
