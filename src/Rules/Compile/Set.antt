-- ===== src/Rules/Compile/Set.antt =====
-- `RuleSet`: the rules that are enabled and compile, in order, each with its compiled entry, and
-- the errors of those that do not.
use hamsy_proxy.Shared.{ℕ, List, [], ◌∷◌, ◌++◌, map, ok, err, if◌then◌else◌, zip}
use hamsy_proxy.Rules.Model.{Rule, RuleError}
use hamsy_proxy.Rules.Externals.{Externals}
use hamsy_proxy.Rules.Compile.Entry.{CompiledEntry, compile_rule}
use hamsy_proxy.Rules.Compile.Sort.{enumerate, sort_indexed}

module _ (ext : Externals) where
  pub record RuleSet : Type 0 where
    pub rules : List Rule
    pub compiled : List (CompiledEntry ext)
    pub errors : List RuleError

  -- One round of the loop over the sorted rules.
  unfoldable pub add_rule : RuleSet → Rule → RuleSet
  unfolding compile_rule
  add_rule set rule =
      if rule.enabled
      then elim (compile_rule ext rule) [
        | ok entry ↦ record set {
          rules = set.rules ++ rule ∷ [];
          compiled = set.compiled ++ entry ∷ [];
        }
        | err msgs ↦ record set {
          errors = set.errors ++ map (λ m. record { rule_id = rule.id; message = m }) msgs;
        }
      ]
      else set

  unfoldable pub add_rules : RuleSet → List (ℕ × Rule) → RuleSet
  unfolding add_rule
  add_rules set [] = set
  add_rules set ((_, rule) ∷ rest) = add_rules (add_rule set rule) rest

  unfoldable pub new : List Rule → RuleSet
  unfolding add_rules sort_indexed enumerate
  new rules =
      add_rules (record { rules = []; compiled = []; errors = [] })
        (sort_indexed (enumerate 0 rules))

  -- The pairs that both phases walk over.
  abbrev pub entries : RuleSet → List (Rule × CompiledEntry ext)
  entries set = zip (set.rules) (set.compiled)
