-- ===== src/Rules/Compile/Laws.antt =====
-- What `RuleSet::new` keeps, in which order, and what it reports.
use mathlib.Core.List.{append_assoc, append-nil}
use hamsy_proxy.Shared.{
  ℕ, ◌≡◌, refl, ap, ◌∙◌, sym, Bool, true, false, List, [], ◌∷◌, ◌++◌, ◌&&◌, arith, Bool-cases, ◌⊎◌,
  inl, inr, filter, if◌then◌else◌, Result, ok, err,
}
use hamsy_proxy.Shared.Int.{ℤ, ◌≤ℤ◌}
use hamsy_proxy.Rules.Model.{Rule}
use hamsy_proxy.Rules.Externals.{Externals}
use hamsy_proxy.Rules.Compile.Entry.{CompiledEntry, compile_rule}
use hamsy_proxy.Rules.Compile.Sort.{enumerate, sort_indexed}
use hamsy_proxy.Rules.Compile.Order.{
  has_priority, rules_of, IsBelow, IsSorted, sort_indexed-IsSorted, sort_stable,
}
use hamsy_proxy.Rules.Compile.Set.{RuleSet, add_rule, add_rules, new}

-- The rules stand in ascending order of priority.
abbrev AllAbove : ℤ → List Rule → Type 0
AllAbove p [] = Unit
AllAbove p (r ∷ rs) = (p ≤ℤ r.priority) × AllAbove p rs

abbrev pub Ascending : List Rule → Type 0
Ascending [] = Unit
Ascending (r ∷ rs) = AllAbove (r.priority) rs × Ascending rs

module _ (ext : Externals) where
  abbrev compiles : Rule → Bool
  compiles r = elim (compile_rule ext r) [ ok entry ↦ true | err msgs ↦ false ]

  -- The rules that a set keeps: those that are enabled and compile.
  abbrev pub is_kept : Rule → Bool
  is_kept r = r.enabled && compiles r

  add_rule-rules :
      (set : RuleSet ext) (r : Rule)
      → (add_rule ext set r).rules ≡ (if is_kept r then set.rules ++ r ∷ [] else set.rules)
  unfolding add_rule
  add_rule-rules set r = ground arith

  add_rules-rules :
      (set : RuleSet ext) (pairs : List (ℕ × Rule))
      → (add_rules ext set pairs).rules ≡ set.rules ++ filter is_kept (rules_of pairs)
  unfolding add_rules
  add_rules-rules set [] = sym (append-nil (set.rules))
  add_rules-rules set ((i, r) ∷ rest) =
      add_rules-rules (add_rule ext set r) rest
      ∙ ap (λ rs. rs ++ filter is_kept (rules_of rest)) (add_rule-rules set r)
      ∙ elim (Bool-cases (is_kept r)) [
        | inl kept ↦ rw kept (append_assoc (set.rules) (r ∷ []) (filter is_kept (rules_of rest)))
        | inr dropped ↦ rw dropped refl
      ]

  new-rules :
      (rules : List Rule)
      → (new ext rules).rules ≡ filter is_kept (rules_of (sort_indexed (enumerate 0 rules)))
  unfolding new
  new-rules rules = add_rules-rules _ (sort_indexed (enumerate 0 rules))

  AllAbove-filter :
      (p : ℤ) (pairs : List (ℕ × Rule))
      → IsBelow p pairs
      → AllAbove p (filter is_kept (rules_of pairs))
  AllAbove-filter p [] h = tt
  AllAbove-filter p ((i, r) ∷ rest) (h, hs) = elim (Bool-cases (is_kept r)) [
    | inl kept ↦ rw kept (h, AllAbove-filter p rest hs)
    | inr dropped ↦ rw dropped (AllAbove-filter p rest hs)
  ]

  Ascending-filter :
      (pairs : List (ℕ × Rule)) → IsSorted pairs → Ascending (filter is_kept (rules_of pairs))
  Ascending-filter [] s = tt
  Ascending-filter ((i, r) ∷ rest) (below, s) = elim (Bool-cases (is_kept r)) [
    | inl kept ↦ rw kept (AllAbove-filter (r.priority) rest below, Ascending-filter rest s)
    | inr dropped ↦ rw dropped (Ascending-filter rest s)
  ]

  -- The rules of a new set stand in ascending order of priority.
  pub new-Ascending : (rules : List Rule) → Ascending ((new ext rules).rules)
  new-Ascending rules =
      rw (new-rules rules) (Ascending-filter _ (sort_indexed-IsSorted (enumerate 0 rules)))

  filter-filter_comm :
      (p q : Rule → Bool) (rules : List Rule)
      → filter p (filter q rules) ≡ filter q (filter p rules)
  filter-filter_comm p q [] = refl
  filter-filter_comm p q (r ∷ rs) = ground (arith, filter-filter_comm p q rs)

  -- Of each priority, a new set holds exactly the given rules that are enabled and compile, in the
  -- order in which they were given.
  pub new_stable :
      (rules : List Rule) (p : ℤ)
      → filter (has_priority p) ((new ext rules).rules)
        ≡ filter is_kept (filter (has_priority p) rules)
  new_stable rules p =
      ap (filter (has_priority p)) (new-rules rules)
      ∙ filter-filter_comm (has_priority p) is_kept (rules_of (sort_indexed (enumerate 0 rules)))
      ∙ ap (filter is_kept) (sort_stable p 0 rules)

  -- Each rule stands beside the entry that it compiles to.
  abbrev pub IsAligned : List Rule → List (CompiledEntry ext) → Type 0
  IsAligned [] [] = Unit
  IsAligned (r ∷ rs) (c ∷ cs) = (compile_rule ext r ≡ ok c) × IsAligned rs cs
  IsAligned rs cs = ⊥

  IsAligned-append :
      (rules : List Rule) (compiled : List (CompiledEntry ext)) (r : Rule) (c : CompiledEntry ext)
      → IsAligned rules compiled
      → compile_rule ext r ≡ ok c
      → IsAligned (rules ++ r ∷ []) (compiled ++ c ∷ [])
  IsAligned-append [] [] r c h e = (e, tt)
  IsAligned-append [] (c' ∷ cs) r c h e = absurd h
  IsAligned-append (r' ∷ rs) [] r c h e = absurd h
  IsAligned-append (r' ∷ rs) (c' ∷ cs) r c (h, hs) e = (h, IsAligned-append rs cs r c hs e)

  Result-cases {ℓ κ} :
      {A : Type ℓ} {E : Type κ} (x : Result A E) → ((a : A) × (x ≡ ok a)) ⊎ ((e : E) × (x ≡ err e))
  Result-cases (ok a) = inl (a, refl)
  Result-cases (err e) = inr (e, refl)

  add_rule-IsAligned :
      (set : RuleSet ext) (r : Rule)
      → IsAligned (set.rules) (set.compiled)
      → IsAligned ((add_rule ext set r).rules) ((add_rule ext set r).compiled)
  unfolding add_rule
  add_rule-IsAligned set r h = elim (Bool-cases (r.enabled)) [
    | inl on ↦ elim (Result-cases (compile_rule ext r)) [
      | inl (c, e) ↦ rw (on, e, add_rule) (IsAligned-append (set.rules) (set.compiled) r c h e)
      | inr (msgs, e) ↦ rw (on, e, add_rule) h
    ]
    | inr off ↦ rw (off, add_rule) h
  ]

  add_rules-IsAligned :
      (set : RuleSet ext) (pairs : List (ℕ × Rule))
      → IsAligned (set.rules) (set.compiled)
      → IsAligned ((add_rules ext set pairs).rules) ((add_rules ext set pairs).compiled)
  unfolding add_rules
  add_rules-IsAligned set [] h = h
  add_rules-IsAligned set ((i, r) ∷ rest) h =
      add_rules-IsAligned (add_rule ext set r) rest (add_rule-IsAligned set r h)

  -- In a new set each rule stands beside the entry that it compiles to, so that the walk over the
  -- pairs of both phases drops no rule.
  pub new-IsAligned :
      (rules : List Rule) → IsAligned ((new ext rules).rules) ((new ext rules).compiled)
  unfolding new
  new-IsAligned rules = add_rules-IsAligned _ (sort_indexed (enumerate 0 rules)) tt
