-- ===== src/RulesStore/Laws.antt =====
-- What holds of the rules, the compiled set and the file after an operation.
use hamsy_proxy.Shared.{
  ◌≡◌, refl, ap, sym, ◌∙◌, ◌⊎◌, inl, inr, Bool, true, false, not, Option, none, some, List, [], ◌∷◌,
  ◌++◌, any, Result, ok, err, if◌then◌else◌, arith,
}
use mathlib.Core.Path.{subst}
use hamsy_proxy.Shared.Text.{Text, text_eq}
use hamsy_proxy.Rules.Model.{Rule}
use hamsy_proxy.Rules.Externals.{Externals}
use hamsy_proxy.Rules.Compile.Set.{new}
use hamsy_proxy.RulesStore.{
  take_by_id, change_by_id, without_rest, reorder_from, CoreError, not_found, RulesStore, load,
  persist, persist_found, Op, create, update, delete, toggle, reorder, import, run,
}

-- The first rule of an id among some rules.
abbrev pub FirstOf : Text → List Rule → List Rule → Rule → List Rule → Type 0
FirstOf id rules front r back =
    (rules ≡ front ++ r ∷ back)
    × (text_eq (r.id) id ≡ true)
    × (any (λ x. text_eq (x.id) id) front ≡ false)

-- The rules with the first one of an id in some other state, by what takes its place.
abbrev pub Replaced : Text → (Rule → List Rule) → List Rule → List Rule → Type 0
Replaced id f rules rules' =
    (front : List Rule) × (r : Rule) × (back : List Rule) × FirstOf id rules front r back
    × (rules' ≡ front ++ f r ++ back)

-- No rule has the id.
abbrev pub Missing : Text → List Rule → Type 0
Missing id rules = any (λ x. text_eq (x.id) id) rules ≡ false

-- A search for an id either finds none, and there is none, or it changes the first rule of the id.
abbrev Searched : Text → (Rule → List Rule) → List Rule → Option (List Rule) → Type 0
Searched id f rules none = Missing id rules
Searched id f rules (some rules') = Replaced id f rules rules'

Searched-here :
    (id : Text) (f : Rule → List Rule) (r : Rule) (rs : List Rule)
    → text_eq (r.id) id ≡ true
    → Replaced id f (r ∷ rs) (f r ++ rs)
Searched-here id f r rs here = ([], r, rs, (refl, here, refl), refl)

Searched-later :
    (id : Text) (f : Rule → List Rule) (r : Rule) (rs rules' : List Rule)
    → text_eq (r.id) id ≡ false
    → Replaced id f rs rules'
    → Replaced id f (r ∷ rs) (r ∷ rules')
Searched-later id f r rs rules' other (front, x, back, (same, here, no_other), result) = (
  r ∷ front,
  x,
  back,
  (ap (λ l. r ∷ l) same, here, ground (arith, other, no_other)),
  ap (λ l. r ∷ l) result,
)

changed-Searched :
    (id : Text) (f : Rule → Rule) (r : Rule) (rs : List Rule) (b : Bool)
    (later : Option (List Rule))
    → text_eq (r.id) id ≡ b
    → Searched id (λ x. f x ∷ []) rs later
    → Searched id
        (λ x. f x ∷ [])
        (r ∷ rs)
        (if b then some (f r ∷ rs) else elim later [ none ↦ none | some rest ↦ some (r ∷ rest) ])
changed-Searched id f r rs true later e h = Searched-here id (λ x. f x ∷ []) r rs e
changed-Searched id f r rs false none e h = ground (arith, e, h)
changed-Searched id f r rs false (some rest) e h = Searched-later id (λ x. f x ∷ []) r rs rest e h

change_by_id-Searched :
    (f : Rule → Rule) (id : Text) (rules : List Rule)
    → Searched id (λ r. f r ∷ []) rules (change_by_id f id rules)
unfolding change_by_id
change_by_id-Searched f id [] = refl
change_by_id-Searched f id (r ∷ rs) =
    changed-Searched id f r rs (text_eq (r.id) id) (change_by_id f id rs) refl
      (change_by_id-Searched f id rs)

taken-Searched :
    (id : Text) (r : Rule) (rs : List Rule) (b : Bool) (later : Option (Rule × List Rule))
    → text_eq (r.id) id ≡ b
    → Searched id (λ x. []) rs (without_rest later)
    → Searched id
        (λ x. [])
        (r ∷ rs)
        (without_rest (
          if b
          then some (r, rs)
          else elim later [ none ↦ none | some (x, rest) ↦ some (x, r ∷ rest) ]))
taken-Searched id r rs true later e h = Searched-here id (λ x. []) r rs e
taken-Searched id r rs false none e h = ground (arith, e, h)
taken-Searched id r rs false (some (x, rest)) e h = Searched-later id (λ x. []) r rs rest e h

take_by_id-Searched :
    (id : Text) (rules : List Rule)
    → Searched id (λ r. []) rules (without_rest (take_by_id id rules))
unfolding take_by_id
take_by_id-Searched id [] = refl
take_by_id-Searched id (r ∷ rs) =
    taken-Searched id r rs (text_eq (r.id) id) (take_by_id id rs) refl (take_by_id-Searched id rs)

module _ (ext : Externals) where
  abbrev Outcome : Type 0
  Outcome = RulesStore ext × Result (Unit {0}) CoreError

  -- The operation asks for a rule that is not there.
  abbrev pub AsksMissing : Op ext → List Rule → Type 0
  AsksMissing (create rule) rules = ⊥
  AsksMissing (update id rule) rules = Missing id rules
  AsksMissing (delete id) rules = Missing id rules
  AsksMissing (toggle id) rules = Missing id rules
  AsksMissing (reorder ids) rules = ⊥
  AsksMissing (import imported) rules = ⊥

  -- The rules before and behind an operation.
  abbrev pub Changes : Op ext → List Rule → List Rule → Type 0
  Changes (create rule) rules rules' = rules' ≡ rules ++ rule ∷ []
  Changes (update id rule) rules rules' = Replaced id (λ r. rule ∷ []) rules rules'
  Changes (delete id) rules rules' = Replaced id (λ r. []) rules rules'
  Changes (toggle id) rules rules' =
      Replaced id (λ r. record r { enabled = not (r.enabled) } ∷ []) rules rules'
  Changes (reorder ids) rules rules' = rules' ≡ reorder_from ids rules []
  Changes (import imported) rules rules' = rules' ≡ imported

  -- The rules are saved, or the error of the write is reported and the file is as it was; the set is
  -- compiled from them in either case.
  abbrev Persisted : Option CoreError → RulesStore ext → Outcome → Type 0
  Persisted write s (s', result) =
      (s'.rule_set ≡ new ext (s'.rules))
      × (((write ≡ none) × (result ≡ ok tt) × (s'.file ≡ some (s'.rules)))
          ⊎ (((e : CoreError) × (write ≡ some e) × (result ≡ err e)) × (s'.file ≡ s.file)))

  -- What an operation does.
  abbrev pub Effect : Op ext → Option CoreError → RulesStore ext → Outcome → Type 0
  Effect op write s (s', result) =
      (AsksMissing op (s.rules) × (s' ≡ s) × (result ≡ err not_found))
      ⊎ (Changes op (s.rules) (s'.rules) × Persisted write s (s', result))

  persist-Persisted :
      (write : Option CoreError) (rules : List Rule) (s : RulesStore ext)
      → ((persist ext write rules s).0.rules ≡ rules)
        × Persisted write s (persist ext write rules s)
  unfolding persist
  persist-Persisted none rules s = (refl, (refl, inl (refl, refl, refl)))
  persist-Persisted (some e) rules s = (refl, (refl, inr ((e, refl, refl), refl)))

  persist-Effect :
      (op : Op ext) (write : Option CoreError) (rules : List Rule) (s : RulesStore ext)
      → Changes op (s.rules) rules
      → Effect op write s (persist ext write rules s)
  persist-Effect op write rules s h =
      let (same, persisted) = persist-Persisted write rules s in
      inr (subst (Changes op (s.rules)) (sym same) h, persisted)

  persist_found-Effect :
      (op : Op ext) (write : Option CoreError) (id : Text) (f : Rule → List Rule)
      (found : Option (List Rule)) (s : RulesStore ext)
      → (Missing id (s.rules) → AsksMissing op (s.rules))
      → ((rules' : List Rule) → Replaced id f (s.rules) rules' → Changes op (s.rules) rules')
      → Searched id f (s.rules) found
      → Effect op write s (persist_found ext write found s)
  unfolding persist_found
  persist_found-Effect op write id f none s missing replaced h = inl (missing h, refl, refl)
  persist_found-Effect op write id f (some rules) s missing replaced h =
      persist-Effect op write rules s (replaced rules h)

  -- An update, a deletion or a toggle of a rule that is not there reports that and changes nothing.
  -- Every other operation has its effect on the rules, where update, delete and toggle work on the first
  -- rule of the id in its place, and compiles the set from the new rules; the file then has them, or the
  -- error of the write is reported and the file is as it was, while the new rules stay.
  pub run-Effect :
      (op : Op ext) (write : Option CoreError) (s : RulesStore ext)
      → Effect op write s (run ext op write s)
  unfolding run
  run-Effect (create rule) write s = persist-Effect (create rule) write _ s refl
  run-Effect (update id rule) write s =
      persist_found-Effect (update id rule) write id (λ r. rule ∷ []) _ s (λ m. m) (λ rules' h. h)
        (change_by_id-Searched (λ r. rule) id (s.rules))
  run-Effect (delete id) write s =
      persist_found-Effect (delete id) write id (λ r. []) _ s (λ m. m) (λ rules' h. h)
        (take_by_id-Searched id (s.rules))
  run-Effect (toggle id) write s =
      persist_found-Effect (toggle id) write id (λ r. record r { enabled = not (r.enabled) } ∷ []) _
        s (λ m. m) (λ rules' h. h)
        (change_by_id-Searched (λ r. record r { enabled = not (r.enabled) }) id (s.rules))
  run-Effect (reorder ids) write s = persist-Effect (reorder ids) write _ s refl
  run-Effect (import rules) write s = persist-Effect (import rules) write _ s refl

  -- The stores that are reached from a loaded one, whatever writes fail.
  pub data Reach : RulesStore ext → Type 0 where
    start : (file : Option (List Rule)) → Reach (load ext file)
    next :
        {s : RulesStore ext} (op : Op ext) (write : Option CoreError)
        → Reach s
        → Reach ((run ext op write s).0)

  coherent_of_Effect :
      (op : Op ext) (write : Option CoreError) (s : RulesStore ext) (o : Outcome)
      → Effect op write s o
      → s.rule_set ≡ new ext (s.rules)
      → o.0.rule_set ≡ new ext (o.0.rules)
  coherent_of_Effect op write s (s', result) (inl (missing, same, _)) h =
      ap (λ (x : RulesStore ext). x.rule_set) same
      ∙ h
      ∙ ap (λ (x : RulesStore ext). new ext (x.rules)) (sym same)
  coherent_of_Effect op write s (s', result) (inr (changes, (fresh, _))) h = fresh

  -- In every store that is reached the compiled set is the one that its rules compile to.
  pub Reach-coherent : {s : RulesStore ext} → Reach s → s.rule_set ≡ new ext (s.rules)
  unfolding load
  Reach-coherent (start file) = refl
  Reach-coherent (next {s} op write r) =
      coherent_of_Effect op write s (run ext op write s) (run-Effect op write s) (Reach-coherent r)
