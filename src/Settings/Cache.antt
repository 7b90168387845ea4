-- ===== src/Settings/Cache.antt =====
-- The cache of compiled globs never shows in an answer.
use hamsy_proxy.Shared.{
  ◌≡◌, refl, ap, sym, ◌∙◌, Bool, true, false, not, Option, none, some, List, [], ◌∷◌, ◌++◌, ◌&&◌,
  ◌||◌, is_empty, arith, if◌then◌else◌, map,
}
use hamsy_proxy.Shared.Text.{Text, text_eq_iff}
use mathlib.Core.Path.{subst}
use hamsy_proxy.Settings.{
  Settings, Globset, texts_eq, build_glob_set, CompiledHostGlobs, compile, is_fresh, compiled_globs,
  captured_by, with_compiled_globs, host_captured, host_passthrough,
}
use hamsy_proxy.Settings.Presets.{expand}

eq-of_texts_eq : (ss ts : List Text) → texts_eq ss ts ≡ true → ss ≡ ts
unfolding texts_eq
eq-of_texts_eq [] [] h = refl
eq-of_texts_eq [] (t ∷ ts) h = absurd (ground arith)
eq-of_texts_eq (s ∷ ss) [] h = absurd (ground arith)
eq-of_texts_eq (s ∷ ss) (t ∷ ts) h = ground (arith, text_eq_iff s t, eq-of_texts_eq ss ts)

module _ (globset : Globset) where
  open globset use {is_match}

  -- Globs that are fresh for some settings are what these settings compile to.
  abbrev IsCoherent : CompiledHostGlobs globset → Type 0
  IsCoherent c =
      (settings : Settings) → is_fresh globset c settings ≡ true → c ≡ compile globset settings

  compile_of_lists :
      (a b : Settings)
      → a.capture_include_hosts ≡ b.capture_include_hosts
      → a.capture_exclude_hosts ≡ b.capture_exclude_hosts
      → a.passthrough_hosts ≡ b.passthrough_hosts
      → a.passthrough_presets ≡ b.passthrough_presets
      → compile globset a ≡ compile globset b
  unfolding compile
  compile_of_lists a b i e p q = cc

  compile-IsCoherent : (settings : Settings) → IsCoherent (compile globset settings)
  unfolding is_fresh compile
  compile-IsCoherent a b h =
      compile_of_lists a b
        (eq-of_texts_eq (a.capture_include_hosts) (b.capture_include_hosts) (ground arith))
        (eq-of_texts_eq (a.capture_exclude_hosts) (b.capture_exclude_hosts) (ground arith))
        (eq-of_texts_eq (a.passthrough_hosts) (b.passthrough_hosts) (ground arith))
        (eq-of_texts_eq (a.passthrough_presets) (b.passthrough_presets) (ground arith))

  abbrev CacheIsCoherent : Option (CompiledHostGlobs globset) → Type 0
  CacheIsCoherent none = Unit
  CacheIsCoherent (some c) = IsCoherent c

  chosen :
      (settings : Settings) (c : CompiledHostGlobs globset) (b : Bool)
      → is_fresh globset c settings ≡ b
      → IsCoherent c
      → (if b then c else compile globset settings) ≡ compile globset settings
  chosen settings c true e h = h settings e
  chosen settings c false e h = refl

  compiled_globs-compile :
      (settings : Settings) (cache : Option (CompiledHostGlobs globset))
      → CacheIsCoherent cache
      → compiled_globs globset settings cache ≡ compile globset settings
  unfolding compiled_globs
  compiled_globs-compile settings none h = refl
  compiled_globs-compile settings (some c) h =
      chosen settings c (is_fresh globset c settings) refl h

  -- What a thread may ask, and the answers, one after the other.
  pub data Query : Type 0 where
    capture_query : Settings → Text → Query
    passthrough_query : Settings → Text → Query

  abbrev ask :
      Query → Option (CompiledHostGlobs globset) → Option (CompiledHostGlobs globset) × Bool
  ask (capture_query settings host) cache = host_captured globset settings host cache
  ask (passthrough_query settings host) cache = host_passthrough globset settings host cache

  abbrev pub answers : List Query → Option (CompiledHostGlobs globset) → List Bool
  answers [] cache = []
  answers (q ∷ qs) cache = (ask q cache).1 ∷ answers qs ((ask q cache).0)

  -- The answer without a cache.
  abbrev pub answer : Query → Bool
  answer (capture_query settings host) =
      not (is_match (build_glob_set globset (settings.capture_exclude_hosts)) host)
      && (is_empty (settings.capture_include_hosts)
          || is_match (build_glob_set globset (settings.capture_include_hosts)) host)
  answer (passthrough_query settings host) =
      is_match
        (build_glob_set globset
          (settings.passthrough_hosts ++ expand (settings.passthrough_presets)))
        host

  and_of_if : (b c : Bool) → (if b then false else c) ≡ (not b && c)
  and_of_if true c = refl
  and_of_if false c = refl

  ask-answer :
      (q : Query) (cache : Option (CompiledHostGlobs globset))
      → CacheIsCoherent cache
      → ((ask q cache).1 ≡ answer q) × CacheIsCoherent ((ask q cache).0)
  unfolding host_captured host_passthrough with_compiled_globs compile
  ask-answer (capture_query settings host) cache h =
      let same = compiled_globs-compile settings cache h in
      (
        ap (captured_by globset settings host) same
            ∙ and_of_if (is_match ((compile globset settings).excludes) host) _,
        subst (λ c. IsCoherent c) (sym same) (compile-IsCoherent settings),
      )
  ask-answer (passthrough_query settings host) cache h =
      let same = compiled_globs-compile settings cache h in
      (
        ap (λ globs. is_match (globs.passthrough) host) same,
        subst (λ c. IsCoherent c) (sym same) (compile-IsCoherent settings),
      )

  answers-from :
      (qs : List Query) (cache : Option (CompiledHostGlobs globset))
      → CacheIsCoherent cache
      → answers qs cache ≡ map answer qs
  answers-from [] cache h = refl
  answers-from (q ∷ qs) cache h =
      let (same, kept) = ask-answer q cache h in
      ap (λ b. b ∷ answers qs ((ask q cache).0)) same
      ∙ ap (λ bs. answer q ∷ bs) (answers-from qs ((ask q cache).0) kept)

  -- On a thread that begins without compiled globs, every answer of `host_captured` and
  -- `host_passthrough` is the one that globs compiled for that very call give, whatever settings were
  -- asked about before: a host is captured where no exclusion matches it and the inclusions are empty
  -- or match it, and passed through where its hosts or its presets match it.
  pub answers-answer : (qs : List Query) → answers qs none ≡ map answer qs
  answers-answer qs = answers-from qs none tt
