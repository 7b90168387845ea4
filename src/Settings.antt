-- ===== src/Settings.antt =====
-- crates/hamsy-core/src/settings.rs: the settings and the host globs that are compiled from them. The
-- globs are another package's. The cache of a thread is passed through each call; reading and writing
-- the file is left out.
pub mod Presets
pub mod Cache
pub mod Tests
use hamsy_proxy.Shared.{
  ℕ, ◌*◌, Bool, true, false, not, Option, none, some, List, [], ◌∷◌, ◌++◌, ◌&&◌, ◌||◌, is_empty,
  Result, ok, err, if◌then◌else◌,
}
use hamsy_proxy.Shared.Text.{Text, text, text_eq}
use hamsy_proxy.Settings.Presets.{expand, default_enabled}

pub record Settings : Type 0 where
  pub proxy_port : ℕ
  pub ui_port : ℕ
  pub bind_addr : Text
  pub max_flows : ℕ
  pub max_body_bytes : ℕ
  pub max_total_bytes : ℕ
  pub intercept_https : Bool
  pub passthrough_hosts : List Text
  pub passthrough_presets : List Text
  pub capture_include_hosts : List Text
  pub capture_exclude_hosts : List Text
  pub manual_proxy : Bool
  pub capture_websockets : Bool
  pub theme : Text
  pub upstream_proxy : Option Text
  pub paused : Bool
  pub system_proxy_bypass : List Text

abbrev pub default_system_proxy_bypass : List Text
default_system_proxy_bypass = text "localhost" ∷ text "127.0.0.1" ∷ text "::1" ∷ text "*.local" ∷ []

-- `Settings::default()`
unfoldable pub default_settings : Settings
unfolding default_enabled
default_settings = record {
  proxy_port = 9080;
  ui_port = 9081;
  bind_addr = text "0.0.0.0";
  max_flows = 10000;
  max_body_bytes = 5 * 1024 * 1024;
  max_total_bytes = 512 * 1024 * 1024;
  intercept_https = true;
  passthrough_hosts = [];
  passthrough_presets = default_enabled;
  capture_include_hosts = [];
  capture_exclude_hosts = [];
  manual_proxy = false;
  capture_websockets = true;
  theme = text "dark";
  upstream_proxy = none;
  paused = false;
  system_proxy_bypass = default_system_proxy_bypass;
}

-- The package of globs; `empty_set` is what a builder without globs builds.
pub record Globset : Type 1 where
  pub Glob : Type 0
  pub GlobSet : Type 0
  pub glob_new : Text → Result Glob Text
  pub build : List Glob → Result GlobSet Text
  pub empty_set : GlobSet
  pub is_match : GlobSet → Text → Bool

-- The derived equality of lists of strings.
unfoldable pub texts_eq : List Text → List Text → Bool
unfolding text_eq
texts_eq [] [] = true
texts_eq [] (t ∷ ts) = false
texts_eq (s ∷ ss) [] = false
texts_eq (s ∷ ss) (t ∷ ts) = text_eq s t && texts_eq ss ts

module _ (globset : Globset) where
  open globset use {Glob, GlobSet, glob_new, build, empty_set, is_match}

  -- The loop of `build_glob_set`.
  unfoldable pub parsed_globs : List Text → List Glob
  parsed_globs [] = []
  parsed_globs (pattern ∷ rest) = elim (glob_new pattern) [
    | ok glob ↦ glob ∷ parsed_globs rest
    | err e ↦ parsed_globs rest
  ]

  unfoldable pub build_glob_set : List Text → GlobSet
  unfolding parsed_globs
  build_glob_set patterns = elim (build (parsed_globs patterns)) [
    | ok set ↦ set
    | err e ↦ empty_set
  ]

  pub record CompiledHostGlobs : Type 0 where
    pub include_src : List Text
    pub exclude_src : List Text
    pub passthrough_src : List Text
    pub passthrough_presets_src : List Text
    pub includes : GlobSet
    pub excludes : GlobSet
    pub passthrough : GlobSet

  unfoldable pub compile : Settings → CompiledHostGlobs
  unfolding build_glob_set expand
  compile settings = record {
    include_src = settings.capture_include_hosts;
    exclude_src = settings.capture_exclude_hosts;
    passthrough_src = settings.passthrough_hosts;
    passthrough_presets_src = settings.passthrough_presets;
    includes = build_glob_set (settings.capture_include_hosts);
    excludes = build_glob_set (settings.capture_exclude_hosts);
    passthrough =
        build_glob_set (settings.passthrough_hosts ++ expand (settings.passthrough_presets));
  }

  unfoldable pub is_fresh : CompiledHostGlobs → Settings → Bool
  unfolding texts_eq
  is_fresh c settings =
      texts_eq (c.include_src) (settings.capture_include_hosts)
      && texts_eq (c.exclude_src) (settings.capture_exclude_hosts)
      && texts_eq (c.passthrough_src) (settings.passthrough_hosts)
      && texts_eq (c.passthrough_presets_src) (settings.passthrough_presets)

  -- The globs that `with_compiled_globs` runs its function on, which are then in the cache.
  unfoldable pub compiled_globs : Settings → Option CompiledHostGlobs → CompiledHostGlobs
  unfolding is_fresh compile
  compiled_globs settings none = compile settings
  compiled_globs settings (some c) = if is_fresh c settings then c else compile settings

  unfoldable pub with_compiled_globs :
      Settings
      → (CompiledHostGlobs → Bool)
      → Option CompiledHostGlobs
      → Option CompiledHostGlobs × Bool
  unfolding compiled_globs
  with_compiled_globs settings f cache =
      (some (compiled_globs settings cache), f (compiled_globs settings cache))

  -- The function that `host_captured` runs.
  abbrev pub captured_by : Settings → Text → CompiledHostGlobs → Bool
  captured_by settings host globs =
      if is_match (globs.excludes) host
      then false
      else is_empty (settings.capture_include_hosts) || is_match (globs.includes) host

  unfoldable pub host_captured :
      Settings → Text → Option CompiledHostGlobs → Option CompiledHostGlobs × Bool
  unfolding with_compiled_globs
  host_captured settings host cache = with_compiled_globs settings (captured_by settings host) cache

  unfoldable pub host_passthrough :
      Settings → Text → Option CompiledHostGlobs → Option CompiledHostGlobs × Bool
  unfolding with_compiled_globs
  host_passthrough settings host cache =
      with_compiled_globs settings (λ globs. is_match (globs.passthrough) host) cache
