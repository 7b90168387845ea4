-- ===== src/Settings/Tests.antt =====
-- Settings on a thread's cache, with globs that match the texts that contain them.
use hamsy_proxy.Shared.{◌≡◌, refl, true, false, none, List, [], ◌∷◌, any, ok, map}
use hamsy_proxy.Shared.Text.{Text, text, contains}
use hamsy_proxy.Settings.{Settings, Globset, default_settings, host_captured, host_passthrough}
use hamsy_proxy.Settings.Cache.{
  Query, capture_query, passthrough_query, answers, answer, answers-answer,
}

abbrev pub substrings : Globset
substrings = record {
  Glob = Text;
  GlobSet = List Text;
  glob_new = λ pattern. ok pattern;
  build = λ globs. ok globs;
  empty_set = [];
  is_match = λ globs host. any (λ g. contains host g) globs;
}

abbrev narrowed : Settings
narrowed = record default_settings { capture_exclude_hosts = text "ads" ∷ [] }

abbrev queries : List (Query substrings)
queries =
    capture_query default_settings (text "ads.example")
    ∷ capture_query narrowed (text "ads.example")
    ∷ passthrough_query narrowed (text "www.gcr.io")
    ∷ []

answers-answer_example : answers substrings queries none ≡ map (answer substrings) queries
answers-answer_example = answers-answer substrings queries

answers_of_queries : answers substrings queries none ≡ true ∷ false ∷ true ∷ []
unfolding host_captured host_passthrough default_settings contains
answers_of_queries = refl
