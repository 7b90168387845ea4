-- ===== src/Settings/Presets.antt =====
-- crates/hamsy-core/src/passthrough_presets.rs: the named groups of hosts that are never intercepted.
-- The labels and descriptions, which only the interface shows, are left out.
use hamsy_proxy.Shared.{Bool, List, [], ◌∷◌, ◌++◌, any, map, if◌then◌else◌}
use hamsy_proxy.Shared.Text.{Text, text, text_eq}

pub record Preset : Type 0 where
  pub name : Text
  pub hosts : List Text

-- `PRESETS`
abbrev pub preset_groups : List Preset
preset_groups =
    record {
      name = text "core";
      hosts =
          text "169.254.169.254"
          ∷ text "metadata.google.internal"
          ∷ text "*.cluster.local"
          ∷ text "*.svc"
          ∷ text "kubernetes.default.svc"
          ∷ [];
    }
    ∷ record {
      name = text "cloud-cli";
      hosts =
          text "googleapis.com"
          ∷ text "*.googleapis.com"
          ∷ text "*.mtls.googleapis.com"
          ∷ text "accounts.google.com"
          ∷ text "oauth2.googleapis.com"
          ∷ text "sts.googleapis.com"
          ∷ text "*.googleusercontent.com"
          ∷ text "*.googlesource.com"
          ∷ text "dl.google.com"
          ∷ text "gcr.io"
          ∷ text "*.gcr.io"
          ∷ text "*.pkg.dev"
          ∷ text "*.amazonaws.com"
          ∷ text "*.eks.amazonaws.com"
          ∷ text "login.microsoftonline.com"
          ∷ text "*.azmk8s.io"
          ∷ text "*.gke.goog"
          ∷ text "registry-1.docker.io"
          ∷ text "auth.docker.io"
          ∷ [];
    }
    ∷ record {
      name = text "meta";
      hosts =
          text "facebook.com"
          ∷ text "*.facebook.com"
          ∷ text "*.facebook.net"
          ∷ text "*.fbcdn.net"
          ∷ text "*.fbsbx.com"
          ∷ text "instagram.com"
          ∷ text "*.instagram.com"
          ∷ text "*.cdninstagram.com"
          ∷ text "whatsapp.com"
          ∷ text "*.whatsapp.com"
          ∷ text "*.whatsapp.net"
          ∷ text "*.messenger.com"
          ∷ text "*.threads.net"
          ∷ text "*.meta.com"
          ∷ text "*.oculus.com"
          ∷ [];
    }
    ∷ record {
      name = text "mobile-os";
      hosts =
          text "*.apple.com"
          ∷ text "*.icloud.com"
          ∷ text "*.mzstatic.com"
          ∷ text "*.cdn-apple.com"
          ∷ text "*.push.apple.com"
          ∷ text "*.aaplimg.com"
          ∷ text "*.apple-cloudkit.com"
          ∷ text "android.clients.google.com"
          ∷ text "*.gvt1.com"
          ∷ [];
    }
    ∷ []

abbrev pub has_text : Text → List Text → Bool
has_text s l = any (text_eq s) l

-- The inner loop of `expand`.
unfoldable pub add_hosts : List Text → List Text → List Text
unfolding text_eq
add_hosts hosts [] = hosts
add_hosts hosts (host ∷ rest) =
    add_hosts (if has_text host hosts then hosts else hosts ++ host ∷ []) rest

-- The outer loop of `expand`.
unfoldable pub expand_from : List Preset → List Text → List Text → List Text
unfolding add_hosts
expand_from [] names hosts = hosts
expand_from (preset ∷ rest) names hosts =
    expand_from rest names
      (if has_text (preset.name) names then add_hosts hosts (preset.hosts) else hosts)

unfoldable pub expand : List Text → List Text
unfolding expand_from
expand names = expand_from preset_groups names []

-- `default_enabled`
unfoldable pub default_enabled : List Text
default_enabled = map (λ p. p.name) preset_groups
