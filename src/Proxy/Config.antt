-- ===== src/Proxy/Config.antt =====
-- crates/hamsy-proxy/src/config.rs: what is captured and intercepted, and which targets are the
-- proxy's own listeners. Parsing an IP address is a parameter.
use hamsy_proxy.Shared.{
  ℕ, ◌==◌, Bool, false, not, Option, none, some, [], ◌∷◌, ◌&&◌, ◌||◌, is_empty, unwrap_or,
  if◌then◌else◌,
}
use hamsy_proxy.Shared.Text.{Text, text, eq_ignore_ascii_case, strip_suffix}
use hamsy_proxy.Settings.{Settings, Globset, CompiledHostGlobs, host_captured, host_passthrough}

-- `IpAddr`, by its octets and by its value.
pub data IpAddr : Type 0 where
  v4 : (a b c d : ℕ) → IpAddr
  v6 : (value : ℕ) → IpAddr

pub data OwnListener : Type 0 where
  no_listener proxy_port ui_port : OwnListener

-- `strip_prefix('[')` and `strip_suffix(']')`
unfoldable pub strip_brackets : Text → Text
unfolding strip_suffix
strip_brackets [] = []
strip_brackets (c ∷ host) =
    if c == b'[' then unwrap_or (strip_suffix host (text "]")) (c ∷ host) else c ∷ host

-- `is_loopback() || is_unspecified()`
abbrev pub is_own_address : Option IpAddr → Bool
is_own_address none = false
is_own_address (some (v4 a b c d)) = (a == 127) || ((a == 0) && (b == 0) && (c == 0) && (d == 0))
is_own_address (some (v6 value)) = (value == 1) || (value == 0)

module _ (parse_ip : Text → Option IpAddr) where
  unfoldable pub is_local_host : Text → Text → Bool
  unfolding strip_brackets eq_ignore_ascii_case
  is_local_host host bind_addr =
      eq_ignore_ascii_case (strip_brackets host) (text "localhost")
      || (not (is_empty bind_addr)
          && eq_ignore_ascii_case (strip_brackets host) (strip_brackets bind_addr))
      || is_own_address (parse_ip (strip_brackets host))

  unfoldable pub classify_own_listener : Text → ℕ → Text → ℕ → ℕ → OwnListener
  unfolding is_local_host
  classify_own_listener host port bind_addr own_proxy_port own_ui_port =
      if not (is_local_host host bind_addr)
      then no_listener
      else if port == own_proxy_port
      then proxy_port
      else if port == own_ui_port
      then ui_port
      else no_listener

  unfoldable pub own_listener : Settings → Text → ℕ → OwnListener
  unfolding classify_own_listener
  own_listener settings host port =
      classify_own_listener host port (settings.bind_addr) (settings.proxy_port) (settings.ui_port)

module _ (globset : Globset) where
  unfoldable pub should_capture :
      Settings
      → Text
      → Option (CompiledHostGlobs globset)
      → Option (CompiledHostGlobs globset) × Bool
  unfolding host_captured
  should_capture settings host cache =
      if settings.paused then (cache, false) else host_captured globset settings host cache

  unfoldable pub should_intercept :
      Settings
      → Text
      → Option (CompiledHostGlobs globset)
      → Option (CompiledHostGlobs globset) × Bool
  unfolding host_passthrough
  should_intercept settings host cache =
      if settings.intercept_https
      then (
        (host_passthrough globset settings host cache).0,
        not ((host_passthrough globset settings host cache).1),
      )
      else (cache, false)
