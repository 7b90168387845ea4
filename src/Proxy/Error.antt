-- ===== src/Proxy/Error.antt =====
-- crates/hamsy-proxy/src/error.rs: the errors and their messages. An error of another package is its
-- own message.
use hamsy_proxy.Shared.{◌++◌}
use hamsy_proxy.Shared.Text.{Text, text}

pub data ProxyError : Type 0 where
  io hyper tls core timeout upstream_connect invalid_target cert other : Text → ProxyError

-- The derived `Display`.
unfoldable pub to_string : ProxyError → Text
to_string (io e) = text "io error: " ++ e
to_string (hyper e) = text "http error: " ++ e
to_string (tls e) = text "tls error: " ++ e
to_string (core e) = text "core error: " ++ e
to_string (timeout e) = text "timeout: " ++ e
to_string (upstream_connect e) = text "could not connect to " ++ e
to_string (invalid_target e) = text "invalid target: " ++ e
to_string (cert e) = text "certificate error: " ++ e
to_string (other e) = e
