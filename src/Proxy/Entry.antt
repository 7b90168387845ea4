-- ===== src/Proxy/Entry.antt =====
-- crates/hamsy-proxy/src/http.rs: `handle_proxy_request`, which decides whether an exchange is captured.
use hamsy_proxy.Shared.{
  ℕ, Bool, true, false, not, Option, none, List, [], ◌++◌, ◌||◌, is_some, unwrap_or, ok, err,
}
use hamsy_proxy.Shared.Text.{Text, text}
use hamsy_proxy.Shared.Number.{to_decimal}
use hamsy_proxy.Flow.{HeaderPair}
use hamsy_proxy.Body.{Codecs}
use hamsy_proxy.BodyStream.{Source}
use hamsy_proxy.Settings.{Settings}
use hamsy_proxy.Rules.Externals.{Externals}
use hamsy_proxy.Proxy.Error.{to_string}
use hamsy_proxy.Proxy.Config.{no_listener, proxy_port, ui_port, own_listener}
use hamsy_proxy.Proxy.Net.{Net}
use hamsy_proxy.Proxy.Headers.{strip_hop_by_hop, header_pairs_from, set_host_header}
use hamsy_proxy.Proxy.Target.{ConnInfo, Parts, build_target_url, port_of}
use hamsy_proxy.Proxy.Outbound.{build_outbound_request}
use hamsy_proxy.Proxy.Dispatch.{passed, Upstream, dispatch}
use hamsy_proxy.Proxy.Exchange.{Exchange, Response, Handling, unrecorded, error_response}
use hamsy_proxy.Proxy.Handle.{handle_captured_request}

module _ {ext : Externals} (net : Net ext) where
  open ext use {Url, host_str}

  abbrev pub host_of : Url → Text
  host_of url = unwrap_or (host_str url) []

  -- The headers that the request is handled with.
  abbrev pub entry_headers : Parts net → List HeaderPair
  entry_headers parts = strip_hop_by_hop (header_pairs_from net (parts.headers))

module _ {ext : Externals} (net : Net ext) {F64 : Type 0} where
  open ext use {Url, host_str, scheme}

  -- `forward_untouched`
  unfoldable pub forward_untouched :
      Upstream net F64
      → Option Text
      → Parts net
      → Source
      → Bool
      → Url
      → List HeaderPair
      → Response net F64
  unfolding set_host_header port_of build_outbound_request dispatch error_response to_string
      to_decimal
  forward_untouched upstream upstream_proxy parts body mirror_h2 url headers =
      let host = host_of net url in
      let port = port_of net url in
      elim (build_outbound_request net (parts.method) url
        (set_host_header headers host port (scheme url)) (is_some upstream_proxy) (parts.version)) [
          | err e ↦ error_response net 400 (to_string e)
          | ok outbound ↦
              elim (dispatch net F64 upstream url mirror_h2 upstream_proxy outbound
                (record { content = passed body; throttle = none })) [
                  | err e ↦ error_response net 502 (
                      text "could not connect to "
                      ++ host
                      ++ text ":"
                      ++ to_decimal port
                      ++ text ": "
                      ++ to_string e)
                  | ok (answer, timings, server_addr) ↦ record {
                    status = answer.status;
                    headers = answer.headers;
                    body = record { content = passed (answer.body); throttle = none };
                  }
                ]
        ]

  unfoldable pub self_loop_response : Text → ℕ → Response net F64
  unfolding error_response to_decimal
  self_loop_response host port = error_response net 508 (
      text "refusing to forward to hamsy's own proxy port ("
      ++ host
      ++ text ":"
      ++ to_decimal port
      ++ text "); this would loop back into hamsy itself")

module _ {ext : Externals} (net : Net ext) (codecs : Codecs) {F64 : Type 0} where
  open ext use {Url}

  -- `should_capture` answers for a host; the exchange is made from the URL and the headers. An exchange
  -- that is not captured records no flow.
  unfoldable pub handle_proxy_request :
      Settings
      → (Text → Bool)
      → Upstream net F64
      → Parts net
      → Source
      → ConnInfo
      → (Url → List HeaderPair → Exchange net F64)
      → Handling net F64
  unfolding build_target_url header_pairs_from strip_hop_by_hop port_of own_listener
      self_loop_response error_response to_string forward_untouched handle_captured_request
  handle_proxy_request settings should_capture upstream parts body conn exchange =
      elim (build_target_url net parts conn) [
        | err e ↦ unrecorded (error_response net 400 (to_string e))
        | ok url ↦
            let untouched = unrecorded (
              forward_untouched net upstream (settings.upstream_proxy) parts body (conn.mirror_h2)
                url (entry_headers net parts)) in
            elim (own_listener (net.parse_ip) settings (host_of net url) (port_of net url)) [
              | proxy_port ↦ unrecorded (self_loop_response net (host_of net url) (port_of net url))
              | ui_port ↦ untouched
              | no_listener ↦ elim (settings.paused || not (should_capture (host_of net url))) [
                | true ↦ untouched
                | false ↦
                    handle_captured_request net codecs (exchange url (entry_headers net parts))
              ]
            ]
      ]
