-- ===== src/ClientHello/Tests.antt =====
-- A small ClientHello.
use hamsy_proxy.Shared.{
  ℕ, ◌≡◌, refl, true, Option, some, none, List, [], ◌∷◌, ◌++◌, is_some, length, arith,
}
use hamsy_proxy.Shared.Text.{Text, text}
use hamsy_proxy.ClientHello.{no_info, protocols, extensions, parse_client_hello}
use hamsy_proxy.ClientHello.Enough.{loops_enough}
use hamsy_proxy.ClientHello.Print.{
  Hello, print_sni, print_alpn, print_hello, parse_client_hello-print,
}

abbrev eight : Text
eight = 1 ∷ 2 ∷ 3 ∷ 4 ∷ 5 ∷ 6 ∷ 7 ∷ 8 ∷ []

abbrev two_protocols : List Text
two_protocols = text "h2" ∷ text "http/1.1" ∷ []

abbrev sample_hello : Hello
sample_hello = record {
  legacy_version = 0x0303;
  record_len = 90;
  handshake_len = (0, 0, 86);
  client_version = 0x0303;
  random = eight ++ eight ++ eight ++ eight;
  session_id = eight;
  cipher_suites = 0x13 ∷ 0x01 ∷ [];
  compression = 0 ∷ [];
  exts = (0x0000, print_sni 6 (text "a.b")) ∷ (0x0010, print_alpn 12 two_protocols) ∷ [];
}

parse_client_hello-print_example :
    parse_client_hello (print_hello sample_hello)
    ≡ some (record { sni = some (text "a.b"); alpn = two_protocols })
unfolding hamsy_proxy.Shared.Utf8.from_utf8
parse_client_hello-print_example =
    parse_client_hello-print sample_hello 6 12 (text "a.b") two_protocols refl refl refl

loops_enough_example :
    (is_some (protocols 2 (5 ∷ 1 ∷ [])) ≡ true)
    × (is_some (extensions 2 (5 ∷ 1 ∷ []) no_info) ≡ true)
loops_enough_example = loops_enough 2 (5 ∷ 1 ∷ []) no_info (omega arith)

-- A record of another kind is no hello.
not_a_handshake : parse_client_hello (text "GET / HTTP/1.1") ≡ none
unfolding parse_client_hello
not_a_handshake = refl
