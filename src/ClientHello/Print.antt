-- ===== src/ClientHello/Print.antt =====
-- A ClientHello that is written out is read back.
use hamsy_proxy.Shared.{
  ℕ, zero, suc, ◌+◌, ◌*◌, ◌/◌, ◌%◌, ◌≤◌, ◌≡◌, refl, ap, sym, ◌∙◌, leb, Bool, true, false, Option,
  none, some, List, [], ◌∷◌, ◌++◌, length, length-append, take, drop, unwrap_or, if◌then◌else◌,
  arith,
}
use mathlib.Core.Option
use hamsy_proxy.Shared.Text.{Text}
use hamsy_proxy.Shared.Utf8.{valid, from_utf8}
use hamsy_proxy.ClientHello.{
  parse_sni, parse_alpn, utf8_text, ClientHelloInfo, take_bytes, take_u8, take_u16, and_then,
  skip_u8_field, skip_u16_field, protocols, extension_head, extensions, with_extension, no_info,
  parse_extensions, parse_client_hello,
}

-- Two bytes of a number, in front of the rest.
abbrev u16 : ℕ → Text → Text
u16 n rest = n / 256 ∷ n % 256 ∷ rest

-- A field with its length in front.
abbrev u8_field : Text → Text → Text
u8_field field rest = length field ∷ (field ++ rest)

abbrev u16_field : Text → Text → Text
u16_field field rest = u16 (length field) (field ++ rest)

abbrev pub print_extensions : List (ℕ × Text) → Text
print_extensions [] = []
print_extensions ((ext_type, ext_data) ∷ es) =
    u16 ext_type (u16_field ext_data (print_extensions es))

abbrev pub apply_extensions : List (ℕ × Text) → ClientHelloInfo → ClientHelloInfo
apply_extensions [] info = info
apply_extensions ((ext_type, ext_data) ∷ es) info =
    apply_extensions es (with_extension ext_type ext_data info)

-- The fields of a hello that the parser skips, and its extensions.
pub record Hello : Type 0 where
  pub legacy_version : ℕ
  pub record_len : ℕ
  pub handshake_len : ℕ × ℕ × ℕ
  pub client_version : ℕ
  pub random : Text
  pub session_id : Text
  pub cipher_suites : Text
  pub compression : Text
  pub exts : List (ℕ × Text)

abbrev pub print_hello : Hello → Text
print_hello h =
    0x16
    ∷ u16 (h.legacy_version) (
        u16 (h.record_len) (
          0x01
          ∷ h.handshake_len.0
          ∷ h.handshake_len.1
          ∷ h.handshake_len.2
          ∷ u16 (h.client_version) (
              h.random
              ++ u8_field (h.session_id) (
                  u16_field (h.cipher_suites)
                    (u8_field (h.compression) (u16_field (print_extensions (h.exts)) []))))))

take-append : (xs ys : Text) → take (length xs) (xs ++ ys) ≡ xs
take-append [] ys = refl
take-append (x ∷ xs) ys = ap (λ l. x ∷ l) (take-append xs ys)

drop-append : (xs ys : Text) → drop (length xs) (xs ++ ys) ≡ ys
drop-append [] ys = refl
drop-append (x ∷ xs) ys = drop-append xs ys

taken_if : (b : Bool) (x y : Text × Text) → b ≡ true → x ≡ y → (if b then some x else none) ≡ some y
taken_if true x y h e = ap some e
taken_if false x y h e = absurd (ground arith)

-- A field in front of the rest is taken whole.
take_bytes-append : (n : ℕ) (xs ys : Text) → n ≡ length xs → take_bytes n (xs ++ ys) ≡ some (xs, ys)
unfolding take_bytes
take_bytes-append n xs ys h =
    ap (λ k. take_bytes k (xs ++ ys)) h
    ∙ taken_if (leb (length xs) (length (xs ++ ys))) _ _ (ground (arith, length-append xs ys)) (
        ap (λ p. (p, drop (length xs) (xs ++ ys))) (take-append xs ys)
        ∙ ap (λ q. (xs, q)) (drop-append xs ys))

u16_value : (n : ℕ) → n / 256 * 256 + n % 256 ≡ n
u16_value n = omega arith

take_u16-u16 : (n : ℕ) (rest : Text) → take_u16 (u16 n rest) ≡ some (n, rest)
unfolding take_u16
take_u16-u16 n rest = ap (λ k. some (k, rest)) (u16_value n)

skip_u8_field-field : (field rest : Text) → skip_u8_field (u8_field field rest) ≡ some rest
unfolding skip_u8_field take_u8
skip_u8_field-field field rest =
    ap (λ o. and_then o (λ q. some (q.1))) (take_bytes-append (length field) field rest refl)

skip_u16_field-field : (field rest : Text) → skip_u16_field (u16_field field rest) ≡ some rest
unfolding skip_u16_field
skip_u16_field-field field rest =
    ap (λ o. and_then o (λ p. and_then (take_bytes (p.0) (p.1)) (λ q. some (q.1))))
      (take_u16-u16 (length field) (field ++ rest))
    ∙ ap (λ o. and_then o (λ q. some (q.1))) (take_bytes-append (length field) field rest refl)

extensions-print :
    (fuel : ℕ) (es : List (ℕ × Text)) (info : ClientHelloInfo)
    → length (print_extensions es) ≤ fuel
    → extensions fuel (print_extensions es) info ≡ some (apply_extensions es info)
unfolding extensions extension_head
extensions-print zero [] info h = refl
extensions-print zero ((ext_type, ext_data) ∷ es) info h = absurd (omega (arith, h))
extensions-print (suc fuel) [] info h = refl
extensions-print (suc fuel) ((ext_type, ext_data) ∷ es) info h =
    let rest = print_extensions es in
    ap
      (λ o. elim o [
        | none ↦ some info
        | some (field, left) ↦
            extensions fuel left (with_extension (ext_type / 256 * 256 + ext_type % 256) field info)
      ])
      (take_bytes-append (length ext_data / 256 * 256 + length ext_data % 256) ext_data rest
        (u16_value (length ext_data)))
    ∙ ap (λ k. extensions fuel rest (with_extension k ext_data info)) (u16_value ext_type)
    ∙ extensions-print fuel es (with_extension ext_type ext_data info)
        (omega (arith, h, length-append ext_data rest))

if_true : (b : Bool) (x y : Option ClientHelloInfo) → b ≡ true → (if b then x else y) ≡ x
if_true true x y h = refl
if_true false x y h = absurd (ground arith)

parse_extensions-print :
    (es : List (ℕ × Text))
    → parse_extensions (u16_field (print_extensions es) []) ≡ some (apply_extensions es no_info)
unfolding parse_extensions
parse_extensions-print es =
    let c = print_extensions es in
    if_true (leb 2 (length (u16_field c []))) _ _ (ground arith)
    ∙ ap
        (λ o. and_then o (λ total.
          and_then (take_bytes (total.0) (total.1))
            (λ ext_bytes. extensions (length (ext_bytes.0)) (ext_bytes.0) no_info)))
        (take_u16-u16 (length c) (c ++ []))
    ∙ ap (λ o. and_then o (λ ext_bytes. extensions (length (ext_bytes.0)) (ext_bytes.0) no_info))
        (take_bytes-append (length c) c [] refl)
    ∙ extensions-print (length c) es no_info (omega arith)

abbrev after_suites : Text → Option ClientHelloInfo
after_suites c = and_then (skip_u8_field c) parse_extensions

abbrev after_session : Text → Option ClientHelloInfo
after_session c = and_then (skip_u16_field c) after_suites

abbrev after_random : Text → Option ClientHelloInfo
after_random c = and_then (skip_u8_field c) after_session

abbrev after_handshake : Text → Option ClientHelloInfo
after_handshake c =
    and_then (take_u16 c)
      (λ version. and_then (and_then (take_bytes 32 (version.1)) (λ p. some (p.1))) after_random)

-- A ClientHello with any extensions.
parse_client_hello-print_hello :
    (h : Hello)
    → length (h.random) ≡ 32
    → parse_client_hello (print_hello h) ≡ some (apply_extensions (h.exts) no_info)
unfolding parse_client_hello take_u8 take_u16
parse_client_hello-print_hello h thirty_two =
    let exts = u16_field (print_extensions (h.exts)) [] in
    let compression = u8_field (h.compression) exts in
    let suites = u16_field (h.cipher_suites) compression in
    let session = u8_field (h.session_id) suites in
    ap (λ o. and_then (and_then o (λ p. some (p.1))) after_handshake)
      (take_bytes-append 3 (h.handshake_len.0 ∷ h.handshake_len.1 ∷ h.handshake_len.2 ∷ [])
        (u16 (h.client_version) (h.random ++ session)) refl)
    ∙ ap (λ o. and_then (and_then o (λ p. some (p.1))) after_random)
        (take_bytes-append 32 (h.random) session (sym thirty_two))
    ∙ ap (λ o. and_then o after_session) (skip_u8_field-field (h.session_id) suites)
    ∙ ap (λ o. and_then o after_suites) (skip_u16_field-field (h.cipher_suites) compression)
    ∙ ap (λ o. and_then o parse_extensions) (skip_u8_field-field (h.compression) exts)
    ∙ parse_extensions-print (h.exts)

-- The body of a `server_name` extension, and the one of the protocols.
abbrev pub print_sni : ℕ → Text → Text
print_sni list_len name = u16 list_len (0 ∷ u16_field name [])

abbrev print_protocols : List Text → Text
print_protocols [] = []
print_protocols (p ∷ ps) = u8_field p (print_protocols ps)

abbrev pub print_alpn : ℕ → List Text → Text
print_alpn list_len ps = u16 list_len (print_protocols ps)

parse_sni-print_sni :
    (list_len : ℕ) (name : Text)
    → from_utf8 name ≡ valid
    → parse_sni (print_sni list_len name) ≡ some name
unfolding parse_sni take_u16 take_u8
parse_sni-print_sni list_len name h =
    ap (λ o. and_then o (λ q. utf8_text (from_utf8 (q.0)) (q.0)))
      (take_bytes-append (length name / 256 * 256 + length name % 256) name []
        (u16_value (length name)))
    ∙ ap (λ u. utf8_text u name) h

protocols-print :
    (fuel : ℕ) (ps : List Text)
    → length (print_protocols ps) ≤ fuel
    → protocols fuel (print_protocols ps) ≡ some ps
unfolding protocols
protocols-print zero [] h = refl
protocols-print zero (p ∷ ps) h = absurd (omega (arith, h))
protocols-print (suc fuel) [] h = refl
protocols-print (suc fuel) (p ∷ ps) h =
    ap
      (λ o. elim o [
        | none ↦ some []
        | some (proto, rest) ↦ Option.map (λ out. proto ∷ out) (protocols fuel rest)
      ])
      (take_bytes-append (length p) p (print_protocols ps) refl)
    ∙ ap (Option.map (λ out. p ∷ out))
        (protocols-print fuel ps (omega (arith, h, length-append p (print_protocols ps))))

parse_alpn-print_alpn : (list_len : ℕ) (ps : List Text) → parse_alpn (print_alpn list_len ps) ≡ ps
unfolding parse_alpn take_u16
parse_alpn-print_alpn list_len ps =
    ap (λ o. unwrap_or o []) (protocols-print (length (print_protocols ps)) ps (omega arith))

-- A ClientHello that is written out with a random of 32 bytes, any other fields, and the extensions for a
-- host name in UTF-8 and for protocols is read back to that name and those protocols.
pub parse_client_hello-print :
    (h : Hello) (sni_len alpn_len : ℕ) (name : Text) (ps : List Text)
    → length (h.random) ≡ 32
    → h.exts ≡ (0x0000, print_sni sni_len name) ∷ (0x0010, print_alpn alpn_len ps) ∷ []
    → from_utf8 name ≡ valid
    → parse_client_hello (print_hello h) ≡ some (record { sni = some name; alpn = ps })
unfolding with_extension
parse_client_hello-print h sni_len alpn_len name ps thirty_two two utf8 =
    parse_client_hello-print_hello h thirty_two
    ∙ ap (λ es. some (apply_extensions es no_info)) two
    ∙ ap (λ n. some (record { sni = n; alpn = parse_alpn (print_alpn alpn_len ps) }))
        (parse_sni-print_sni sni_len name utf8)
    ∙ ap (λ l. some (record { sni = some name; alpn = l })) (parse_alpn-print_alpn alpn_len ps)
