-- ===== src/ClientHello.antt =====
-- crates/hamsy-proxy/src/connect.rs: what is read from the first bytes of a tunnel. A `Cursor` is the
-- bytes that are left of its data; an offset that overflows is beyond the data in any case. Each of the
-- two loops runs on fuel, of which the number of the bytes is enough.
pub mod Enough
pub mod Print
pub mod Tests
use hamsy_proxy.Shared.{
  ℕ, zero, suc, ◌+◌, ◌*◌, ◌==◌, leb, Bool, true, false, Option, none, some, List, [], ◌∷◌, any,
  length, take, drop, is_empty, unwrap_or, if◌then◌else◌,
}
use mathlib.Core.Option
use hamsy_proxy.Shared.Text.{Text, text, starts_with}
use hamsy_proxy.Shared.Utf8.{Utf8, valid, cut_off, invalid, from_utf8}

unfoldable pub looks_like_plaintext_http : Text → Bool
unfolding starts_with
looks_like_plaintext_http s =
    any (λ m. starts_with s m)
      (text "GET "
        ∷ text "POST "
        ∷ text "PUT "
        ∷ text "HEAD "
        ∷ text "DELETE "
        ∷ text "OPTIONS "
        ∷ text "PATCH "
        ∷ text "CONNECT "
        ∷ text "TRACE "
        ∷ [])

pub record ClientHelloInfo : Type 0 where
  pub sni : Option Text
  pub alpn : List Text

-- `Cursor::take`, with the bytes that are left.
unfoldable pub take_bytes : ℕ → Text → Option (Text × Text)
take_bytes n c = if leb n (length c) then some (take n c, drop n c) else none

unfoldable pub take_u8 : Text → Option (ℕ × Text)
take_u8 [] = none
take_u8 (b ∷ c) = some (b, c)

unfoldable pub take_u16 : Text → Option (ℕ × Text)
take_u16 [] = none
take_u16 (h ∷ []) = none
take_u16 (h ∷ l ∷ c) = some (h * 256 + l, c)

-- `?` on an option.
abbrev pub and_then {ℓ κ} : {A : Type ℓ} {B : Type κ} → Option A → (A → Option B) → Option B
and_then none k = none
and_then (some a) k = k a

-- A field with its length in front, skipped.
unfoldable pub skip_u8_field : Text → Option Text
unfolding take_u8 take_bytes
skip_u8_field c = and_then (take_u8 c) (λ p. and_then (take_bytes (p.0) (p.1)) (λ q. some (q.1)))

unfoldable pub skip_u16_field : Text → Option Text
unfolding take_u16 take_bytes
skip_u16_field c = and_then (take_u16 c) (λ p. and_then (take_bytes (p.0) (p.1)) (λ q. some (q.1)))

abbrev pub utf8_text : Utf8 → Text → Option Text
utf8_text valid name = some name
utf8_text cut_off name = none
utf8_text invalid name = none

unfoldable pub parse_sni : Text → Option Text
unfolding take_u8 take_u16 take_bytes from_utf8
parse_sni s = and_then (take_u16 s) (λ list. and_then (take_u8 (list.1)) (λ name_type.
    and_then (take_u16 (name_type.1)) (λ len.
      and_then (take_bytes (len.0) (len.1))
        (λ name. if name_type.0 == 0 then utf8_text (from_utf8 (name.0)) (name.0) else none))))

-- The loop of `parse_alpn`; `none` where the fuel ends first.
unfoldable pub protocols : ℕ → Text → Option (List Text)
unfolding take_bytes
protocols zero [] = some []
protocols zero (len ∷ c) = none
protocols (suc fuel) [] = some []
protocols (suc fuel) (len ∷ c) = elim (take_bytes len c) [
  | none ↦ some []
  | some (proto, rest) ↦ Option.map (λ out. proto ∷ out) (protocols fuel rest)
]

unfoldable pub parse_alpn : Text → List Text
unfolding take_u16 protocols
parse_alpn s = elim (take_u16 s) [
  | none ↦ []
  | some (list_len, c) ↦ unwrap_or (protocols (length c) c) []
]

-- The type and the length of an extension, where four bytes are left.
unfoldable pub extension_head : Text → Option (ℕ × ℕ × Text)
extension_head [] = none
extension_head (a ∷ []) = none
extension_head (a ∷ b ∷ []) = none
extension_head (a ∷ b ∷ h ∷ []) = none
extension_head (a ∷ b ∷ h ∷ l ∷ c) = some (a * 256 + b, h * 256 + l, c)

unfoldable pub with_extension : ℕ → Text → ClientHelloInfo → ClientHelloInfo
unfolding parse_sni parse_alpn
with_extension ext_type ext_data info =
    if ext_type == 0x0000
    then record info { sni = parse_sni ext_data }
    else if ext_type == 0x0010
    then record info { alpn = parse_alpn ext_data }
    else info

-- The loop over the extensions; `none` where the fuel ends first.
unfoldable pub extensions : ℕ → Text → ClientHelloInfo → Option ClientHelloInfo
unfolding extension_head take_bytes with_extension
extensions zero c info = elim (extension_head c) [ none ↦ some info | some head ↦ none ]
extensions (suc fuel) c info = elim (extension_head c) [
  | none ↦ some info
  | some head ↦ elim (take_bytes (head.1) (head.2)) [
    | none ↦ some info
    | some (ext_data, rest) ↦ extensions fuel rest (with_extension (head.0) ext_data info)
  ]
]

abbrev pub no_info : ClientHelloInfo
no_info = record { sni = none; alpn = [] }

-- The end of the hello, which may have no extensions.
unfoldable pub parse_extensions : Text → Option ClientHelloInfo
unfolding take_u16 take_bytes extensions
parse_extensions c =
    if leb 2 (length c)
    then and_then (take_u16 c) (λ total.
      and_then (take_bytes (total.0) (total.1))
        (λ ext_bytes. extensions (length (ext_bytes.0)) (ext_bytes.0) no_info))
    else some no_info

-- `if c.take_u8()? != expected { return None; }`
abbrev expect_u8 : ℕ → Text → Option Text
expect_u8 expected c = and_then (take_u8 c) (λ p. if p.0 == expected then some (p.1) else none)

abbrev skip : ℕ → Text → Option Text
skip n c = and_then (take_bytes n c) (λ p. some (p.1))

unfoldable pub parse_client_hello : Text → Option ClientHelloInfo
unfolding take_u8 take_bytes take_u16 skip_u8_field skip_u16_field parse_extensions
parse_client_hello s = and_then (expect_u8 0x16 s) (λ c. and_then (take_u16 c) (λ version.
    and_then (take_u16 (version.1)) (λ record_len. and_then (expect_u8 0x01 (record_len.1)) (λ c.
      and_then (skip 3 c) (λ c. and_then (take_u16 c) (λ client_version.
        and_then (skip 32 (client_version.1)) (λ c. and_then (skip_u8_field c) (λ c.
          and_then (skip_u16_field c) (λ c. and_then (skip_u8_field c) parse_extensions)))))))))
