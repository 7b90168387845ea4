-- ===== src/Proxy/Hosts.antt =====
-- What the helpers on headers leave: hop-by-hop headers, the `Host` header and the matched rules.
use hamsy_proxy.Shared.{
  ◌≡◌, refl, ap, ◌∙◌, Bool, true, false, not, Option, none, some, List, [], ◌∷◌, ◌++◌, ◌||◌, any,
  filter, is_some, unwrap_or, if◌then◌else◌, arith,
}
use hamsy_proxy.Shared.Text.{
  Text, text, text_eq, text_eq_iff, to_ascii_lowercase, eq_ignore_ascii_case,
}
use hamsy_proxy.Flow.{HeaderPair}
use hamsy_proxy.Rules.Externals.{Externals}
use hamsy_proxy.Rules.Headers.{named, header_lookup, header_lookup-set_header}
use hamsy_proxy.Proxy.Net.{Net}
use hamsy_proxy.Proxy.Headers.{
  hop_by_hop, strip_hop_by_hop, header_value, set_header, host_with_port, set_host_header, has_id,
  union_matched,
}
use hamsy_proxy.Proxy.Target.{Target, port_of, with_original_host, apply_outcome_url_and_headers}

-- Whether a name is the one of a hop-by-hop header.
abbrev pub is_hop : Text → Bool
is_hop name = any (λ hop. eq_ignore_ascii_case name hop) hop_by_hop

-- Names that are equal but for their letters' case are so to every other name.
eq_ignore_ascii_case-cong :
    (a b c : Text)
    → eq_ignore_ascii_case a b ≡ true
    → eq_ignore_ascii_case a c ≡ eq_ignore_ascii_case b c
unfolding eq_ignore_ascii_case
eq_ignore_ascii_case-cong a b c h =
    ap (λ t. text_eq t (to_ascii_lowercase c))
      ((text_eq_iff (to_ascii_lowercase a) (to_ascii_lowercase b)).0 h)

any-cong :
    (a b : Text) (l : List Text)
    → eq_ignore_ascii_case a b ≡ true
    → any (λ hop. eq_ignore_ascii_case a hop) l ≡ any (λ hop. eq_ignore_ascii_case b hop) l
any-cong a b [] h = refl
any-cong a b (c ∷ l) h = ground (arith, eq_ignore_ascii_case-cong a b c h, any-cong a b l h)

-- The first of the values that a lookup finds.
abbrev first_of : List Text → Option Text
first_of [] = none
first_of (v ∷ vs) = some v

header_value-lookup :
    (headers : List HeaderPair) (name : Text)
    → header_value headers name ≡ first_of (header_lookup headers name)
unfolding header_value header_lookup
header_value-lookup [] name = refl
header_value-lookup (h ∷ hs) name = ground (arith, header_value-lookup hs name)

strip-lookup :
    (headers : List HeaderPair) (name : Text) (l : List Text) (b : Bool)
    → any (λ hop. eq_ignore_ascii_case name hop) l ≡ b
    → header_lookup
        (filter (λ h. not (any (λ hop. eq_ignore_ascii_case (h.name) hop) l)) headers)
        name
      ≡ (if b then [] else header_lookup headers name)
unfolding header_lookup named
strip-lookup [] name l b e = ground arith
strip-lookup (h ∷ hs) name l b e =
    ground (arith, strip-lookup hs name l b e, any-cong (h.name) name l)

-- After `strip_hop_by_hop` no hop-by-hop header has a value, whatever its letters' case, and every other
-- header keeps its values in their order.
pub header_lookup-strip_hop_by_hop :
    (headers : List HeaderPair) (name : Text)
    → header_lookup (strip_hop_by_hop headers) name
      ≡ (if is_hop name then [] else header_lookup headers name)
unfolding strip_hop_by_hop
header_lookup-strip_hop_by_hop headers name =
    strip-lookup headers name hop_by_hop (is_hop name) refl

taken : (b : Bool) (x y : List Text) → b ≡ true → (if b then x else y) ≡ x
taken b x y h = ground arith

header_value-set_header :
    (headers : List HeaderPair) (name value other : Text)
    → eq_ignore_ascii_case name other ≡ true
    → header_value (set_header headers name value) other ≡ some value
unfolding set_header hamsy_proxy.Rules.Headers.set_header
header_value-set_header headers name value other h =
    header_value-lookup (set_header headers name value) other
    ∙ ap first_of (
        header_lookup-set_header headers name value other
        ∙ taken (eq_ignore_ascii_case name other) (value ∷ []) (header_lookup headers other) h)

same_name : eq_ignore_ascii_case (text "Host") (text "host") ≡ true
unfolding eq_ignore_ascii_case
same_name = refl

module _ {ext : Externals} (net : Net ext) where
  open ext use {Url, parse_url, as_str, host_str, scheme}

  -- The `Host` of the origin that a URL names.
  abbrev pub host_named : Url → Text → Text
  host_named url host =
      host_with_port host (port_of net url)
        (if eq_ignore_ascii_case (scheme url) (text "https") then 443 else 80)

  -- Where the rules left no `Host`: none, or the one of the URL before a rewriting.
  abbrev pub synthesized_host : Text → Target net → Option Text
  synthesized_host outcome_url t =
      if text_eq outcome_url (as_str (t.url)) then none else elim (parse_url outcome_url) [
        | none ↦ none
        | some parsed ↦ some (
            host_named (t.url)
              (unwrap_or (host_str (t.url)) (unwrap_or (host_str parsed) (t.host))))
      ]

  abbrev or_else : Option Text → Option Text → Option Text
  or_else (some v) o = some v
  or_else none o = o

  or_else-none : (o : Option Text) → o ≡ or_else o none
  or_else-none none = refl
  or_else-none (some v) = refl

  chosen-value :
      (o : Option Text) (name v : Text) (headers set : List HeaderPair)
      → header_value headers name ≡ o
      → header_value set name ≡ some v
      → header_value (if is_some o then headers else set) name ≡ or_else o (some v)
  chosen-value none name v headers set h k = k
  chosen-value (some w) name v headers set h k = h

  with_original_host-value :
      (original : Url) (host : Text) (headers : List HeaderPair)
      → header_value (with_original_host net original host headers) (text "host")
        ≡ or_else
            (header_value headers (text "host"))
            (some (host_named original (unwrap_or (host_str original) host)))
  unfolding with_original_host set_host_header
  with_original_host-value original host headers =
      chosen-value (header_value headers (text "host")) (text "host")
        (host_named original (unwrap_or (host_str original) host)) headers _ refl
        (header_value-set_header headers (text "Host")
          (host_named original (unwrap_or (host_str original) host)) (text "host") same_name)

  abbrev chosen_target : Bool → Option Url → List HeaderPair → Target net → Target net
  chosen_target same rewritten headers t = elim same [
    | true ↦ record t { headers = headers }
    | false ↦ elim rewritten [
      | none ↦ record t { headers = headers }
      | some parsed ↦ record {
        url = parsed;
        host = unwrap_or (host_str parsed) (t.host);
        port = unwrap_or (net.port_or_known_default parsed) (t.port);
        headers = with_original_host net (t.url) (unwrap_or (host_str parsed) (t.host)) headers;
      }
    ]
  ]

  choice-value :
      (same : Bool) (rewritten : Option Url) (headers : List HeaderPair) (t : Target net)
      → header_value ((chosen_target same rewritten headers t).headers) (text "host")
        ≡ or_else (header_value headers (text "host")) (
            if same then none else elim rewritten [
              | none ↦ none
              | some parsed ↦ some (
                  host_named
                    (t.url)
                    (unwrap_or (host_str (t.url)) (unwrap_or (host_str parsed) (t.host))))
            ])
  choice-value true rewritten headers t = or_else-none (header_value headers (text "host"))
  choice-value false none headers t = or_else-none (header_value headers (text "host"))
  choice-value false (some parsed) headers t =
      with_original_host-value (t.url) (unwrap_or (host_str parsed) (t.host)) headers

  -- The `Host` header that a request goes on with, whatever URL the rules chose: the one that they
  -- left, or else, if they rewrote the URL, the one of the URL before the rewriting; never the one of
  -- the new URL, unless the old one names no host.
  pub header_value-apply_outcome :
      (outcome_url : Text) (outcome_headers : List HeaderPair) (t : Target net)
      → header_value
          ((apply_outcome_url_and_headers net outcome_url outcome_headers t).headers)
          (text "host")
        ≡ or_else
            (header_value (strip_hop_by_hop outcome_headers) (text "host"))
            (synthesized_host outcome_url t)
  unfolding apply_outcome_url_and_headers
  header_value-apply_outcome outcome_url outcome_headers t =
      choice-value (text_eq outcome_url (as_str (t.url))) (parse_url outcome_url)
        (strip_hop_by_hop outcome_headers) t

has_id-append :
    (id i : Text) (a : List Text) → has_id id (a ++ i ∷ []) ≡ (has_id id a || text_eq id i)
has_id-append id i [] = ground arith
has_id-append id i (j ∷ a) = ground (arith, has_id-append id i a)

has_id_of_eq : (id i : Text) (a : List Text) → text_eq id i ≡ true → has_id id a ≡ has_id i a
has_id_of_eq id i a h = ap (λ t. has_id t a) ((text_eq_iff id i).0 h)

has_id-added :
    (id i : Text) (a : List Text) (b : Bool)
    → has_id i a ≡ b
    → has_id id (if b then a else a ++ i ∷ []) ≡ (has_id id a || text_eq id i)
has_id-added id i a true h = ground (arith, has_id_of_eq id i a)
has_id-added id i a false h = has_id-append id i a

-- The matched rules of both phases: an id is among them where a phase has it.
pub has_id-union_matched :
    (id : Text) (a b : List Text) → has_id id (union_matched a b) ≡ (has_id id a || has_id id b)
unfolding union_matched
has_id-union_matched id a [] = ground arith
has_id-union_matched id a (i ∷ b) =
    has_id-union_matched id (if has_id i a then a else a ++ i ∷ []) b
    ∙ ground (arith, has_id-added id i a (has_id i a) refl)
