-- ===== src/Permissions/Scope.antt =====
-- packages/identity/src/permissions/scope.ts: the one spelling of an origin, and the labels that a
-- caller's rules are read under.
pub mod Chars
pub mod Ipv4
pub mod Ipv6
mod Examples
use nostr_wot_sdk.Prelude.{
  ℕ, zero, suc, Bool, true, false, ◌&&◌, ◌||◌, not, Option, none, some, List, [], ◌∷◌, ◌++◌, Text,
  text, text_eq, starts_with, ◌==◌, nat_beq, ltb, leb, if◌then◌else◌, length, drop, any, lookup,
  put, decimal,
}
use Chars.{
  all, is_empty, is_digit, is_letter, between, lower, split_on, cut_at, parse_digits, last_text,
  init,
}
use Ipv4.{not_numeric, invalid, address, canonical_ipv4}
use Ipv6.{canonical_ipv6, all_texts}
use nostr_wot_sdk.Permissions.Key.{Decision, Bucket}

abbrev pub http_ports : List (Text × ℕ)
http_ports = (text "http", 80) ∷ (text "https", 443) ∷ []

abbrev pub web_socket_ports : List (Text × ℕ)
web_socket_ports = (text "ws", 80) ∷ (text "wss", 443) ∷ []

abbrev is_scheme_char : ℕ → Bool
is_scheme_char c = is_letter c || is_digit c || nat_beq c b'+' || nat_beq c b'.' || nat_beq c b'-'

abbrev pub is_scheme : Text → Bool
is_scheme [] = false
is_scheme (c ∷ s) = is_letter c && all is_scheme_char s

abbrev is_authority_char : ℕ → Bool
is_authority_char c = not (nat_beq c b'/' || nat_beq c b'?' || nat_beq c b'#')

-- `ORIGIN_SHAPE`: the scheme and the authority.
unfoldable pub origin_shape : Text → Option (Text × Text)
origin_shape value = elim (cut_at b':' value) [
  | none ↦ none
  | some (scheme, rest) ↦
      if is_scheme scheme && starts_with rest (text "//") && all is_authority_char (drop 2 rest)
      then some (scheme, drop 2 rest)
      else none
]

abbrev is_label : Text → Bool
is_label t =
    not (is_empty t)
    && all (λ c. between b'a' b'z' c || is_digit c || nat_beq c b'_' || nat_beq c b'-') t

-- `DOMAIN`
unfoldable pub is_domain : Text → Bool
is_domain t =
    let labels = split_on b'.' t in
    all_texts is_label
      (if ltb 1 (length labels) && is_empty (last_text labels) then init labels else labels)

-- The host and the port of an authority; the port is `none` where there is no colon.
unfoldable pub authority_parts : Text → Option (Text × Option Text)
authority_parts authority =
    if starts_with authority (text "[")
    then elim (cut_at b']' authority) [
      | none ↦ none
      | some (inside, []) ↦ some (inside ++ text "]", none)
      | some (inside, c ∷ rest) ↦
          if nat_beq c b':' then some (inside ++ text "]", some rest) else none
    ]
    else elim (cut_at b':' authority) [
      | none ↦ some (authority, none)
      | some (host, port) ↦ some (host, some port)
    ]

-- A domain, with an IPv4 address in its one spelling.
unfoldable pub canonical_domain : Text → Option Text
canonical_domain lowered =
    if is_domain lowered
    then elim (canonical_ipv4 lowered) [
      | not_numeric ↦ some lowered
      | invalid ↦ none
      | address t ↦ some t
    ]
    else none

unfoldable pub canonical_host : Text → Option Text
canonical_host host_text =
    if starts_with host_text (text "[")
    then canonical_ipv6 (init (drop 1 host_text))
    else canonical_domain (lower host_text)

-- The text behind the host: nothing for the scheme's default port.
unfoldable pub canonical_port : ℕ → Option Text → Option Text
canonical_port default_port none = some []
canonical_port default_port (some port) =
    let number = parse_digits 10 0 port in
    if is_empty port || ltb 5 (length port) || not (all is_digit port)
    then none
    else if ltb 65535 number
    then none
    else some (if nat_beq number default_port then [] else b':' ∷ decimal number)

-- `canonicalOrigin` behind its scheme and default port.
unfoldable pub origin_of_parts : Text → ℕ → Text → Option Text
origin_of_parts scheme default_port authority =
    if any (λ c. nat_beq c b'@') authority then none else elim (authority_parts authority) [
      | none ↦ none
      | some (host_text, port_text) ↦ elim (canonical_host host_text) [
        | none ↦ none
        | some host ↦ elim (canonical_port default_port port_text) [
          | none ↦ none
          | some port ↦ some (scheme ++ text "://" ++ host ++ port)
        ]
      ]
    ]

unfoldable pub canonical_origin : Text → List (Text × ℕ) → Option Text
canonical_origin value default_ports = elim (origin_shape value) [
  | none ↦ none
  | some (scheme_text, authority) ↦ elim (lookup (lower scheme_text) default_ports) [
    | none ↦ none
    | some default_port ↦ origin_of_parts (lower scheme_text) default_port authority
  ]
]

unfoldable pub canonical_http_origin : Text → Option Text
canonical_http_origin value = canonical_origin value http_ports

unfoldable pub canonical_web_socket_origin : Text → Option Text
canonical_web_socket_origin value = canonical_origin value web_socket_ports

-- `replace(/\.+$/, '')`
unfoldable pub strip_dots : Text → Text
strip_dots [] = []
strip_dots (c ∷ s) =
    let rest = strip_dots s in if is_empty rest && nat_beq c b'.' then [] else c ∷ rest

unfoldable pub canonical_hostname : Text → Option Text
canonical_hostname value =
    let lowered = strip_dots (lower value) in
    if is_empty lowered then none else canonical_domain lowered

-- What follows the first `//`; all but the first unit where there is none, as `slice(-1 + 2)` has it.
unfoldable pub after_slashes : Text → Option Text
after_slashes [] = none
after_slashes (c ∷ s) =
    let rest = after_slashes s in
    if nat_beq c b'/' && starts_with s (text "/") then some (drop 1 s) else rest

unfoldable pub hostname_of : Text → Text
hostname_of canonical =
    let authority : Text = elim (after_slashes canonical) [
      | none ↦ drop 1 canonical
      | some t ↦ t
    ] in
    if starts_with authority (text "[")
    then elim (cut_at b']' authority) [ none ↦ [] | some (inside, _) ↦ inside ++ text "]" ]
    else elim (cut_at b':' authority) [ none ↦ authority | some (host, _) ↦ host ]

-- The labels to read for a caller, most specific first.
unfoldable pub site_scopes : Text → List Text
site_scopes origin = elim (canonical_http_origin origin) [
  | none ↦ origin ∷ []
  | some canonical ↦ canonical ∷ hostname_of canonical ∷ []
]

-- `siteScopes(origin)[0]`
unfoldable pub storage_label : Text → Text
storage_label origin = elim (site_scopes origin) [ [] ↦ [] | label ∷ _ ↦ label ]

unfoldable pub has_site_scope : List Text → Text → Bool
has_site_scope stored origin = any (λ scope. any (λ s. s == scope) stored) (site_scopes origin)
