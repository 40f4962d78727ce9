-- ===== src/Permissions/Authentication.antt =====
-- packages/identity/src/permissions/authentication.ts: what an event that asks for a credential says,
-- and who asks. A throw is `invalid`, and a time that is no integer is `none`.
pub mod Accepts
mod Examples
use nostr_wot_sdk.Prelude.{
  ℕ, zero, suc, ◌+◌, ◌-◌, Bool, true, false, not, ◌&&◌, ◌||◌, Option, none, some, List, [], ◌∷◌,
  ◌++◌, Text, text, text_eq, ◌==◌, nat_beq, ltb, leb, if◌then◌else◌, length, drop, any, keep,
  starts_with, ℤ, pos, negsuc, int_eq,
}
use nostr_wot_sdk.Permissions.Key.{nip42_kind}
use nostr_wot_sdk.Permissions.Scope.Chars.{
  all, is_empty, is_digit, is_letter, is_lower_hex, between, lower, cut_at, last_text,
}
use nostr_wot_sdk.Permissions.Scope.{
  canonical_http_origin, canonical_web_socket_origin, hostname_of, is_scheme,
}
use nostr_wot_sdk.Permissions.Host.{Protocol, nip42, nip98, legacy_login}
use nostr_wot_sdk.Permissions.Grants.{
  AuthenticationRequest, json_array, option_beq, protocol_name, method_or_empty,
}

abbrev pub nip98_kind : ℤ
nip98_kind = pos 27235

-- `AUTHENTICATION_SIGN_KINDS`
abbrev pub is_authentication_kind : ℤ → Bool
is_authentication_kind kind = kind == nip42_kind || kind == nip98_kind

pub data Requester : Type 0 where
  web nip46 nip55 lan local : Text → Requester

pub record AuthenticationEvent : Type 0 where
  pub kind : ℤ
  pub content : Text
  pub created_at : Option ℤ
  pub tags : List (List Text)

-- A host names a requester by a web origin or by a record.
pub data Named : Type 0 where
  origin_string : Text → Named
  requester : Requester → Named

-- The characters that `trim` takes off.
abbrev pub is_space : ℕ → Bool
is_space c =
    between 9 13 c
    || nat_beq c 32
    || nat_beq c 0xa0
    || nat_beq c 0x1680
    || between 0x2000 0x200a c
    || nat_beq c 0x2028
    || nat_beq c 0x2029
    || nat_beq c 0x202f
    || nat_beq c 0x205f
    || nat_beq c 0x3000
    || nat_beq c 0xfeff

abbrev pub starts_spaced : Text → Bool
starts_spaced [] = false
starts_spaced (c ∷ s) = is_space c

abbrev pub ends_spaced : Text → Bool
ends_spaced [] = false
ends_spaced (c ∷ []) = is_space c
ends_spaced (c ∷ d ∷ s) = ends_spaced (d ∷ s)

-- `t === t.trim()`
abbrev pub is_trimmed : Text → Bool
is_trimmed t = not (starts_spaced t || ends_spaced t)

abbrev is_control : ℕ → Bool
is_control c = leb c 32 || nat_beq c 127

-- `requesterLabel`
unfoldable pub requester_label : Text → Option Text
requester_label value =
    if is_empty value || not (is_trimmed value) || not (all (λ c. not (is_control c)) value)
    then none
    else some value

-- `HEX_PUBKEY` and `SHA256_HEX`
unfoldable pub is_hex_64 : Text → Bool
is_hex_64 t = nat_beq (length t) 64 && all is_lower_hex t

abbrev prefixed : Text → Option Text → Option Text
prefixed kind none = none
prefixed kind (some label) = some (kind ++ label)

unfoldable pub authentication_requester_key : Requester → Option Text
authentication_requester_key (web origin) =
    if option_beq (canonical_http_origin origin) (some origin) then some origin else none
authentication_requester_key (nip46 client_pubkey) = elim (requester_label client_pubkey) [
  | none ↦ none
  | some label ↦ if is_hex_64 (lower label) then some (text "nip46:" ++ lower label) else none
]
authentication_requester_key (nip55 package_name) =
    prefixed (text "nip55:") (requester_label package_name)
authentication_requester_key (lan peer_id) = prefixed (text "lan:") (requester_label peer_id)
authentication_requester_key (local id) = prefixed (text "local:") (requester_label id)

-- `webOriginOf`; the outer `none` is a throw.
unfoldable pub web_origin_of : Named → Option (Option Text)
web_origin_of (origin_string origin) = some (some origin)
web_origin_of (requester (web origin)) = some (some origin)
web_origin_of (requester r) = elim (authentication_requester_key r) [
  | none ↦ none
  | some _ ↦ some none
]

abbrev pub is_tag : Text → List Text → Bool
is_tag name [] = false
is_tag name (t ∷ values) = t == name

-- The value of the only tag of its name.
abbrev tag_value : List (List Text) → Option Text
tag_value ((_ ∷ (c ∷ s) ∷ []) ∷ []) = some (c ∷ s)
tag_value _ = none

-- `tag`
unfoldable pub tag : AuthenticationEvent → Text → Option Text
tag event name = tag_value (keep (is_tag name) event.tags)

abbrev pub has_tag : AuthenticationEvent → Text → Bool
has_tag event name = any (is_tag name) event.tags

unfoldable pub is_loopback : Text → Bool
is_loopback canonical =
    any (λ host. host == hostname_of canonical)
      (text "localhost" ∷ text "127.0.0.1" ∷ text "[::1]" ∷ [])

abbrev is_path_start : ℕ → Bool
is_path_start c = nat_beq c b'/' || nat_beq c b'?'

-- The authority and what follows it from the first slash or question mark.
unfoldable pub cut_path : Text → Text × Text
cut_path [] = ([], [])
cut_path (c ∷ s) =
    let (authority, tail) = cut_path s in
    if is_path_start c then ([], c ∷ s) else (c ∷ authority, tail)

-- `URL_SHAPE`: the scheme, the authority and the tail.
unfoldable pub url_shape : Text → Option (Text × (Text × Text))
url_shape raw = elim (cut_at b':' raw) [
  | none ↦ none
  | some (scheme, rest) ↦
      if is_scheme scheme && starts_with rest (text "//")
      then some (scheme, cut_path (drop 2 rest))
      else none
]

-- Whether the requester may ask at all: its origin in the one spelling, and secure or on this machine.
abbrev pub is_requester : Option Text → Bool
is_requester none = true
is_requester (some origin) =
    option_beq (canonical_http_origin origin) (some origin)
    && not (starts_with origin (text "http://") && not (is_loopback origin))

pub record Destination : Type 0 where
  pub origin : Text
  pub full : Text

abbrev with_slash : Text → Text
with_slash tail = if starts_with tail (text "/") then tail else b'/' ∷ tail

abbrev insecure_scheme : Bool → Text
insecure_scheme true = text "ws"
insecure_scheme false = text "http"

abbrev canonical_destination : Bool → Text → Option Text
canonical_destination true authority = canonical_web_socket_origin authority
canonical_destination false authority = canonical_http_origin authority

-- The end of `destinationOf`, once the parts are known.
unfoldable pub destination_of_parts : Bool → Text → Text → Text → Option Destination
destination_of_parts relay scheme authority tail =
    elim (canonical_destination relay (scheme ++ text "://" ++ authority)) [
      | none ↦ none
      | some origin ↦
          if scheme == insecure_scheme relay && not (is_loopback origin)
          then none
          else some (record { origin = origin; full = origin ++ with_slash tail })
    ]

unfoldable pub destination_of : Text → Option Text → Bool → Option Destination
destination_of raw requester_origin relay =
    if not (is_trimmed raw)
      || any (nat_beq b'#') raw
      || any (λ c. is_control c || nat_beq c 0x5c) raw
      || not (is_requester requester_origin)
    then none
    else elim (url_shape raw) [
      | none ↦ none
      | some (scheme, (authority, tail)) ↦ destination_of_parts relay (lower scheme) authority tail
    ]

-- `Math.abs(now - created)`
abbrev pub distance : ℕ → ℤ → ℕ
distance now (pos t) = (now - t) + (t - now)
distance now (negsuc t) = now + suc t

-- Whether an event is made at an integer time that is not too far from now.
unfoldable pub is_fresh : ℕ → Option ℤ → ℕ → Bool
is_fresh now none max_age = false
is_fresh now (some created) max_age = leb (distance now created) max_age

-- One origin metadata tag: absent, or the requester's own origin.
unfoldable pub metadata_matches : AuthenticationEvent → Option Text → Text → Bool
metadata_matches event none name = not (has_tag event name)
metadata_matches event (some origin) name =
    not (has_tag event name) || option_beq (tag event name) (some origin)

pub data Parsed : Type 0 where
  not_authentication invalid : Parsed
  parsed : AuthenticationRequest → Parsed

abbrev pub nip42_max_age : ℕ
nip42_max_age = 600

abbrev pub nip98_max_age : ℕ
nip98_max_age = 60

abbrev is_legacy_tag : List Text → Bool
is_legacy_tag [] = false
is_legacy_tag (name ∷ values) =
    any (λ n. n == name)
      (text "domain" ∷ text "challenge" ∷ text "origin" ∷ text "client-origin" ∷ [])

-- `tag(event, 'challenge').trim()` is not empty.
abbrev has_challenge : Option Text → Bool
has_challenge none = false
has_challenge (some challenge) = not (all is_space challenge)

-- The website login that names a domain where a relay should stand.
unfoldable pub parse_legacy : AuthenticationEvent → Option Text → ℕ → List Text → Parsed
parse_legacy event none now legacy_origins = invalid
parse_legacy event (some origin) now legacy_origins =
    if any (λ o. o == origin) legacy_origins
      && option_beq (canonical_http_origin origin) (some origin)
      && starts_with origin (text "https://")
      && option_beq (tag event (text "domain")) (some (hostname_of origin))
      && not (any (λ t. not (is_legacy_tag t)) event.tags)
      && has_challenge (tag event (text "challenge"))
      && is_fresh now event.created_at nip98_max_age
      && is_empty event.content
    then parsed (record {
      protocol = legacy_login;
      url = origin;
      destination = origin;
      method = none;
      cross_origin = false;
    })
    else invalid

-- The end of the NIP-42 branch.
unfoldable pub finish_nip42 : AuthenticationEvent → Text → Destination → Parsed
finish_nip42 event raw d = elim (tag event (text "challenge")) [
  | none ↦ invalid
  | some _ ↦ parsed (record {
    protocol = nip42;
    url = raw;
    destination = d.full;
    method = none;
    cross_origin = true;
  })
]

abbrev is_method_char : ℕ → Bool
is_method_char c = is_digit c || between b'A' b'Z' c || any (nat_beq c) (text "!#$%&'*+.^_`|~-")

-- `HTTP_METHOD`
abbrev is_http_method : Text → Bool
is_http_method t = not (is_empty t) && all is_method_char t

-- No payload tag, or one with a digest.
abbrev is_payload : List (List Text) → Bool
is_payload [] = true
is_payload ((_ ∷ digest ∷ []) ∷ []) = is_hex_64 digest
is_payload _ = false

abbrev is_origin : Option Text → Text → Bool
is_origin none t = false
is_origin (some origin) t = t == origin

unfoldable pub finish_nip98 : AuthenticationEvent → Option Text → Text → Destination → Parsed
finish_nip98 event origin raw d = elim (tag event (text "method")) [
  | none ↦ invalid
  | some method ↦
      if is_http_method method && is_payload (keep (is_tag (text "payload")) event.tags)
      then parsed (record {
        protocol = nip98;
        url = raw;
        destination = d.origin;
        method = some method;
        cross_origin = not (is_origin origin d.origin);
      })
      else invalid
]

-- What both protocols check once the destination is known.
unfoldable pub parse_destined :
    Bool → AuthenticationEvent → Option Text → ℕ → Text → Destination → Parsed
parse_destined relay event origin now raw d =
    if is_fresh now event.created_at (if relay then nip42_max_age else nip98_max_age)
      && is_empty event.content
    then (if relay then finish_nip42 event raw d else finish_nip98 event origin raw d)
    else invalid

unfoldable pub parse_standard : Bool → AuthenticationEvent → Option Text → ℕ → Parsed
parse_standard relay event origin now =
    elim (tag event (if relay then text "relay" else text "u")) [
      | none ↦ invalid
      | some raw ↦ elim (destination_of raw origin relay) [
        | none ↦ invalid
        | some d ↦ parse_destined relay event origin now raw d
      ]
    ]

-- The parser once the requester's origin is known.
unfoldable pub parse_from : AuthenticationEvent → Option Text → ℕ → List Text → Parsed
parse_from event origin now legacy_origins =
    let relay = event.kind == nip42_kind in
    if not (
      metadata_matches event origin (text "origin")
      && metadata_matches event origin (text "client-origin"))
    then invalid
    else if relay && not (has_tag event (text "relay")) && has_tag event (text "domain")
    then parse_legacy event origin now legacy_origins
    else parse_standard relay event origin now

unfoldable pub parse_authentication : AuthenticationEvent → Named → ℕ → List Text → Parsed
parse_authentication event name now legacy_origins =
    if not (is_authentication_kind event.kind)
    then not_authentication
    else elim (web_origin_of name) [
      | none ↦ invalid
      | some origin ↦ parse_from event origin now legacy_origins
    ]

-- `authenticationKey`
unfoldable pub authentication_key : AuthenticationRequest → Text
authentication_key auth =
    json_array (protocol_name auth.protocol ∷ auth.url ∷ method_or_empty auth.method ∷ [])
