-- ===== src/Permissions/Grants.antt =====
-- packages/identity/src/permissions/authenticationGrants.ts, with the grant records of
-- authentication.ts. The calls of one instance run one after another, as its lock has it.
use nostr_wot_sdk.Prelude.{
  ℕ, ◌+◌, ◌-◌, ◌/◌, ◌%◌, Bool, true, false, not, ◌&&◌, ◌||◌, Option, none, some, List, [], ◌∷◌,
  ◌++◌, Text, text, text_eq, ◌==◌, nat_beq, ltb, leb, if◌then◌else◌, any, keep, lookup, put, remove,
  starts_with,
}
use nostr_wot_sdk.Permissions.Host.{
  Protocol, nip42, nip98, legacy_login, Consent, allow, deny, AuthenticationGrant, M, ◌>>=◌, ◌>>◌,
  pure, refuse_if, require_label, read, write, invalid_scope, invalid_denial_scope,
  authentication_denied,
}
use nostr_wot_sdk.Permissions.Scope.{canonical_http_origin, site_scopes, storage_label}

pub record AuthenticationRequest : Type 0 where
  pub protocol : Protocol
  pub url : Text
  pub destination : Text
  pub method : Option Text
  pub cross_origin : Bool

-- `unknown` is whatever else a host may read off a message.
pub data AuthenticationScope : Type 0 where
  once site connected_sites unknown : AuthenticationScope

pub record AuthenticationBackend : Type 0 where
  pub origin : Text
  pub destination : Text

abbrev pub shared_sites_origin : Text
shared_sites_origin = text "*"

abbrev pub protocol_beq : Protocol → Protocol → Bool
protocol_beq nip42 nip42 = true
protocol_beq nip98 nip98 = true
protocol_beq legacy_login legacy_login = true
protocol_beq _ _ = false

abbrev pub option_beq : Option Text → Option Text → Bool
option_beq none none = true
option_beq (some s) (some t) = s == t
option_beq _ _ = false

unfoldable pub valid_authentication_scope : Protocol → AuthenticationScope → Bool
valid_authentication_scope legacy_login once = true
valid_authentication_scope legacy_login _ = false
valid_authentication_scope nip42 unknown = false
valid_authentication_scope nip42 _ = true
valid_authentication_scope nip98 once = true
valid_authentication_scope nip98 site = true
valid_authentication_scope nip98 _ = false

abbrev pub is_denied : Option Consent → Bool
is_denied (some deny) = true
is_denied _ = false

-- The last part of `governs`: which endpoint the record answers for.
abbrev pub governs_endpoint : Protocol → Bool → Option Text → Option Consent → Text → Bool
governs_endpoint nip42 version resource decision url = true
governs_endpoint _ true (some resource) decision url = resource == url
governs_endpoint _ _ _ decision url = is_denied decision

unfoldable pub governs : AuthenticationGrant → Text → Text → AuthenticationRequest → Bool
governs grant account_id origin auth =
    (grant.account_id == account_id
      && protocol_beq grant.protocol auth.protocol
      && grant.destination == auth.destination
      && option_beq grant.method auth.method
      && (grant.origin == origin
          || protocol_beq auth.protocol nip42 && grant.origin == shared_sites_origin))
    && governs_endpoint auth.protocol grant.version grant.resource grant.decision auth.url

unfoldable pub governing :
    List AuthenticationGrant → Text → Text → AuthenticationRequest → List AuthenticationGrant
governing grants account_id origin auth = keep (λ g. governs g account_id origin auth) grants

abbrev hex_unit : ℕ → ℕ
hex_unit n = if ltb n 10 then b'0' + n else b'a' + (n - 10)

abbrev between : ℕ → ℕ → ℕ → Bool
between lo hi c = leb lo c && leb c hi

-- One code unit inside a JSON string.
unfoldable pub escape_unit : ℕ → Text
escape_unit c =
    if nat_beq c b'"' || nat_beq c 92
    then 92 ∷ c ∷ []
    else if nat_beq c 8
    then 92 ∷ b'b' ∷ []
    else if nat_beq c 9
    then 92 ∷ b't' ∷ []
    else if nat_beq c 10
    then 92 ∷ b'n' ∷ []
    else if nat_beq c 12
    then 92 ∷ b'f' ∷ []
    else if nat_beq c 13
    then 92 ∷ b'r' ∷ []
    else if ltb c 32 || between 0xd800 0xdfff c
    then 92
      ∷ b'u'
      ∷ hex_unit (c / 4096)
      ∷ hex_unit (c / 256 % 16)
      ∷ hex_unit (c / 16 % 16)
      ∷ hex_unit (c % 16)
      ∷ []
    else c ∷ []

-- A surrogate pair stays as it is; a lone surrogate is escaped.
unfoldable pub escape : Text → Text
escape [] = []
escape (c ∷ []) = escape_unit c
escape (c ∷ d ∷ s) = elim (between 0xd800 0xdbff c && between 0xdc00 0xdfff d) [
  | true ↦ c ∷ d ∷ escape s
  | false ↦ escape_unit c ++ escape (d ∷ s)
]

abbrev quoted : Text → Text
quoted t = b'"' ∷ escape t ++ b'"' ∷ []

unfoldable pub json_items : List Text → Text
json_items [] = []
json_items (t ∷ []) = quoted t
json_items (t ∷ u ∷ ts) = quoted t ++ b',' ∷ json_items (u ∷ ts)

-- `JSON.stringify` of an array of texts.
unfoldable pub json_array : List Text → Text
json_array ts = b'[' ∷ json_items ts ++ b']' ∷ []

abbrev pub protocol_name : Protocol → Text
protocol_name nip42 = text "nip42"
protocol_name nip98 = text "nip98"
protocol_name legacy_login = text "legacy-login"

-- The endpoint that a grant is keyed by.
abbrev pub grant_scope : AuthenticationRequest → Text
grant_scope auth = if protocol_beq auth.protocol nip98 then auth.url else auth.destination

abbrev pub method_or_empty : Option Text → Text
method_or_empty none = []
method_or_empty (some m) = m

unfoldable pub grant_id : Text → Text → AuthenticationRequest → Text
grant_id account_id origin auth = json_array (
    account_id
    ∷ origin
    ∷ protocol_name auth.protocol
    ∷ grant_scope auth
    ∷ method_or_empty auth.method
    ∷ [])

unfoldable pub list_grants : M (List AuthenticationGrant)
list_grants = read (λ d. d.authentication_grants)

unfoldable pub get_default_backend_auth : Text → M Bool
get_default_backend_auth [] = pure false
get_default_backend_auth (c ∷ s) =
    read (λ d. elim (lookup (c ∷ s) d.default_backend_auth) [ none ↦ false | some on ↦ on ])

unfoldable pub set_default_backend_auth : Text → Bool → M (Unit {0})
set_default_backend_auth account_id enabled = do
  require_label account_id
  write (λ d. record d { default_backend_auth = put account_id enabled d.default_backend_auth })

-- `exactHttps`
abbrev pub exact_https : Text → Bool
exact_https value =
    starts_with value (text "https://")
    && elim (canonical_http_origin value) [ none ↦ false | some c ↦ c == value ]

-- The condition of the default for a service's own backend.
unfoldable pub is_own_backend : List AuthenticationBackend → Text → AuthenticationRequest → Bool
is_own_backend registry origin auth =
    protocol_beq auth.protocol nip98
    && exact_https origin
    && exact_https auth.destination
    && (origin == auth.destination
        || any (λ b. b.origin == origin && b.destination == auth.destination) registry)

abbrev allows : AuthenticationGrant → Bool
allows g = not (is_denied g.decision)

-- `decisionFor` over the grants that govern the request; `none` is nothing said yet.
unfoldable pub decide_matching : List AuthenticationGrant → Bool → Text → M (Option Consent)
decide_matching matching own_backend account_id =
    if any (λ g. is_denied g.decision) matching
    then pure (some deny)
    else if any allows matching
    then pure (some allow)
    else if own_backend
    then (do on ← get_default_backend_auth account_id; pure (if on then some allow else none))
    else pure none

abbrev pub is_blank : Text → Bool
is_blank [] = true
is_blank (c ∷ s) = false

unfoldable pub decision_for :
    List AuthenticationBackend → Text → Text → AuthenticationRequest → M (Option Consent)
decision_for registry account_id origin auth =
    if protocol_beq auth.protocol legacy_login || is_blank account_id || is_blank origin
    then pure none
    else (do
      grants ← list_grants
      decide_matching (governing grants account_id (storage_label origin) auth)
          (is_own_backend registry origin auth) account_id)

unfoldable pub is_allowed :
    List AuthenticationBackend → Text → Text → AuthenticationRequest → M Bool
is_allowed registry account_id origin auth = do
  decision ← decision_for registry account_id origin auth
  pure (elim decision [ none ↦ false | some c ↦ elim c [ allow ↦ true | deny ↦ false ] ])

abbrev is_once : AuthenticationScope → Bool
is_once once = true
is_once _ = false

abbrev is_site : AuthenticationScope → Bool
is_site site = true
is_site _ = false

abbrev is_shared : AuthenticationScope → Bool
is_shared connected_sites = true
is_shared _ = false

abbrev consent_denies : Consent → Bool
consent_denies deny = true
consent_denies allow = false

-- `grantOrigin`
abbrev pub grant_origin : Text → AuthenticationScope → Text
grant_origin label scope = if is_shared scope then shared_sites_origin else label

-- `auth.method ? { method: auth.method } : {}`
abbrev stored_method : Option Text → Option Text
stored_method none = none
stored_method (some []) = none
stored_method (some (c ∷ s)) = some (c ∷ s)

abbrev pub new_grant : Text → Text → AuthenticationRequest → Consent → AuthenticationGrant
new_grant account_id origin auth decision = record {
  decision = some decision;
  id = grant_id account_id origin auth;
  account_id = account_id;
  origin = origin;
  protocol = auth.protocol;
  destination = auth.destination;
  method = stored_method auth.method;
  version = protocol_beq auth.protocol nip98;
  resource = if protocol_beq auth.protocol nip98 then some auth.url else none;
}

-- The grants that a write leaves: the record of the same id is replaced.
unfoldable pub replace_grant :
    AuthenticationGrant → List AuthenticationGrant → List AuthenticationGrant
replace_grant grant grants = keep (λ g. not (g.id == grant.id)) grants ++ grant ∷ []

-- `assertCurrent` is the host's check, which runs after the read.
unfoldable pub save :
    Text
    → Text
    → AuthenticationRequest
    → AuthenticationScope
    → M (Unit {0})
    → Consent
    → M (Unit {0})
save account_id origin auth scope assert_current decision = do
  require_label account_id
  require_label origin
  refuse_if (not (valid_authentication_scope auth.protocol scope)) invalid_scope
  refuse_if (consent_denies decision && not (is_site scope)) invalid_denial_scope
  grants ← list_grants
  assert_current
  refuse_if
      (not (consent_denies decision)
        && any (λ g. is_denied g.decision)
            (governing grants account_id (storage_label origin) auth))
      authentication_denied
  if is_once scope
      then pure tt
      else write (λ d. record d {
        authentication_grants =
            replace_grant
              (new_grant account_id (grant_origin (storage_label origin) scope) auth decision)
              grants;
      })

-- `AuthenticationGrantFilter`
pub record GrantFilter : Type 0 where
  pub id : Option Text
  pub account_id : Option Text
  pub origin : Option Text

abbrev pub require_option : Option Text → M (Unit {0})
require_option none = pure tt
require_option (some t) = require_label t

abbrev matches_field : Option Text → Text → Bool
matches_field none t = true
matches_field (some s) t = t == s

abbrev matches_origin : Option Text → Text → Bool
matches_origin none t = true
matches_origin (some label) t = any (λ s. s == label) (site_scopes t)

abbrev pub is_none {ℓ} : {A : Type ℓ} → Option A → Bool
is_none none = true
is_none (some a) = false

-- Whether a grant goes; the filter's origin is its canonical label by then.
unfoldable pub filter_matches : GrantFilter → AuthenticationGrant → Bool
filter_matches filter grant =
    matches_field filter.id grant.id
    && matches_field filter.account_id grant.account_id
    && matches_origin filter.origin grant.origin

abbrev remaining_defaults : Option Text → List (Text × Bool) → List (Text × Bool)
remaining_defaults none defaults = []
remaining_defaults (some account_id) defaults = remove account_id defaults

abbrev label_of : Option Text → Option Text
label_of none = none
label_of (some origin) = some (storage_label origin)

unfoldable pub revoke : GrantFilter → M (Unit {0})
revoke filter = do
  require_option filter.id
  require_option filter.account_id
  require_option filter.origin
  grants ← list_grants
  if is_none filter.id && is_none filter.origin
      then write (λ d. record d {
        default_backend_auth = remaining_defaults filter.account_id d.default_backend_auth;
      })
      else pure tt
  write (λ d. record d {
    authentication_grants =
        keep (λ g. not (filter_matches (record filter { origin = label_of filter.origin }) g))
          grants;
  })
