-- ===== src/Signing/Core/Authenticate.antt =====
-- The authentication part of core.ts: who asks, what the event asks for, and its check before and after
-- the signature.
use nostr_wot_sdk.Prelude.{
  ℕ, ◌/◌, Bool, true, false, not, ◌&&◌, Option, none, some, List, [], ◌∷◌, Text, text_eq, ◌==◌,
  if◌then◌else◌, any, lookup,
}
use nostr_wot_sdk.Permissions.Key.{Decision, deny}
use nostr_wot_sdk.Permissions.Host.{Consent, nip42}
use nostr_wot_sdk.Permissions.Grants.{
  AuthenticationRequest, AuthenticationScope, once, site, connected_sites,
  valid_authentication_scope, protocol_beq,
}
use nostr_wot_sdk.Permissions.Authentication.{
  Requester, Named, origin_string, requester, AuthenticationEvent, Parsed, parsed, invalid,
  not_authentication, parse_authentication, authentication_key, authentication_requester_key,
  is_authentication_kind,
}
use nostr_wot_sdk.Signing.Queue.{
  Code, invalid_request, permission_denied, rejected, shutdown, vault_locked, account_switched,
  internal,
}
use nostr_wot_sdk.Signing.Requests.{
  SignerRequest, OriginKind, SafeAccount, ValidatedParams, sign_event, EventTemplate,
  permission_origin, permission_rule,
}
use nostr_wot_sdk.Signing.Core.World.{
  M, Port, Failure, signer, authentication_denied, AuthenticationRun, RunConsent, grant, checked,
  grant_read, grant_saved, pure, throw, ◌>>=◌, ◌>>◌, catch, throw_if, gets, note, call,
}
use nostr_wot_sdk.Signing.Core.Ports.{Ports, GrantsPort, RequesterKind}
use nostr_wot_sdk.Signing.Core.Gates.{assert_still_active, still_wanted}

abbrev authentication_event : EventTemplate → AuthenticationEvent
authentication_event event = record {
  kind = event.kind;
  content = event.content;
  created_at = event.created_at;
  tags = event.tags;
}

-- Whom the host names: the key of a record is computed, a text is its own key.
pub record Resolved : Type 0 where
  pub requester : Named
  pub key : Text

abbrev is_key : Text → Text × Requester → Bool
is_key key entry = entry.0 == key

abbrev pub is_own_requester : List (Text × Requester) → Text → Bool
is_own_requester own key = any (is_key key) own

abbrev web_identifier : OriginKind → Text → Text
web_identifier OriginKind.web identifier = identifier
web_identifier _ identifier = []

abbrev requester_kind : Named → RequesterKind
requester_kind (origin_string t) = RequesterKind.web
requester_kind (requester (Requester.web t)) = RequesterKind.web
requester_kind (requester (Requester.nip46 t)) = RequesterKind.nip46
requester_kind (requester (Requester.nip55 t)) = RequesterKind.nip55
requester_kind (requester (Requester.lan t)) = RequesterKind.lan
requester_kind (requester (Requester.local t)) = RequesterKind.local

abbrev kind_beq : RequesterKind → RequesterKind → Bool
kind_beq RequesterKind.web RequesterKind.web = true
kind_beq RequesterKind.nip46 RequesterKind.nip46 = true
kind_beq RequesterKind.nip55 RequesterKind.nip55 = true
kind_beq RequesterKind.lan RequesterKind.lan = true
kind_beq RequesterKind.local RequesterKind.local = true
kind_beq _ _ = false

abbrev is_present {ℓ} : {A : Type ℓ} → Option A → Bool
is_present none = false
is_present (some a) = true

abbrev pub stored_denies : Option Consent → Bool
stored_denies (some Consent.deny) = true
stored_denies _ = false

abbrev pub stored_allows : Option Consent → Bool
stored_allows (some Consent.allow) = true
stored_allows _ = false

abbrev is_grant : Option RunConsent → Bool
is_grant (some grant) = true
is_grant _ = false

abbrev pub is_denial : Decision → Bool
is_denial deny = true
is_denial _ = false

-- The end of `#validateAuthenticationEvent`.
unfoldable pub accepted : {E : Type 0} → Parsed → M E AuthenticationRequest
accepted (parsed auth) w = pure auth w
accepted not_authentication w = throw (signer invalid_request) w
accepted invalid w = throw (signer invalid_request) w

module _ {E : Type 0} (p : Ports E) where
  unfoldable pub validate_authentication_event : EventTemplate → Named → M E AuthenticationRequest
  validate_authentication_event event named = do
    now ← gets (λ w. p.now w.env)
    accepted (
        parse_authentication (authentication_event event) named (now / 1000) p.legacy_login_origins)

  -- The key of a requester that the host named by a record.
  unfoldable pub key_of : Requester → M E Resolved
  key_of r = elim (authentication_requester_key r) [
    | none ↦ throw (signer invalid_request)
    | some key ↦ pure (record { requester = requester r; key = key })
  ]

  unfoldable pub by_origin_for :
      Option (SignerRequest → SafeAccount → Port E Text)
      → SignerRequest
      → SafeAccount
      → M E Resolved
  by_origin_for none request account =
      let identifier = web_identifier request.origin.kind request.origin.identifier in
      pure (record { requester = origin_string identifier; key = identifier })
  by_origin_for (some port) request account = do
    origin ← call (port request account)
    pure (record { requester = origin_string origin; key = origin })

  unfoldable pub by_requester_for :
      Option (SignerRequest → SafeAccount → Port E Requester)
      → SignerRequest
      → SafeAccount
      → M E Resolved
  by_requester_for none request account = by_origin_for p.origin_for request account
  by_requester_for (some port) request account = do r ← call (port request account); key_of r

  unfoldable pub resolve_self : Text → M E Resolved
  resolve_self origin_key = elim (lookup origin_key p.self_requesters) [
    | none ↦ throw (signer permission_denied)
    | some declared ↦ pure (record { requester = requester declared; key = origin_key })
  ]

  unfoldable pub resolve_other : SignerRequest → SafeAccount → M E Resolved
  resolve_other request account = do
    throw_if (is_own_requester p.self_requesters (permission_origin request.origin))
        permission_denied
    resolved ← by_requester_for p.requester_for request account
    throw_if (is_own_requester p.self_requesters resolved.key) permission_denied
    pure resolved

  -- `#resolveRequester`
  unfoldable pub resolve_requester : SignerRequest → SafeAccount → Bool → M E Resolved
  resolve_requester request account true = resolve_self (permission_origin request.origin)
  resolve_requester request account false = resolve_other request account

  unfoldable pub assert_allowed :
      Option (SignerRequest → SafeAccount → AuthenticationRequest → Port E (Unit {0}))
      → SignerRequest
      → SafeAccount
      → AuthenticationRequest
      → M E (Unit {0})
  assert_allowed none request account auth = pure tt
  assert_allowed (some port) request account auth = call (port request account auth)

  unfoldable pub parse_event :
      SignerRequest → EventTemplate → SafeAccount → Bool → M E (Option AuthenticationRun)
  parse_event request event account own = do
    resolved ← resolve_requester request account own
    auth ← validate_authentication_event event resolved.requester
    throw_if (own && not (protocol_beq auth.protocol nip42)) permission_denied
    assert_allowed p.assert_allowed request account auth
    pure (
        some (record {
          requester = resolved.requester;
          key = resolved.key;
          auth = auth;
          self = own;
          consent = none;
          stored = none;
        }))

  -- `#parseAuthentication`
  unfoldable pub parse_authentication_run :
      SignerRequest → ValidatedParams → SafeAccount → Bool → M E (Option AuthenticationRun)
  parse_authentication_run request (sign_event event) account own =
      if is_authentication_kind event.kind then parse_event request event account own else pure none
  parse_authentication_run request params account own = pure none

  -- `grants.decisionFor`, with its answer in the log.
  unfoldable pub stored_decision :
      GrantsPort E → SafeAccount → AuthenticationRun → M E (Option Consent)
  stored_decision grants account run = do
    stored ← call (grants.decision_for account.id run.key run.auth)
    note (grant_read account.id run.key stored)
    pure stored

  -- `this.#permissions.check`, with its answer in the log.
  unfoldable pub check_rule : Text → ValidatedParams → SafeAccount → M E Decision
  check_rule origin_key params account = do
    let rule = permission_rule params
    decision ← call (p.check origin_key rule.method rule.kind account.id)
    note (checked origin_key rule.method rule.kind account.id decision)
    pure decision

  unfoldable pub recheck_grant :
      Option (GrantsPort E) → SafeAccount → AuthenticationRun → M E (Unit {0})
  recheck_grant none account prior = pure tt
  recheck_grant (some grants) account prior = do
    stored ← stored_decision grants account prior
    throw_if (stored_denies stored) permission_denied
    throw_if (is_grant prior.consent && not (stored_allows stored)) permission_denied

  abbrev is_same_context : Option AuthenticationRun → AuthenticationRun → Bool
  is_same_context none prior = false
  is_same_context (some current) prior =
      current.key == prior.key && authentication_key current.auth == authentication_key prior.auth

  unfoldable pub throw_some : Option Code → M E (Unit {0})
  throw_some none = pure tt
  throw_some (some code) = throw (signer code)

  unfoldable pub revalidate_event : ValidatedParams → AuthenticationRun → M E (Unit {0})
  revalidate_event (sign_event event) prior =
      validate_authentication_event event prior.requester >>= λ _. pure tt
  revalidate_event params prior = pure tt

  unfoldable pub revalidate_run :
      SignerRequest → ValidatedParams → SafeAccount → AuthenticationRun → ℕ → M E (Unit {0})
  revalidate_run request params account prior revoked_before = do
    disposed ← gets (λ w. w.core.disposed)
    throw_if disposed shutdown
    current ← parse_authentication_run request params account prior.self
    throw_if (not (is_same_context current prior)) rejected
    decision ← check_rule (permission_origin request.origin) params account
    throw_if (is_denial decision) permission_denied
    revoked ← still_wanted p account (permission_origin request.origin) revoked_before
    throw_some revoked
    disposed_now ← gets (λ w. w.core.disposed)
    throw_if disposed_now shutdown
    locked ← gets (λ w. p.is_locked w.env)
    throw_if locked vault_locked
    recheck_grant p.grants account prior
    revalidate_event params prior

  -- `#revalidateAuthentication`
  unfoldable pub revalidate :
      SignerRequest → ValidatedParams → SafeAccount → Option AuthenticationRun → ℕ → M E (Unit {0})
  revalidate request params account none revoked_before = pure tt
  revalidate request params account (some prior) revoked_before =
      revalidate_run request params account prior revoked_before

  -- `#mayRemember`
  unfoldable pub may_remember : AuthenticationRun → Bool
  may_remember run =
      is_present p.grants && any (kind_beq (requester_kind run.requester)) p.remember_for

  abbrev offered :
      AuthenticationRun → AuthenticationScope → List AuthenticationScope → List AuthenticationScope
  offered run s rest = if valid_authentication_scope run.auth.protocol s then s ∷ rest else rest

  -- `#acceptedScopes`
  unfoldable pub accepted_scopes : AuthenticationRun → List AuthenticationScope
  accepted_scopes run =
      once ∷ (if may_remember run then offered run site (offered run connected_sites []) else [])

  unfoldable pub save_with :
      GrantsPort E
      → AuthenticationRun
      → AuthenticationScope
      → SafeAccount
      → Consent
      → M E (Unit {0})
  save_with grants run s account decision = do
    call (grants.save_before account.id run.key run.auth s decision)
    assert_still_active p account
    call (grants.save_after account.id run.key run.auth s decision)
    note (grant_saved account.id run.key s decision)

  unfoldable pub unsaved : Failure → M E (Unit {0})
  unsaved (signer code) = throw (signer code)
  unsaved authentication_denied = throw (signer permission_denied)
  unsaved failure = throw (signer internal)

  unfoldable pub save_if_any :
      Option (GrantsPort E)
      → AuthenticationRun
      → AuthenticationScope
      → SafeAccount
      → Consent
      → M E (Unit {0})
  save_if_any none run s account decision = throw (signer internal)
  save_if_any (some grants) run s account decision =
      catch (save_with grants run s account decision) unsaved

  -- `#saveAuthenticationGrant`
  unfoldable pub save_authentication_grant :
      AuthenticationRun → AuthenticationScope → SafeAccount → Consent → M E (Unit {0})
  save_authentication_grant = save_if_any p.grants

  unfoldable pub unremembered : Failure → M E (Unit {0})
  unremembered (signer account_switched) = throw (signer account_switched)
  unremembered failure = throw (signer rejected)

  -- `#rememberAuthenticationDeny`
  unfoldable pub remember_authentication_deny : AuthenticationRun → SafeAccount → M E (Unit {0})
  remember_authentication_deny run account =
      catch (save_authentication_grant run site account Consent.deny) unremembered
