-- ===== src/Signing/Core/Prompt.antt =====
-- The prompt of `#run` in core.ts: whether the user is asked, and what follows from the answer.
use nostr_wot_sdk.Prelude.{
  Bool, true, false, not, ◌&&◌, ◌||◌, Option, none, some, List, [], ◌∷◌, Text, text_eq,
  if◌then◌else◌, any,
}
use nostr_wot_sdk.Permissions.Key.{Decision, ask}
use nostr_wot_sdk.Permissions.Host.{Consent, legacy_login}
use nostr_wot_sdk.Permissions.Grants.{
  AuthenticationScope, once, site, connected_sites, unknown, protocol_beq,
}
use nostr_wot_sdk.Signing.Queue.{approval, rejected}
use nostr_wot_sdk.Signing.Requests.{
  SignerRequest, SignerMethod, get_public_key, SafeAccount, ValidatedParams, PreparedParams,
  params_method, permission_origin, permission_rule,
}
use nostr_wot_sdk.Signing.Core.World.{
  M, signer, ApprovalDecision, AuthenticationRun, RunConsent, scope, shown, pure, throw, ◌>>=◌,
  ◌>>◌, throw_if, gets, update_core, update_context, note, track,
}
use nostr_wot_sdk.Signing.Core.Ports.{Ports, ApprovalContext}
use nostr_wot_sdk.Signing.Core.Gates.{
  entry_of, assert_still_active, needs_prompt, start_cooldown, remember,
}
use nostr_wot_sdk.Signing.Core.Authenticate.{accepted_scopes, remember_authentication_deny}

abbrev pub is_ask : Decision → Bool
is_ask ask = true
is_ask _ = false

abbrev pub is_unavailable {ℓ} : {A : Type ℓ} → Option A → Bool
is_unavailable none = true
is_unavailable (some a) = false

abbrev scope_beq : AuthenticationScope → AuthenticationScope → Bool
scope_beq once once = true
scope_beq site site = true
scope_beq connected_sites connected_sites = true
scope_beq unknown unknown = true
scope_beq _ _ = false

abbrev is_offered : List AuthenticationScope → Option AuthenticationScope → Bool
is_offered scopes none = false
is_offered scopes (some s) = scope_beq s once || any (scope_beq s) scopes

abbrev pub consented : AuthenticationRun → RunConsent → AuthenticationRun
consented run consent = record run { consent = some consent }

abbrev consent_of_scope : AuthenticationRun → Option AuthenticationScope → AuthenticationRun
consent_of_scope run none = run
consent_of_scope run (some s) = consented run (scope s)

abbrev is_legacy : Option AuthenticationRun → Bool
is_legacy none = false
is_legacy (some run) = protocol_beq run.auth.protocol legacy_login

abbrev pub has_consent : Option AuthenticationRun → Bool
has_consent none = false
has_consent (some run) = elim run.consent [ none ↦ false | some _ ↦ true ]

module _ {E : Type 0} (p : Ports E) where
  unfoldable pub set_authentication : Option AuthenticationRun → M E (Unit {0})
  set_authentication run = update_context (λ c. record c { authentication = run })

  -- Whether the user is asked.
  unfoldable pub must_ask :
      Decision → ValidatedParams → Text → SafeAccount → Option AuthenticationRun → M E Bool
  must_ask decision params origin_key account (some run) = pure (not (has_consent (some run)))
  must_ask decision params origin_key account none =
      if is_ask decision
      then needs_prompt p (params_method params) account.is_nip46 origin_key account
      else pure false

  abbrev context_of : Option AuthenticationRun → Option ApprovalContext
  context_of none = none
  context_of (some run) =
      some
        (record { authentication = run.auth; requester = run.key; scopes = accepted_scopes p run })

  -- `#approval.present`, tracked, with its answer in the log.
  unfoldable pub present :
      SignerRequest → PreparedParams → SafeAccount → Option AuthenticationRun → M E ApprovalDecision
  present request prepared account authentication = do
    now ← gets (λ w. p.now w.env)
    outcome ←
        track (entry_of approval request.id (permission_origin request.origin) account.id now)
          (p.present request (prepared ∷ []) account (context_of authentication))
    note (shown (permission_origin request.origin) account (prepared ∷ []) outcome)
    pure outcome

  unfoldable pub remember_rejection :
      SignerRequest
      → ValidatedParams
      → SafeAccount
      → Option AuthenticationRun
      → ApprovalDecision
      → M E (Unit {0})
  remember_rejection request params account none outcome =
      remember p (permission_origin request.origin) (permission_rule params) outcome.remember_kind
        Consent.deny account
  remember_rejection request params account (some run) outcome =
      if is_unavailable p.grants
      then remember p (permission_origin request.origin) (permission_rule params)
          outcome.remember_kind Consent.deny account
      else remember_authentication_deny p run account

  unfoldable pub reject_run :
      SignerRequest
      → ValidatedParams
      → SafeAccount
      → Option AuthenticationRun
      → ApprovalDecision
      → M E (Option AuthenticationRun)
  reject_run request params account authentication outcome = do
    if outcome.remember && not (is_legacy authentication)
        then remember_rejection request params account authentication outcome
        else pure tt
    throw (signer rejected)

  unfoldable pub take_scope :
      Option AuthenticationRun → ApprovalDecision → M E (Option AuthenticationRun)
  take_scope none outcome = pure none
  take_scope (some run) outcome = do
    throw_if (not (is_offered (accepted_scopes p run) outcome.authentication_scope)) rejected
    set_authentication (some (consent_of_scope run outcome.authentication_scope))
    pure (some (consent_of_scope run outcome.authentication_scope))

  unfoldable pub cool_down : SignerMethod → Text → SafeAccount → M E (Unit {0})
  cool_down get_public_key origin_key account = do
    now ← gets (λ w. p.now w.env)
    update_core (start_cooldown origin_key account now)
  cool_down method origin_key account = pure tt

  unfoldable pub accept_run :
      SignerRequest
      → ValidatedParams
      → SafeAccount
      → Option AuthenticationRun
      → ApprovalDecision
      → M E (Option AuthenticationRun)
  accept_run request params account authentication outcome = do
    run ← take_scope authentication outcome
    assert_still_active p account
    if outcome.remember
        then remember p (permission_origin request.origin) (permission_rule params)
            outcome.remember_kind Consent.allow account
        else pure tt
    cool_down (params_method params) (permission_origin request.origin) account
    pure run

  unfoldable pub decide :
      SignerRequest
      → ValidatedParams
      → SafeAccount
      → Option AuthenticationRun
      → ApprovalDecision
      → M E (Option AuthenticationRun)
  decide request params account authentication outcome =
      if outcome.allow
      then accept_run request params account authentication outcome
      else reject_run request params account authentication outcome

  unfoldable pub ask_user :
      SignerRequest
      → ValidatedParams
      → PreparedParams
      → SafeAccount
      → Option AuthenticationRun
      → M E (Option AuthenticationRun)
  ask_user request params prepared account authentication = do
    outcome ← present request prepared account authentication
    decide request params account authentication outcome

  unfoldable pub ask_if :
      Bool
      → SignerRequest
      → ValidatedParams
      → PreparedParams
      → SafeAccount
      → Option AuthenticationRun
      → M E (Option AuthenticationRun)
  ask_if true request params prepared account authentication =
      ask_user request params prepared account authentication
  ask_if false request params prepared account authentication = pure authentication
