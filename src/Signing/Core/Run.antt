-- ===== src/Signing/Core/Run.antt =====
-- One request through the signer core: `#run`, cut where it has to be named, and what is around it,
-- `#handleValidated`, `#toSignerError` and `#record`. `clearance` is `#run` up to the phase `execute`.
use nostr_wot_sdk.Prelude.{
  ℕ, Bool, true, false, not, ◌&&◌, Option, none, some, [], ◌∷◌, text_eq, ◌==◌, if◌then◌else◌,
}
use nostr_wot_sdk.Permissions.Key.{Decision}
use nostr_wot_sdk.Permissions.Host.{Consent}
use nostr_wot_sdk.Permissions.Grants.{AuthenticationScope, site, connected_sites}
use nostr_wot_sdk.Signing.Queue.{no_account, permission_denied, unsupported, author_mismatch}
use nostr_wot_sdk.Signing.Requests.{
  SignerRequest, SafeAccount, ValidatedParams, sign_event, sign_pq_attestation, PreparedParams,
  plain, attestation, params_method, is_key_method, remote_pq_refusal, permission_origin,
}
use nostr_wot_sdk.Signing.Core.World.{
  M, signer, execute, AuthenticationRun, scope, grant, self, Reply, active_account, pure, throw,
  ◌>>=◌, ◌>>◌, throw_if, gets, update_context, note, call,
}
use nostr_wot_sdk.Signing.Core.Ports.{Ports, GrantsPort}
use nostr_wot_sdk.Signing.Core.Gates.{assert_still_active, open_vault}
use nostr_wot_sdk.Signing.Core.Execute.{build_attestation, execute_for}
use nostr_wot_sdk.Signing.Core.Authenticate.{
  parse_authentication_run, stored_decision, stored_denies, stored_allows, check_rule, is_denial,
  may_remember, save_authentication_grant, revalidate,
}
use nostr_wot_sdk.Signing.Core.Prompt.{
  is_unavailable, consented, set_authentication, must_ask, ask_if,
}

-- What `#run` knows once nothing stands before the key.
pub record Cleared : Type 0 where
  pub account : SafeAccount
  pub prepared : PreparedParams
  pub authentication : Option AuthenticationRun

-- The event names another author.
abbrev pub names_other : ValidatedParams → SafeAccount → Bool
names_other (sign_event event) account = elim event.pubkey [
  | none ↦ false
  | some author ↦ not (author == account.pubkey)
]
names_other params account = false

abbrev pub saved_scope : Option AuthenticationRun → Option AuthenticationScope
saved_scope none = none
saved_scope (some run) = elim run.consent [
  | some (scope site) ↦ some site
  | some (scope connected_sites) ↦ some connected_sites
  | _ ↦ none
]

module _ {E : Type 0} (p : Ports E) where
  unfoldable pub use_account : Option SafeAccount → M E SafeAccount
  use_account none = throw (signer no_account)
  use_account (some account) = do
    update_context (λ c. record c { account = some account })
    pure account

  unfoldable pub resolve_account : M E SafeAccount
  resolve_account = do
    current ← call p.active_account
    note (active_account current)
    use_account current

  -- The refusals that follow the stored deny.
  unfoldable pub refuse_unusable : SafeAccount → ValidatedParams → M E (Unit {0})
  refuse_unusable account params = do
    let needs_key = is_key_method (params_method params)
    throw_if (needs_key && not account.is_nip46 && account.read_only) unsupported
    throw_if (account.is_nip46 && not (is_unavailable (remote_pq_refusal params))) unsupported
    throw_if (needs_key && account.is_nip46 && is_unavailable p.remote) unsupported
    throw_if (names_other params account) author_mismatch

  unfoldable pub read_stored :
      Option (GrantsPort E) → SafeAccount → AuthenticationRun → M E AuthenticationRun
  read_stored none account run = pure run
  read_stored (some grants) account run = do
    stored ← stored_decision p grants account run
    set_authentication p (some (record run { stored = stored }))
    throw_if (stored_denies stored) permission_denied
    pure (record run { stored = stored })

  -- `authentication.consent` before the prompt.
  abbrev pub early_consent : AuthenticationRun → AuthenticationRun
  early_consent run =
      if run.self
      then consented run self
      else if stored_allows run.stored && may_remember p run
      then consented run grant
      else run

  unfoldable pub consult_grants :
      SafeAccount → Option AuthenticationRun → M E (Option AuthenticationRun)
  consult_grants account none = pure none
  consult_grants account (some run) = do
    with_stored ← read_stored p.grants account run
    set_authentication p (some (early_consent with_stored))
    pure (some (early_consent with_stored))

  unfoldable pub prepare_attestation : SignerRequest → SafeAccount → M E PreparedParams
  prepare_attestation request account = do
    open_vault p request.id (permission_origin request.origin) account
    assert_still_active p account
    event ← build_attestation p account
    update_context (λ c. record c { prepared = some (attestation event ∷ []) })
    pure (attestation event)

  unfoldable pub prepare : SignerRequest → ValidatedParams → SafeAccount → M E PreparedParams
  prepare request sign_pq_attestation account = prepare_attestation request account
  prepare request params account = pure (plain params)

  abbrev is_plain : PreparedParams → Bool
  is_plain (plain params) = true
  is_plain (attestation event) = false

  unfoldable pub open_for_key :
      SignerRequest → ValidatedParams → PreparedParams → SafeAccount → M E (Unit {0})
  open_for_key request params prepared account =
      if is_key_method (params_method params) && is_plain prepared
      then open_vault p request.id (permission_origin request.origin) account
      else pure tt

  unfoldable pub save_scope :
      SafeAccount → Option AuthenticationRun → Option AuthenticationScope → M E (Unit {0})
  save_scope account (some run) (some s) = save_authentication_grant p run s account Consent.allow
  save_scope account run s = pure tt

  -- The last checks, and the grant that the user chose.
  unfoldable pub confirm :
      SignerRequest → ValidatedParams → SafeAccount → Option AuthenticationRun → ℕ → M E (Unit {0})
  confirm request params account authentication revoked_before = do
    assert_still_active p account
    revalidate p request params account authentication revoked_before
    save_scope account authentication (saved_scope authentication)

  -- From the stored decision to the prompt's answer.
  unfoldable pub approve :
      SignerRequest
      → ValidatedParams
      → SafeAccount
      → Decision
      → Option AuthenticationRun
      → M E Cleared
  approve request params account decision found = do
    authentication ← consult_grants account found
    prepared ← prepare request params account
    asking ← must_ask p decision params (permission_origin request.origin) account authentication
    run ← ask_if p asking request params prepared account authentication
    pure (record { account = account; prepared = prepared; authentication = run })

  unfoldable pub authenticate :
      SignerRequest → ValidatedParams → SafeAccount → Bool → M E (Option AuthenticationRun)
  authenticate request params account own = do
    found ← parse_authentication_run p request params account own
    set_authentication p found
    pure found

  unfoldable pub admit_rule : SignerRequest → ValidatedParams → SafeAccount → M E Decision
  admit_rule request params account = do
    decision ← check_rule p (permission_origin request.origin) params account
    throw_if (is_denial decision) permission_denied
    pure decision

  unfoldable pub clearance : SignerRequest → ValidatedParams → Bool → ℕ → M E Cleared
  clearance request params own revoked_before = do
    account ← resolve_account
    decision ← admit_rule request params account
    refuse_unusable account params
    found ← authenticate request params account own
    cleared ← approve request params account decision found
    open_for_key request params cleared.prepared account
    confirm request params account cleared.authentication revoked_before
    pure cleared

  -- The signature and the checks after it.
  unfoldable pub conclude : SignerRequest → ValidatedParams → ℕ → Cleared → M E Reply
  conclude request params revoked_before cleared = do
    update_context (λ c. record c { phase = execute })
    reply ←
        execute_for p cleared.account (permission_origin request.origin) request params
          cleared.prepared
    assert_still_active p cleared.account
    revalidate p request params cleared.account cleared.authentication revoked_before
    pure reply

  -- `#run`
  unfoldable pub run : SignerRequest → ValidatedParams → Bool → M E Reply
  run request params own = do
    revoked_before ← gets (λ w. w.core.revocation_serial)
    cleared ← clearance request params own revoked_before
    conclude request params revoked_before cleared
