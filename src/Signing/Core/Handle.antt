-- ===== src/Signing/Core/Handle.antt =====
-- What is around a run in core.ts: `#handleValidated`, `handle`, `handleSelf`, `#toSignerError` and
-- `#record`. An entry keeps the authentication run, of which the source copies five fields.
use nostr_wot_sdk.Prelude.{
  ℕ, Bool, true, false, not, Option, none, some, List, [], ◌∷◌, Text, text_eq, if◌then◌else◌, ℤ,
}
use nostr_wot_sdk.Permissions.Host.{Consent}
use nostr_wot_sdk.Permissions.Authentication.{Requester, is_authentication_kind}
use nostr_wot_sdk.Signing.Queue.{
  Code, unsupported, shutdown, internal, operation_failed, vault_locked, invalid_request,
}
use nostr_wot_sdk.Signing.Requests.{
  SignerRequest, RequestOrigin, SignerMethod, SafeAccount, ValidatedParams, sign_event,
  sign_pq_attestation, nip04_encrypt, nip04_decrypt, nip44_encrypt, nip44_decrypt, EncryptScheme,
  DecryptScheme, EventTemplate, PreparedParams, plain, attestation, params_method, pqc_kind,
}
use nostr_wot_sdk.Signing.Core.World.{
  M, Result, Failure, signer, vault_failure, callback_failure, Phase, pipeline, execute, RunContext,
  AuthenticationRun, ActivityEntry, Reply, recorded, pure, throw, ◌>>=◌, ◌>>◌, catch, throw_if,
  gets, update_context, note, call,
}
use nostr_wot_sdk.Signing.Core.Ports.{Ports}
use nostr_wot_sdk.Signing.Core.Run.{run}

abbrev is_none_declared : List (Text × Requester) → Bool
is_none_declared [] = true
is_none_declared _ = false

module _ {E : Type 0} (p : Ports E) where
  -- `#toSignerError`
  unfoldable pub to_signer_error : Failure → Phase → Bool → Code
  to_signer_error (signer code) phase locked = code
  to_signer_error vault_failure phase locked = vault_locked
  to_signer_error (callback_failure locked_at_throw) phase locked =
      if locked_at_throw then vault_locked else operation_failed
  to_signer_error failure execute locked = if locked then vault_locked else operation_failed
  to_signer_error failure pipeline locked = internal

  abbrev entry_event : PreparedParams → Option EventTemplate
  entry_event (attestation event) = some event
  entry_event (plain (sign_event event)) = some event
  entry_event (plain params) = none

  abbrev entry_kind : PreparedParams → Option ℤ
  entry_kind (attestation event) = some pqc_kind
  entry_kind (plain sign_pq_attestation) = some pqc_kind
  entry_kind (plain (sign_event event)) = some event.kind
  entry_kind (plain params) = none

  abbrev entry_pubkey : PreparedParams → Option Text
  entry_pubkey (plain (nip04_encrypt pubkey _)) = some pubkey
  entry_pubkey (plain (nip04_decrypt pubkey _)) = some pubkey
  entry_pubkey (plain (nip44_encrypt pubkey _ _)) = some pubkey
  entry_pubkey (plain (nip44_decrypt pubkey _ _)) = some pubkey
  entry_pubkey _ = none

  abbrev entry_ciphertext : PreparedParams → Option Text
  entry_ciphertext (plain (nip04_decrypt _ ciphertext)) = some ciphertext
  entry_ciphertext (plain (nip44_decrypt _ ciphertext _)) = some ciphertext
  entry_ciphertext _ = none

  abbrev entry_is_pq : PreparedParams → Option Bool
  entry_is_pq (plain (nip44_encrypt _ _ EncryptScheme.classic)) = some false
  entry_is_pq (plain (nip44_encrypt _ _ (EncryptScheme.pq _))) = some true
  entry_is_pq (plain (nip44_decrypt _ _ DecryptScheme.classic)) = some false
  entry_is_pq (plain (nip44_decrypt _ _ (DecryptScheme.pq _))) = some true
  entry_is_pq _ = none

  abbrev entry_method : PreparedParams → SignerMethod
  entry_method (plain params) = params_method params
  entry_method (attestation event) = SignerMethod.sign_pq_attestation

  abbrev account_id_of : Option SafeAccount → Option Text
  account_id_of none = none
  account_id_of (some account) = some account.id

  abbrev pubkey_of : Option SafeAccount → Option Text
  pubkey_of none = none
  pubkey_of (some account) = some account.pubkey

  -- The entry of `#record`; the plaintext of an encryption is not in it.
  unfoldable pub entry_for :
      Text
      → RequestOrigin
      → PreparedParams
      → Option Text
      → Option AuthenticationRun
      → Option SafeAccount
      → Consent
      → Option Code
      → ℕ
      → ActivityEntry
  entry_for id origin params batch_id authentication account decision code now = record {
    request_id = id;
    timestamp = now;
    origin = origin;
    method = entry_method params;
    account_id = account_id_of account;
    pubkey = pubkey_of account;
    decision = decision;
    code = code;
    batch_id = batch_id;
    authentication = authentication;
    kind = entry_kind params;
    event = entry_event params;
    their_pubkey = entry_pubkey params;
    ciphertext = entry_ciphertext params;
    is_pq = entry_is_pq params;
  }

  -- `#record`: what the activity port throws is not the request's end.
  unfoldable pub record_entry : ActivityEntry → M E (Unit {0})
  record_entry entry = do note (recorded entry); catch (call (p.activity entry)) (λ _. pure tt)

  abbrev pub first_or : Option (List PreparedParams) → ValidatedParams → PreparedParams
  first_or (some (first ∷ _)) params = first
  first_or _ params = plain params

  -- `this.#record(recorded(), context.account, ...)`
  unfoldable pub record_outcome :
      SignerRequest → ValidatedParams → Consent → Option Code → M E (Unit {0})
  record_outcome request params decision code = do
    context ← gets (λ w. w.context)
    now ← gets (λ w. p.now w.env)
    record_entry (
        entry_for request.id request.origin (first_or context.prepared params) none
          context.authentication context.account decision code now)

  unfoldable pub run_recorded : SignerRequest → ValidatedParams → Bool → M E Reply
  run_recorded request params own = do
    reply ← run p request params own
    record_outcome request params Consent.allow none
    pure reply

  -- The `catch` of `#handleValidated`.
  unfoldable pub refuse_recorded : SignerRequest → ValidatedParams → Failure → M E Reply
  refuse_recorded request params failure = do
    context ← gets (λ w. w.context)
    locked ← gets (λ w. p.is_locked w.env)
    let code = to_signer_error failure context.phase locked
    record_outcome request params Consent.deny (some code)
    throw (signer code)

  abbrev pub fresh_context : RunContext
  fresh_context = record {
    account = none;
    phase = pipeline;
    prepared = none;
    authentication = none;
  }

  -- `#handleValidated`
  unfoldable pub handle_validated : SignerRequest → ValidatedParams → Bool → M E Reply
  handle_validated request params own = do
    update_context (λ _. fresh_context)
    catch (run_recorded request params own) (refuse_recorded request params)

  unfoldable pub handle_if : Result ValidatedParams → Bool → SignerRequest → M E Reply
  handle_if (Result.ok params) own request = handle_validated request params own
  handle_if (Result.err failure) own request =
      throw (signer (to_signer_error failure pipeline false))

  -- `handle`, over what `validateRequest` of schema.ts answers.
  unfoldable pub handle : SignerRequest → Result ValidatedParams → M E Reply
  handle request validated = do
    disposed ← gets (λ w. w.core.disposed)
    throw_if disposed shutdown
    handle_if validated false request

  abbrev is_authentication_event : ValidatedParams → Bool
  is_authentication_event (sign_event event) = is_authentication_kind event.kind
  is_authentication_event params = false

  unfoldable pub handle_self_if : Result ValidatedParams → SignerRequest → M E Reply
  handle_self_if (Result.err failure) request = handle_if (Result.err failure) true request
  handle_self_if (Result.ok params) request = do
    throw_if (not (is_authentication_event params)) invalid_request
    handle_if (Result.ok params) true request

  unfoldable pub handle_self : SignerRequest → Result ValidatedParams → M E Reply
  handle_self request validated = do
    disposed ← gets (λ w. w.core.disposed)
    throw_if disposed shutdown
    throw_if (is_none_declared p.self_requesters) unsupported
    handle_self_if validated request
