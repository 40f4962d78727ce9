-- ===== src/Signing/Core/Batch.antt =====
-- Batches of core.ts: `#runBatch` and `handleBatch`, over what `validateBatchRequest` of schema.ts
-- answers. The items of a batch that is stopped share one refusal. `yieldToHost` gives other calls a
-- turn, so it is a port.
pub mod Rereads
pub mod Items
mod Examples
use nostr_wot_sdk.Prelude.{
  ℕ, zero, suc, Bool, true, false, not, ◌&&◌, ◌||◌, Option, none, some, List, [], ◌∷◌, ◌++◌, Text,
  text_eq, ◌==◌, if◌then◌else◌, any,
}
use nostr_wot_sdk.Permissions.Key.{Decision}
use nostr_wot_sdk.Permissions.Host.{Consent, allow, deny}
use nostr_wot_sdk.Permissions.Authentication.{is_authentication_kind}
use nostr_wot_sdk.Signing.Queue.{
  Code, approval, permission_denied, unsupported, author_mismatch, rejected, shutdown,
}
use nostr_wot_sdk.Signing.Requests.{
  RequestOrigin, SafeAccount, ValidatedParams, sign_event, sign_pq_attestation, PreparedParams,
  plain, attestation, Asked, permission_origin, permission_rule,
}
use nostr_wot_sdk.Signing.Core.World.{
  World, M, Port, Event, Result, Failure, signer, pipeline, execute, RunContext, ApprovalDecision,
  Reply, shown, pure, throw, ◌>>=◌, ◌>>◌, catch, throw_if, gets, update_context, note, call, track,
}
use nostr_wot_sdk.Signing.Core.Ports.{Ports}
use nostr_wot_sdk.Signing.Core.Gates.{
  entry_of, assert_still_active, still_wanted, open_vault_for_batch, remember_all, rule_text,
}
use nostr_wot_sdk.Signing.Core.Execute.{build_attestation, sign_locally}
use nostr_wot_sdk.Signing.Core.Authenticate.{check_rule, is_denial}
use nostr_wot_sdk.Signing.Core.Prompt.{is_ask}
use nostr_wot_sdk.Signing.Core.Run.{names_other, resolve_account}
use nostr_wot_sdk.Signing.Core.Handle.{entry_for, record_entry, to_signer_error, fresh_context}

pub record BatchItem : Type 0 where
  pub id : Text
  pub params : ValidatedParams

pub record BatchRequest : Type 0 where
  pub id : Text
  pub origin : RequestOrigin
  pub items : List BatchItem

-- How one item ended: its reply, or the code of its refusal.
pub data Outcome : Type 0 where
  signed : Reply → Outcome
  refused : Code → Outcome

pub record ItemRun : Type 0 where
  pub id : Text
  pub params : PreparedParams
  pub outcome : Outcome

abbrev is_authentication : ValidatedParams → Bool
is_authentication (sign_event event) = is_authentication_kind event.kind
is_authentication params = false

abbrev is_attestation : ValidatedParams → Bool
is_attestation sign_pq_attestation = true
is_attestation params = false

abbrev is_unstopped : Option Code → Bool
is_unstopped none = true
is_unstopped (some code) = false

abbrev asked_if : Bool → Asked → List Asked → List Asked
asked_if true rule rules = rule ∷ rules
asked_if false rule rules = rules

abbrev pub is_empty_list {ℓ} : {A : Type ℓ} → List A → Bool
is_empty_list [] = true
is_empty_list (x ∷ xs) = false

module _ {E : Type 0} (p : Ports E) where
  -- The rules that an item consults, each once, and those that ask.
  unfoldable pub consult_rules : Text → SafeAccount → List Text → List BatchItem → M E (List Asked)
  consult_rules origin_key account consulted [] = pure []
  consult_rules origin_key account consulted (item ∷ items) =
      let rule = permission_rule item.params in
      let name = rule_text rule.method rule.kind in
      let skip = consult_rules origin_key account consulted items in
      let go = consult_rules origin_key account (name ∷ consulted) items in
      if any (λ r. r == name) consulted then skip else (do
        decision ← check_rule p origin_key item.params account
        throw_if (is_denial decision) permission_denied
        rest ← go
        pure (asked_if (is_ask decision) rule rest))

  unfoldable pub refuse_batch : SafeAccount → List BatchItem → M E (Unit {0})
  refuse_batch account items = do
    throw_if (any (λ item. is_authentication item.params) items) unsupported
    throw_if account.is_nip46 unsupported
    throw_if account.read_only unsupported
    throw_if (any (λ item. names_other item.params account) items) author_mismatch

  unfoldable pub open_for_attestations : BatchRequest → SafeAccount → M E (Unit {0})
  open_for_attestations batch account =
      if any (λ item. is_attestation item.params) batch.items
      then (do
        open_vault_for_batch p batch.id (permission_origin batch.origin) account
        assert_still_active p account)
      else pure tt

  unfoldable pub yield_to_host : Bool → M E (Unit {0})
  yield_to_host true = call p.yield_to_host
  yield_to_host false = pure tt

  unfoldable pub prepare_item :
      SafeAccount → List PreparedParams → ValidatedParams → M E PreparedParams
  prepare_item account prepared sign_pq_attestation = do
    yield_to_host (not (is_empty_list prepared))
    event ← build_attestation p account
    pure (attestation event)
  prepare_item account prepared params = pure (plain params)

  -- The context's list is filled as the items are prepared.
  unfoldable pub prepare_items :
      SafeAccount → List PreparedParams → List BatchItem → M E (List PreparedParams)
  prepare_items account prepared [] = pure prepared
  prepare_items account prepared (item ∷ items) = do
    params ← prepare_item account prepared item.params
    update_context (λ c. record c { prepared = some (prepared ++ params ∷ []) })
    prepare_items account (prepared ++ params ∷ []) items

  unfoldable pub present_batch :
      Option (Text → List PreparedParams → SafeAccount → Port E ApprovalDecision)
      → BatchRequest
      → SafeAccount
      → List PreparedParams
      → M E ApprovalDecision
  present_batch none batch account prepared = throw (signer unsupported)
  present_batch (some port) batch account prepared = do
    now ← gets (λ w. p.now w.env)
    outcome ←
        track (entry_of approval batch.id (permission_origin batch.origin) account.id now)
          (port batch.id prepared account)
    note (shown (permission_origin batch.origin) account prepared outcome)
    pure outcome

  unfoldable pub remember_batch :
      BatchRequest → SafeAccount → List Asked → ApprovalDecision → Consent → M E (Unit {0})
  remember_batch batch account asked outcome decision =
      if outcome.remember
      then remember_all p [] (permission_origin batch.origin) asked outcome.remember_kind decision
          account
      else pure tt

  unfoldable pub decide_batch :
      BatchRequest → SafeAccount → List Asked → ApprovalDecision → M E (Unit {0})
  decide_batch batch account asked outcome =
      if outcome.allow
      then (do assert_still_active p account; remember_batch batch account asked outcome allow)
      else (do remember_batch batch account asked outcome deny; throw (signer rejected))

  unfoldable pub ask_batch :
      BatchRequest → SafeAccount → List PreparedParams → List Asked → M E (Unit {0})
  ask_batch batch account prepared [] = pure tt
  ask_batch batch account prepared (rule ∷ rules) = do
    outcome ← present_batch p.present_batch batch account prepared
    decide_batch batch account (rule ∷ rules) outcome

  -- `#runBatch` up to the phase `execute`.
  unfoldable pub clear_batch : BatchRequest → M E (SafeAccount × List PreparedParams)
  clear_batch batch = do
    account ← resolve_account p
    asked ← consult_rules (permission_origin batch.origin) account [] batch.items
    refuse_batch account batch.items
    open_for_attestations batch account
    update_context (λ c. record c { prepared = some [] })
    prepared ← prepare_items account [] batch.items
    ask_batch batch account prepared asked
    open_vault_for_batch p batch.id (permission_origin batch.origin) account
    assert_still_active p account
    pure (account, prepared)

  -- Whether the next item is still wanted; the first one always is.
  unfoldable pub stop_before : Bool → SafeAccount → Text → ℕ → M E (Option Code)
  stop_before true account origin_key revoked_before = pure none
  stop_before false account origin_key revoked_before = do
    stopped ← still_wanted p account origin_key revoked_before
    yield_to_host (is_unstopped stopped)
    pure stopped

  unfoldable pub signed_item : SafeAccount → BatchItem → PreparedParams → M E ItemRun
  signed_item account item params = do
    reply ← sign_locally p account params
    pure (record { id = item.id; params = params; outcome = signed reply })

  unfoldable pub failed_item : BatchItem → PreparedParams → Failure → M E ItemRun
  failed_item item params failure = do
    locked ← gets (λ w. p.is_locked w.env)
    pure (record {
      id = item.id;
      params = params;
      outcome = refused (to_signer_error p failure execute locked);
    })

  -- One item's signature, with an error as its outcome.
  unfoldable pub sign_item : SafeAccount → BatchItem → PreparedParams → M E ItemRun
  sign_item account item params = catch (signed_item account item params) (failed_item item params)

  -- The items after a stop.
  unfoldable pub refuse_items : Code → List BatchItem → List PreparedParams → List ItemRun
  refuse_items code (item ∷ items) (params ∷ prepared) =
      record { id = item.id; params = params; outcome = refused code }
      ∷ refuse_items code items prepared
  refuse_items code _ _ = []

  unfoldable pub sign_unless :
      Option Code
      → SafeAccount
      → BatchItem
      → PreparedParams
      → List ItemRun
      → M E (List ItemRun)
      → M E (List ItemRun)
  sign_unless (some code) account item params refusals rest =
      pure (record { id = item.id; params = params; outcome = refused code } ∷ refusals)
  sign_unless none account item params refusals rest = do
    run ← sign_item account item params
    runs ← rest
    pure (run ∷ runs)

  abbrev pub refusals_of : Option Code → List BatchItem → List PreparedParams → List ItemRun
  refusals_of none items prepared = []
  refusals_of (some code) items prepared = refuse_items code items prepared

  -- The loop over the items; the flag says whether this is the first.
  unfoldable pub sign_items :
      Bool → SafeAccount → Text → ℕ → List BatchItem → List PreparedParams → M E (List ItemRun)
  sign_items first account origin_key revoked_before (item ∷ items) (params ∷ prepared) = do
    stopped ← stop_before first account origin_key revoked_before
    sign_unless stopped account item params (refusals_of stopped items prepared)
        (sign_items false account origin_key revoked_before items prepared)
  sign_items first account origin_key revoked_before _ _ = pure []

  -- `#runBatch`
  unfoldable pub run_batch : BatchRequest → M E (List ItemRun)
  run_batch batch = do
    cleared ← clear_batch batch
    update_context (λ c. record c { phase = execute })
    revoked_before ← gets (λ w. w.core.revocation_serial)
    sign_items true cleared.0 (permission_origin batch.origin) revoked_before batch.items cleared.1

  unfoldable pub record_item :
      BatchRequest → Text → PreparedParams → Consent → Option Code → M E (Unit {0})
  record_item batch id params decision code = do
    context ← gets (λ w. w.context)
    now ← gets (λ w. p.now w.env)
    record_entry p
        (entry_for p id batch.origin params (some batch.id) none context.account decision code now)

  abbrev decision_of : Outcome → Consent
  decision_of (signed reply) = allow
  decision_of (refused code) = deny

  abbrev code_of : Outcome → Option Code
  code_of (signed reply) = none
  code_of (refused code) = some code

  unfoldable pub record_runs : BatchRequest → List ItemRun → M E (Unit {0})
  record_runs batch [] = pure tt
  record_runs batch (run ∷ runs) = do
    record_item batch run.id run.params (decision_of run.outcome) (code_of run.outcome)
    record_runs batch runs

  unfoldable pub run_recorded_batch : BatchRequest → M E (List ItemRun)
  run_recorded_batch batch = do runs ← run_batch batch; record_runs batch runs; pure runs

  -- `context.prepared?.[index] ?? items[index].params`, item by item.
  unfoldable pub record_refusals :
      BatchRequest → List BatchItem → List PreparedParams → Code → M E (Unit {0})
  record_refusals batch [] prepared code = pure tt
  record_refusals batch (item ∷ items) [] code = do
    record_item batch item.id (plain item.params) deny (some code)
    record_refusals batch items [] code
  record_refusals batch (item ∷ items) (params ∷ prepared) code = do
    record_item batch item.id params deny (some code)
    record_refusals batch items prepared code

  abbrev prepared_or_none : Option (List PreparedParams) → List PreparedParams
  prepared_or_none none = []
  prepared_or_none (some prepared) = prepared

  unfoldable pub refuse_whole : BatchRequest → Failure → M E (List ItemRun)
  refuse_whole batch failure = do
    context ← gets (λ w. w.context)
    locked ← gets (λ w. p.is_locked w.env)
    record_refusals batch batch.items (prepared_or_none context.prepared)
        (to_signer_error p failure context.phase locked)
    throw (signer (to_signer_error p failure context.phase locked))

  unfoldable pub handle_validated_batch : BatchRequest → M E (List ItemRun)
  handle_validated_batch batch = do
    update_context (λ _. fresh_context p)
    catch (run_recorded_batch batch) (refuse_whole batch)

  unfoldable pub handle_batch_if : Result BatchRequest → M E (List ItemRun)
  handle_batch_if (Result.ok batch) = handle_validated_batch batch
  handle_batch_if (Result.err failure) = throw (signer (to_signer_error p failure pipeline false))

  -- `handleBatch`, over what `validateBatchRequest` of schema.ts answers.
  unfoldable pub handle_batch : Result BatchRequest → M E (List ItemRun)
  handle_batch validated = do
    disposed ← gets (λ w. w.core.disposed)
    throw_if disposed shutdown
    handle_batch_if validated
