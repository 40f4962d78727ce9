-- ===== src/Signing/Core/Execute.antt =====
-- The part of core.ts that uses the key: `#executeFor`, `#signLocally`, `#execute`, `#executePq` and
-- `#buildAttestation`, with `withPqKeys` of pq.ts. What stands around a callback of the vault is the
-- code after the key is there.
use nostr_wot_sdk.Prelude.{
  ℕ, suc, ◌/◌, Bool, true, false, not, ◌||◌, Option, none, some, List, [], ◌∷◌, Text, text_eq,
  nat_eq, nat_beq, ◌==◌, if◌then◌else◌, ℤ, pos,
}
use nostr_wot_sdk.Permissions.Authentication.{is_space}
use nostr_wot_sdk.Signing.Queue.{remote, author_mismatch, operation_failed, unsupported}
use nostr_wot_sdk.Signing.Requests.{
  SignerRequest, SafeAccount, ValidatedParams, PreparedParams, get_public_key, get_relays,
  sign_event, nip04_encrypt, nip04_decrypt, nip44_encrypt, nip44_decrypt, classic, pq, hybrid,
  unreadable, plain, attestation, EventTemplate, needs_pq_keys, pqc_kind,
}
use nostr_wot_sdk.Signing.RemoteEvent.{
  RemoteAnswer, Verified, verified, refused, verify_remote_signed_event,
}
use nostr_wot_sdk.Signing.Core.World.{
  M, Port, Failure, signer, vault_failure, callback_failure, other, Reply, public_key, relays,
  signed, answered, pq_opened, key_used, remote_used, pure, throw, ◌>>=◌, ◌>>◌, catch, throw_if,
  gets, note, call, track,
}
use nostr_wot_sdk.Signing.Core.Ports.{Ports, KeyCall, sign, nip44_encrypt_pq, nip44_decrypt_pq}
use nostr_wot_sdk.Signing.Core.Gates.{entry_of}

-- The words of a text, between runs of white space.
unfoldable pub count_words_from : Bool → Text → ℕ
count_words_from inside [] = 0
count_words_from inside (c ∷ s) =
    let rest = count_words_from (not (is_space c)) s in
    if is_space c || inside then rest else suc rest

-- `countWords`
unfoldable pub count_words : Text → ℕ
count_words value = count_words_from false value

-- `PQ_SEED_WORD_COUNT`
abbrev pub pq_seed_word_count : ℕ
pq_seed_word_count = 24

abbrev time_or : Option ℤ → ℕ → ℤ
time_or none now = pos (now / 1000)
time_or (some t) now = t

abbrev pub is_signer_failure : Failure → Bool
is_signer_failure (signer code) = true
is_signer_failure _ = false

abbrev pub is_execute_failure : Failure → Bool
is_execute_failure vault_failure = true
is_execute_failure (callback_failure locked) = true
is_execute_failure _ = false

module _ {E : Type 0} (p : Ports E) where
  -- `throw new ExecuteFailure(error, 'callback', this.#vault.isLocked())`, but for a `SignerError`.
  unfoldable pub as_callback : {A : Type 0} → Failure → M E A
  as_callback failure = do
    locked ← gets (λ w. p.is_locked w.env)
    throw (if is_signer_failure failure then failure else callback_failure locked)

  unfoldable pub as_vault : {A : Type 0} → Failure → M E A
  as_vault failure =
      throw
        (if is_signer_failure failure || is_execute_failure failure then failure else vault_failure)

  -- The keys from a phrase, and their use.
  unfoldable pub derive : {A : Type 0} → SafeAccount → (Text → M E A) → Text → M E A
  derive account fn phrase = do
    throw_if (not (nat_beq (count_words phrase) pq_seed_word_count)) unsupported
    keys ← call (p.derive_pq_keys account phrase)
    fn keys

  unfoldable pub pick_pq_keys : {A : Type 0} → SafeAccount → (Text → M E A) → Bool → Bool → M E A
  pick_pq_keys account fn true has_mnemonic = do
    keys ← call (p.imported_pq_keys account.id)
    fn keys
  pick_pq_keys account fn false has_mnemonic = do
    throw_if (not has_mnemonic) unsupported
    phrase ← call (p.mnemonic account.id)
    derive account fn phrase

  unfoldable pub refuse_locked : Bool → M E (Unit {0})
  refuse_locked true = throw other
  refuse_locked false = pure tt

  unfoldable pub with_pq_keys : {A : Type 0} → SafeAccount → (Text → M E A) → M E A
  with_pq_keys account fn = do
    throw_if account.read_only unsupported
    locked ← gets (λ w. p.is_locked w.env)
    refuse_locked locked
    imported ← gets (λ w. p.has_imported_pq_keys w.env account.id)
    has_mnemonic ← gets (λ w. p.has_mnemonic w.env account.id)
    pick_pq_keys account fn imported has_mnemonic

  unfoldable pub attestation_event : SafeAccount → Text → M E EventTemplate
  attestation_event account keys = do
    note (pq_opened account)
    tags ← call (p.attestation_tags account.pubkey keys)
    now ← gets (λ w. p.now w.env)
    pure (record {
      kind = pqc_kind;
      content = [];
      tags = tags;
      created_at = some (pos (now / 1000));
      pubkey = none;
    })

  unfoldable pub build_attestation : SafeAccount → M E EventTemplate
  build_attestation account = catch (with_pq_keys account (attestation_event account)) as_callback

  unfoldable pub sign_template : EventTemplate → Text → M E Reply
  sign_template event key = do
    now ← gets (λ w. p.now w.env)
    call (
        p.key_call key none
          (sign event.kind event.content event.tags (time_or event.created_at now)))

  -- `#execute`
  unfoldable pub execute : PreparedParams → Text → M E Reply
  execute (attestation event) key = sign_template event key
  execute (plain (sign_event event)) key = sign_template event key
  execute (plain (nip04_encrypt pubkey plaintext)) key =
      call (p.key_call key none (KeyCall.nip04_encrypt pubkey plaintext))
  execute (plain (nip04_decrypt pubkey ciphertext)) key =
      call (p.key_call key none (KeyCall.nip04_decrypt pubkey ciphertext))
  execute (plain (nip44_encrypt pubkey plaintext classic)) key =
      call (p.key_call key none (KeyCall.nip44_encrypt pubkey plaintext))
  execute (plain (nip44_decrypt pubkey ciphertext classic)) key =
      call (p.key_call key none (KeyCall.nip44_decrypt pubkey ciphertext))
  execute (plain _) key = throw (signer unsupported)

  -- `#executePq`
  unfoldable pub execute_pq : PreparedParams → Text → Text → M E Reply
  execute_pq (plain (nip44_encrypt pubkey plaintext (pq recipient))) key keys =
      call (p.key_call key (some keys) (nip44_encrypt_pq pubkey plaintext recipient))
  execute_pq (plain (nip44_decrypt pubkey ciphertext (pq hybrid))) key keys =
      call (p.key_call key (some keys) (nip44_decrypt_pq pubkey ciphertext))
  execute_pq (plain (nip44_decrypt pubkey ciphertext (pq unreadable))) key keys =
      throw (signer operation_failed)
  execute_pq _ key keys = throw (signer unsupported)

  abbrev prepared_needs_pq : PreparedParams → Bool
  prepared_needs_pq (attestation event) = false
  prepared_needs_pq (plain params) = needs_pq_keys params

  unfoldable pub perform : SafeAccount → PreparedParams → Text → M E Reply
  perform account params key =
      if prepared_needs_pq params
      then with_pq_keys account (execute_pq params key)
      else execute params key

  -- The callback of `withPrivkey`.
  unfoldable pub with_key : SafeAccount → PreparedParams → Text → M E Reply
  with_key account params key = do
    own ← call (p.public_key key)
    throw_if (not (own == account.pubkey)) author_mismatch
    note (key_used account params)
    catch (perform account params key) as_callback

  -- `withPrivkey`: the key, its callback, and the check that the vault makes of the result.
  unfoldable pub use_key : SafeAccount → PreparedParams → M E Reply
  use_key account params = do
    key ← call (p.privkey account.id)
    reply ← with_key account params key
    call (p.privkey_after account.id)
    pure reply

  unfoldable pub sign_locally : SafeAccount → PreparedParams → M E Reply
  sign_locally account params = catch (use_key account params) as_vault

  unfoldable pub accept : Verified → M E Reply
  accept (verified event) = pure (signed event)
  accept (refused code) = throw (signer code)

  unfoldable pub checked_answer : RemoteAnswer → ValidatedParams → SafeAccount → M E Reply
  checked_answer answer (sign_event event) account =
      accept (verify_remote_signed_event p.verify_event answer event account.pubkey)
  checked_answer answer params account = pure (answered answer)

  unfoldable pub ask_remote :
      Option (SafeAccount → SignerRequest → ValidatedParams → Port E RemoteAnswer)
      → SafeAccount
      → Text
      → SignerRequest
      → ValidatedParams
      → M E Reply
  ask_remote none account origin_key request params = throw other
  ask_remote (some port) account origin_key request params = do
    now ← gets (λ w. p.now w.env)
    note (remote_used account params)
    answer ←
        track (entry_of remote request.id origin_key account.id now) (port account request params)
    checked_answer answer params account

  unfoldable pub read_relays :
      Option (SafeAccount → Port E (List (Text × (Bool × Bool)))) → SafeAccount → M E Reply
  read_relays none account = pure (relays [])
  read_relays (some port) account = do found ← call (port account); pure (relays found)

  -- `#executeFor`
  unfoldable pub execute_for :
      SafeAccount → Text → SignerRequest → ValidatedParams → PreparedParams → M E Reply
  execute_for account origin_key request get_public_key prepared = pure (public_key account.pubkey)
  execute_for account origin_key request get_relays prepared = read_relays p.get_relays account
  execute_for account origin_key request params prepared =
      if account.is_nip46
      then ask_remote p.remote account origin_key request params
      else sign_locally account prepared
