-- ===== src/Signing/Core/Gates.antt =====
-- The checks of core.ts that stand between a request and the key: the account, the vault, the cooldown,
-- the revocations, what an answer to a prompt saves, and the activity entry.
use nostr_wot_sdk.Prelude.{
  ℕ, ◌+◌, Bool, true, false, not, ◌&&◌, ◌||◌, Option, none, some, List, [], ◌∷◌, ◌++◌, Text,
  text_eq, nat_eq, ◌==◌, if◌then◌else◌, any, ltb, lookup, put, remove, show_int,
}
use nostr_wot_sdk.Permissions.Key.{Kind, undefined, null, integer}
use nostr_wot_sdk.Permissions.Host.{Consent, allow}
use nostr_wot_sdk.Permissions.Authentication.{is_authentication_kind}
use nostr_wot_sdk.Signing.Queue.{
  Code, PendingEntry, PendingKind, unlock, vault_locked, account_switched, rejected,
}
use nostr_wot_sdk.Signing.Requests.{
  SignerMethod, get_public_key, get_relays, sign_event, SafeAccount, Asked, method_name,
}
use nostr_wot_sdk.Signing.Core.{Core, Cooldown, get_public_key_cooldown_ms, is_revoked_since}
use nostr_wot_sdk.Signing.Core.World.{
  M, Port, signer, active_account, unlocked, rule_saved, pure, throw, ◌>>=◌, ◌>>◌, throw_if, gets,
  update_core, note, call, track,
}
use nostr_wot_sdk.Signing.Core.Ports.{Ports}

abbrev pub entry_of : PendingKind → Text → Text → Text → ℕ → PendingEntry
entry_of kind id origin account_id now = record {
  id = id;
  kind = kind;
  origin = origin;
  account_id = some account_id;
  queued_at = now;
}

-- `current.id !== shown.id || current.pubkey !== shown.pubkey`, or no account.
abbrev pub is_same_account : Option SafeAccount → SafeAccount → Bool
is_same_account none shown = false
is_same_account (some current) shown = current.id == shown.id && current.pubkey == shown.pubkey

abbrev pub is_unbounded : Consent → SignerMethod → Kind → Bool
is_unbounded allow sign_event (integer k) = is_authentication_kind k
is_unbounded _ _ _ = false

-- `#wouldBeUnboundedCredential`
unfoldable pub would_be_unbounded : Asked → Consent → Bool
would_be_unbounded asked decision = is_unbounded decision asked.method asked.kind

-- `outcome.rememberKind !== false && kind !== undefined ? kind : null`
unfoldable pub remembered_kind : Option Bool → Kind → Kind
remembered_kind (some false) kind = null
remembered_kind _ undefined = null
remembered_kind _ kind = kind

-- `rule` of `#rememberAll` and of `#runBatch`.
unfoldable pub rule_text : SignerMethod → Kind → Text
rule_text method (integer k) = method_name method ++ 0 ∷ show_int k
rule_text method _ = method_name method ++ 0 ∷ []

abbrev pub start_cooldown : Text → SafeAccount → ℕ → Core → Core
start_cooldown origin_key account now core = record core {
  cooldowns =
      put origin_key
        (record { expires_at = now + get_public_key_cooldown_ms; account_id = account.id })
        core.cooldowns;
}

module _ {E : Type 0} (p : Ports E) where
  -- `#assertStillActive`
  unfoldable pub assert_still_active : SafeAccount → M E (Unit {0})
  assert_still_active shown = do
    current ← call p.active_account
    note (active_account current)
    throw_if (not (is_same_account current shown)) account_switched

  -- `#stillWanted`
  unfoldable pub still_wanted : SafeAccount → Text → ℕ → M E (Option Code)
  still_wanted shown origin_key revoked_before = do
    current ← call p.active_account
    note (active_account current)
    core ← gets (λ w. w.core)
    pure (
        if not (is_same_account current shown)
        then some account_switched
        else if not (core.revocation_serial == revoked_before)
            && is_revoked_since revoked_before origin_key core.revocations
        then some rejected
        else none)

  unfoldable pub request_unlock :
      Option (Text → SafeAccount → Port E (Unit {0})) → Text → Text → SafeAccount → M E (Unit {0})
  request_unlock none id origin_key account = throw (signer vault_locked)
  request_unlock (some unlock_port) id origin_key account = do
    now ← gets (λ w. p.now w.env)
    track (entry_of unlock id origin_key account.id now) (unlock_port id account)
    note (unlocked account.id)
    locked ← gets (λ w. p.is_locked w.env)
    throw_if locked vault_locked

  unfoldable pub open_with :
      Option (Text → SafeAccount → Port E (Unit {0})) → Text → Text → SafeAccount → M E (Unit {0})
  open_with port id origin_key account = do
    locked ← gets (λ w. p.is_locked w.env)
    if locked then request_unlock port id origin_key account else pure tt

  unfoldable pub open_vault : Text → Text → SafeAccount → M E (Unit {0})
  open_vault = open_with p.request_unlock

  unfoldable pub open_vault_for_batch : Text → Text → SafeAccount → M E (Unit {0})
  open_vault_for_batch = open_with p.request_unlock_batch

  abbrev is_cooling : Cooldown → SafeAccount → ℕ → Bool
  is_cooling cooldown account now = cooldown.account_id == account.id && ltb now cooldown.expires_at

  abbrev forget_cooldown : Text → Core → Core
  forget_cooldown origin_key core = record core { cooldowns = remove origin_key core.cooldowns }

  unfoldable pub cooled : Option Cooldown → Text → SafeAccount → ℕ → M E Bool
  cooled none origin_key account now = pure true
  cooled (some cooldown) origin_key account now =
      if is_cooling cooldown account now
      then pure false
      else (update_core (forget_cooldown origin_key) >> pure true)

  -- `#needsPrompt`
  unfoldable pub needs_prompt : SignerMethod → Bool → Text → SafeAccount → M E Bool
  needs_prompt get_relays remote origin_key account = pure false
  needs_prompt get_public_key remote origin_key account = do
    now ← gets (λ w. p.now w.env)
    cooldown ← gets (λ w. lookup origin_key w.core.cooldowns)
    cooled cooldown origin_key account now
  needs_prompt method remote origin_key account = pure (not remote)

  unfoldable pub save_rule : Text → SignerMethod → Kind → Consent → SafeAccount → M E (Unit {0})
  save_rule origin_key method kind decision account = do
    call (p.save origin_key method kind decision account.id)
    note (rule_saved origin_key method kind decision account.id)

  -- `#remember`
  unfoldable pub remember : Text → Asked → Option Bool → Consent → SafeAccount → M E (Unit {0})
  remember origin_key rule remember_kind decision account =
      if would_be_unbounded rule decision
      then pure tt
      else save_rule origin_key rule.method (remembered_kind remember_kind rule.kind) decision
          account

  -- `#rememberAll`; `saved` holds the rules that are saved already.
  unfoldable pub remember_all :
      List Text → Text → List Asked → Option Bool → Consent → SafeAccount → M E (Unit {0})
  remember_all saved origin_key [] remember_kind decision account = pure tt
  remember_all saved origin_key (rule ∷ rules) remember_kind decision account =
      let kind = remembered_kind remember_kind rule.kind in
      let name = rule_text rule.method kind in
      let skip = remember_all saved origin_key rules remember_kind decision account in
      let go = remember_all (name ∷ saved) origin_key rules remember_kind decision account in
      if would_be_unbounded rule decision || any (λ r. r == name) saved
      then skip
      else (save_rule origin_key rule.method kind decision account >> go)
