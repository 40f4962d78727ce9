-- ===== src/Signing/Core/Ports.antt =====
-- The ports of the signer core (types.ts, ports.ts) and the settled policy that its constructor keeps.
-- A port that a host may leave out is an `Option`. `grants.save` is what it does before and after the
-- check that it is handed, as authenticationGrants.ts runs it.
use nostr_wot_sdk.Prelude.{ℕ, Bool, Option, List, Text, ℤ}
use nostr_wot_sdk.Permissions.Key.{Decision, Kind}
use nostr_wot_sdk.Permissions.Host.{Consent}
use nostr_wot_sdk.Permissions.Grants.{AuthenticationRequest, AuthenticationScope}
use nostr_wot_sdk.Permissions.Authentication.{Requester}
use nostr_wot_sdk.Signing.Requests.{
  SignerRequest, SignerMethod, SafeAccount, ValidatedParams, PreparedParams,
}
use nostr_wot_sdk.Signing.RemoteEvent.{SignedEvent, RemoteAnswer}
use nostr_wot_sdk.Signing.Core.World.{Port, ApprovalDecision, ActivityEntry, Reply}

-- What the prompt is shown besides the request and the account.
pub record ApprovalContext : Type 0 where
  pub authentication : AuthenticationRequest
  pub requester : Text
  pub scopes : List AuthenticationScope

-- The calls of a `PrivateKeySigner`.
pub data KeyCall : Type 0 where
  sign : ℤ → Text → List (List Text) → ℤ → KeyCall
  nip04_encrypt nip04_decrypt nip44_encrypt nip44_decrypt : Text → Text → KeyCall
  nip44_encrypt_pq : Text → Text → Text → KeyCall
  nip44_decrypt_pq : Text → Text → KeyCall

pub record GrantsPort (E : Type 0) : Type 0 where
  pub decision_for : Text → Text → AuthenticationRequest → Port E (Option Consent)
  pub save_before :
      Text → Text → AuthenticationRequest → AuthenticationScope → Consent → Port E (Unit {0})
  pub save_after :
      Text → Text → AuthenticationRequest → AuthenticationScope → Consent → Port E (Unit {0})

pub data RequesterKind : Type 0 where
  web nip46 nip55 lan local : RequesterKind

-- Secret keys are texts here. `privkey` is what `withPrivkey` hands to its callback, and so for the
-- other keys; `privkey_after` is what the vault does once the callback has returned, where it may void
-- the result by throwing. The post-quantum keys that a call works with are an optional second text.
pub record Ports (E : Type 0) : Type 0 where
  pub now : E → ℕ
  pub is_locked : E → Bool
  pub active_account : Port E (Option SafeAccount)
  pub check : Text → SignerMethod → Kind → Text → Port E Decision
  pub save : Text → SignerMethod → Kind → Consent → Text → Port E (Unit {0})
  pub present :
      SignerRequest
      → List PreparedParams
      → SafeAccount
      → Option ApprovalContext
      → Port E ApprovalDecision
  pub present_batch : Option (Text → List PreparedParams → SafeAccount → Port E ApprovalDecision)
  pub yield_to_host : Port E (Unit {0})
  pub request_unlock : Option (Text → SafeAccount → Port E (Unit {0}))
  pub request_unlock_batch : Option (Text → SafeAccount → Port E (Unit {0}))
  pub remote : Option (SafeAccount → SignerRequest → ValidatedParams → Port E RemoteAnswer)
  pub get_relays : Option (SafeAccount → Port E (List (Text × (Bool × Bool))))
  pub activity : ActivityEntry → Port E (Unit {0})
  pub privkey : Text → Port E Text
  pub privkey_after : Text → Port E (Unit {0})
  pub public_key : Text → Port E Text
  pub key_call : Text → Option Text → KeyCall → Port E Reply
  pub has_imported_pq_keys : E → Text → Bool
  pub has_mnemonic : E → Text → Bool
  pub imported_pq_keys : Text → Port E Text
  pub mnemonic : Text → Port E Text
  pub derive_pq_keys : SafeAccount → Text → Port E Text
  pub attestation_tags : Text → Text → Port E (List (List Text))
  pub verify_event : SignedEvent → Bool
  pub grants : Option (GrantsPort E)
  pub requester_for : Option (SignerRequest → SafeAccount → Port E Requester)
  pub origin_for : Option (SignerRequest → SafeAccount → Port E Text)
  pub assert_allowed :
      Option (SignerRequest → SafeAccount → AuthenticationRequest → Port E (Unit {0}))
  pub legacy_login_origins : List Text
  pub remember_for : List RequesterKind
  pub self_requesters : List (Text × Requester)
