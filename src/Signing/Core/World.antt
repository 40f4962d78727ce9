-- ===== src/Signing/Core/World.antt =====
-- How a request of the signer core runs. An action works on the core's state, on the state `E` of
-- everything behind the ports, on the request's own context and on a log of what the ports answered; it
-- ends with a value or with what was thrown, and leaves what it wrote. A port may change the core while
-- it is awaited, so that it stands for every other call that runs meanwhile.
use nostr_wot_sdk.Prelude.{
  ℕ, Bool, true, false, Option, none, some, List, ◌∷◌, Text, ℤ, lookup, nat_eq,
}
use nostr_wot_sdk.Permissions.Key.{Decision, Kind}
use nostr_wot_sdk.Permissions.Host.{Consent}
use nostr_wot_sdk.Permissions.Grants.{AuthenticationRequest, AuthenticationScope}
use nostr_wot_sdk.Permissions.Authentication.{Named}
use nostr_wot_sdk.Signing.Queue.{
  Queue, Code, PendingEntry, PendingKind, Promise, failed, resolved, thrown, Settlement,
}
use nostr_wot_sdk.Signing.Queue
use nostr_wot_sdk.Signing.Requests.{
  RequestOrigin, SignerMethod, SafeAccount, ValidatedParams, PreparedParams, EventTemplate,
}
use nostr_wot_sdk.Signing.RemoteEvent.{SignedEvent, RemoteAnswer}
use nostr_wot_sdk.Signing.Core.{Core}

-- A `SignerError`, an `ExecuteFailure` with its source and whether the vault was locked, the grants' error
-- of the name `AuthenticationDeniedError`, or any other.
pub data Failure : Type 0 where
  signer : Code → Failure
  authentication_denied vault_failure : Failure
  callback_failure : Bool → Failure
  other : Failure

pub data Result {ℓ} (A : Type ℓ) : Type ℓ where
  ok : A → Result A
  err : Failure → Result A

pub record ApprovalDecision : Type 0 where
  pub allow : Bool
  pub authentication_scope : Option AuthenticationScope
  pub remember : Bool
  pub remember_kind : Option Bool

-- How a run came by its consent: a scope that the user chose, a stored grant, or the host itself.
pub data RunConsent : Type 0 where
  scope : AuthenticationScope → RunConsent
  grant self : RunConsent

pub record AuthenticationRun : Type 0 where
  pub requester : Named
  pub key : Text
  pub auth : AuthenticationRequest
  pub self : Bool
  pub consent : Option RunConsent
  pub stored : Option Consent

pub data Phase : Type 0 where
  pipeline execute : Phase

pub record RunContext : Type 0 where
  pub account : Option SafeAccount
  pub phase : Phase
  pub prepared : Option (List PreparedParams)
  pub authentication : Option AuthenticationRun

pub record ActivityEntry : Type 0 where
  pub request_id : Text
  pub timestamp : ℕ
  pub origin : RequestOrigin
  pub method : SignerMethod
  pub account_id : Option Text
  pub pubkey : Option Text
  pub decision : Consent
  pub code : Option Code
  pub batch_id : Option Text
  pub authentication : Option AuthenticationRun
  pub kind : Option ℤ
  pub event : Option EventTemplate
  pub their_pubkey : Option Text
  pub ciphertext : Option Text
  pub is_pq : Option Bool

-- What the log keeps, the last first.
pub data Event : Type 0 where
  active_account : Option SafeAccount → Event
  checked : Text → SignerMethod → Kind → Text → Decision → Event
  shown : Text → SafeAccount → List PreparedParams → ApprovalDecision → Event
  unlocked : Text → Event
  grant_read : Text → Text → Option Consent → Event
  grant_saved : Text → Text → AuthenticationScope → Consent → Event
  rule_saved : Text → SignerMethod → Kind → Consent → Text → Event
  pq_opened : SafeAccount → Event
  key_used : SafeAccount → PreparedParams → Event
  remote_used : SafeAccount → ValidatedParams → Event
  recorded : ActivityEntry → Event

-- What a request resolves with.
pub data Reply : Type 0 where
  public_key : Text → Reply
  relays : List (Text × (Bool × Bool)) → Reply
  signed : SignedEvent → Reply
  message : Text → Reply
  answered : RemoteAnswer → Reply

pub record World (E : Type 0) : Type 0 where
  pub core : Core
  pub env : E
  pub context : RunContext
  pub log : List Event

abbrev pub M : Type 0 → Type 0 → Type 0
M E A = World E → Result A × World E

-- What the host does, on its state and on the core's.
abbrev pub Port : Type 0 → Type 0 → Type 0
Port E A = Core → E → Result A × (Core × E)

-- How a promise that the queue ended already reads, and how it ends otherwise.
abbrev end_of : {A : Type 0} → Option Settlement → Result A → Result A
end_of (some (failed code)) r = err (signer code)
end_of _ r = r

abbrev settlement_of : Option Promise → Option Settlement
settlement_of none = none
settlement_of (some p) = p.settlement

abbrev settlement_by : {A : Type 0} → Result A → Settlement
settlement_by (ok a) = resolved
settlement_by (err e) = thrown

module _ {E : Type 0} where
  unfoldable pub pure : {A : Type 0} → A → M E A
  pure a w = (ok a, w)

  unfoldable pub throw : {A : Type 0} → Failure → M E A
  throw f w = (err f, w)

  abbrev pub continue : {A B : Type 0} → Result A → (A → M E B) → M E B
  continue (ok a) f w = f a w
  continue (err e) f w = (err e, w)

  infixl 10 ◌>>=◌ ◌>>◌
  unfoldable pub ◌>>=◌ : {A B : Type 0} → M E A → (A → M E B) → M E B
  ◌>>=◌ m f w = let (r, next) = m w in continue r f next

  abbrev pub ◌>>◌ : {B : Type 0} → M E (Unit {0}) → M E B → M E B
  m >> n = m >>= λ _. n

  abbrev pub recover : {A : Type 0} → Result A → (Failure → M E A) → M E A
  recover (ok a) handler w = (ok a, w)
  recover (err e) handler w = handler e w

  -- `try` with `catch`
  unfoldable pub catch : {A : Type 0} → M E A → (Failure → M E A) → M E A
  catch m handler w = let (r, next) = m w in recover r handler next

  unfoldable pub throw_if : Bool → Code → M E (Unit {0})
  throw_if true code w = (err (signer code), w)
  throw_if false code w = (ok tt, w)

  -- What the core reads without an await.
  unfoldable pub gets : {A : Type 0} → (World E → A) → M E A
  gets f w = (ok (f w), w)

  unfoldable pub update_core : (Core → Core) → M E (Unit {0})
  update_core f w = (ok tt, record w { core = f w.core })

  unfoldable pub update_context : (RunContext → RunContext) → M E (Unit {0})
  update_context f w = (ok tt, record w { context = f w.context })

  unfoldable pub note : Event → M E (Unit {0})
  note e w = (ok tt, record w { log = e ∷ w.log })

  -- A port that is awaited.
  unfoldable pub call : {A : Type 0} → Port E A → M E A
  call port w = let (r, (core, env)) = port w.core w.env in (r, record w { core = core; env = env })

  unfoldable pub finish : {A : Type 0} → ℕ → Result A → M E A
  finish ticket r w = (
    end_of (settlement_of (lookup ticket w.core.queue.promises)) r,
    record w {
      core = record w.core { queue = Queue.settle w.core.queue ticket (settlement_by r) };
    },
  )

  unfoldable pub run_tracked : {A : Type 0} → ℕ → Port E A → M E A
  run_tracked ticket port w =
      let (r, (core, env)) = port w.core w.env in
      finish ticket r (record w { core = core; env = env })

  -- `ApprovalQueue.track`: a refusal is thrown, and the work runs under a ticket otherwise.
  unfoldable pub track : {A : Type 0} → PendingEntry → Port E A → M E A
  track entry port w = elim (Queue.refusal w.core.queue entry) [
    | some code ↦ (err (signer code), w)
    | none ↦
        run_tracked w.core.queue.issued port
          (record w { core = record w.core { queue = Queue.admit w.core.queue entry } })
  ]
