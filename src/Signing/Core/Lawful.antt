-- ===== src/Signing/Core/Lawful.antt =====
-- What the log of a request must say below a use of the key in core.ts.
pub mod Confirms
pub mod Approves
pub mod Clearance
pub mod Use
use nostr_wot_sdk.Prelude.{
  ◌≡◌, refl, ◌⊎◌, inl, inr, Bool, true, false, Option, none, some, List, [], ◌∷◌, Text,
}
use nostr_wot_sdk.Permissions.Key.{Decision}
use nostr_wot_sdk.Permissions.Host.{Consent}
use nostr_wot_sdk.Permissions.Authentication.{is_authentication_kind}
use nostr_wot_sdk.Signing.Requests.{
  SignerRequest, SafeAccount, ValidatedParams, sign_event, sign_pq_attestation, EventTemplate,
  PreparedParams, plain, attestation, params_method, is_key_method, permission_origin,
  permission_rule,
}
use nostr_wot_sdk.Signing.Core.World.{
  Event, ApprovalDecision, active_account, checked, shown, unlocked, grant_read, grant_saved,
  rule_saved, pq_opened, key_used, remote_used, recorded,
}
use nostr_wot_sdk.Signing.Core.Gates.{is_same_account}
use nostr_wot_sdk.Signing.Core.Authenticate.{is_denial}
use nostr_wot_sdk.Signing.Core.Prompt.{is_ask}
use nostr_wot_sdk.Signing.Core.Run.{names_other}
use nostr_wot_sdk.Signing.Core.Quiet.{Stable, is_use}

abbrev pub Noted : Event → List Event → Type 0
Noted e [] = ⊥
Noted e (x ∷ log) = (e ≡ x) ⊎ Noted e log

-- The last answer on the active account is this account, and no prompt or unlock came after it.
abbrev pub confirmed : SafeAccount → List Event → Bool
confirmed account [] = false
confirmed account (active_account current ∷ log) = is_same_account current account
confirmed account (shown _ _ _ _ ∷ log) = false
confirmed account (unlocked _ ∷ log) = false
confirmed account (_ ∷ log) = confirmed account log

abbrev pub is_authentication_event : ValidatedParams → Bool
is_authentication_event (sign_event event) = is_authentication_kind event.kind
is_authentication_event params = false

-- What the key is used on: the validated parameters, or the event that was built for an attestation.
pub data Prepared : ValidatedParams → PreparedParams → Type 0 where
  same : (params : ValidatedParams) → Prepared params (plain params)
  built : (event : EventTemplate) → Prepared sign_pq_attestation (attestation event)

module _ (request : SignerRequest) (params : ValidatedParams) (own : Bool) where
  -- Why no further approval is missing. The user saw exactly what was prepared, for this account.
  -- A request that needs no key needs no approval here, and uses none.
  pub data Approved (account : SafeAccount) (prepared : PreparedParams) (log : List Event)
      : Type 0 where
    by_user :
        (outcome : ApprovalDecision)
        → Noted (shown (permission_origin request.origin) account (prepared ∷ []) outcome) log
        → outcome.allow ≡ true
        → Approved account prepared log
    by_rule :
        (decision : Decision)
        → Noted
            (checked
              (permission_origin request.origin)
              (permission_rule params).method
              (permission_rule params).kind
              account.id
              decision)
            log
        → is_ask decision ≡ false
        → is_authentication_event params ≡ false
        → Approved account prepared log
    by_remote :
        account.is_nip46 ≡ true
        → is_authentication_event params ≡ false
        → Approved account prepared log
    by_grant :
        (key : Text)
        → Noted (grant_read account.id key (some Consent.allow)) log
        → Approved account prepared log
    by_host : own ≡ true → Approved account prepared log
    keyless : is_key_method (params_method params) ≡ false → Approved account prepared log

  -- What stays true of the log once it is.
  pub record Allowed (account : SafeAccount) (prepared : PreparedParams) (log : List Event)
      : Type 0 where
    pub decision : Decision
    pub noted :
        Noted
          (checked
            (permission_origin request.origin)
            (permission_rule params).method
            (permission_rule params).kind
            account.id
            decision)
          log
    pub undenied : is_denial decision ≡ false
    pub author : names_other params account ≡ false
    pub used : Prepared params prepared
    pub approved : Approved account prepared log

  abbrev pub Guarded : SafeAccount → PreparedParams → List Event → Type 0
  Guarded account prepared log =
      Allowed account prepared log
      × (confirmed account log ≡ true)
      × (is_key_method (params_method params) ≡ true)

  -- Every use of the key is guarded by the log below it.
  abbrev pub Lawful : List Event → Type 0
  Lawful [] = Unit {0}
  Lawful (key_used account prepared ∷ log) = Guarded account prepared log × Lawful log
  Lawful (remote_used account asked ∷ log) =
      ((asked ≡ params) × ((prepared : PreparedParams) × Guarded account prepared log)) × Lawful log
  Lawful (_ ∷ log) = Lawful log

pub Noted-Stable : (e : Event) → Stable (Noted e)
Noted-Stable e = record { grow = λ x log quiet h. inr h }

module _ (request : SignerRequest) (params : ValidatedParams) (own : Bool) where
  Lawful-grow :
      (e : Event) (log : List Event)
      → is_use e ≡ false
      → Lawful request params own log
      → Lawful request params own (e ∷ log)
  Lawful-grow (key_used a p) log quiet h = absurd (cc)
  Lawful-grow (remote_used a p) log quiet h = absurd (cc)
  Lawful-grow _ log quiet h = h

  pub Lawful-Stable : Stable (Lawful request params own)
  Lawful-Stable = record { grow = Lawful-grow }

  Approved-grow :
      (account : SafeAccount) (prepared : PreparedParams) (e : Event) (log : List Event)
      → Approved request params own account prepared log
      → Approved request params own account prepared (e ∷ log)
  Approved-grow a p e log (Approved.by_user outcome noted allowed) =
      Approved.by_user outcome (inr noted) allowed
  Approved-grow a p e log (Approved.by_rule d noted settled kind) =
      Approved.by_rule d (inr noted) settled kind
  Approved-grow a p e log (Approved.by_remote remote kind) = Approved.by_remote remote kind
  Approved-grow a p e log (Approved.by_grant key noted) = Approved.by_grant key (inr noted)
  Approved-grow a p e log (Approved.by_host host) = Approved.by_host host
  Approved-grow a p e log (Approved.keyless k) = Approved.keyless k

  Allowed-grow :
      (account : SafeAccount) (prepared : PreparedParams) (e : Event) (log : List Event)
      → Allowed request params own account prepared log
      → Allowed request params own account prepared (e ∷ log)
  Allowed-grow a p e log h = record {
    decision = h.decision;
    noted = inr h.noted;
    undenied = h.undenied;
    author = h.author;
    used = h.used;
    approved = Approved-grow a p e log h.approved;
  }

  pub Allowed-Stable :
      (account : SafeAccount) (prepared : PreparedParams)
      → Stable (Allowed request params own account prepared)
  Allowed-Stable account prepared = record {
    grow = λ e log quiet h. Allowed-grow account prepared e log h;
  }
