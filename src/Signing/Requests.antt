-- ===== src/Signing/Requests.antt =====
-- What the signer core is asked: the requests of packages/identity/src/signing/types.ts once schema.ts
-- has validated them, the pure functions of core.ts over them, and those of pq.ts.
mod Examples
use nostr_wot_sdk.Prelude.{
  ℕ, Bool, true, false, not, ◌&&◌, ◌||◌, Option, none, some, List, [], ◌∷◌, ◌++◌, Text, text,
  text_eq, ◌==◌, if◌then◌else◌, any, ℤ, pos,
}
use nostr_wot_sdk.Permissions.Key.{Kind, undefined, integer}
use nostr_wot_sdk.Permissions.Scope.Chars.{lower, cut_at}
use nostr_wot_sdk.Permissions.Scope.{canonical_http_origin, canonical_hostname, site_scopes}
use nostr_wot_sdk.Permissions.Authentication.{Requester}

pub data OriginKind : Type 0 where
  web nip46 nip55 lan local : OriginKind

pub record RequestOrigin : Type 0 where
  pub kind : OriginKind
  pub identifier : Text
  pub display_name : Option Text
  pub icon : Option Text

pub data SignerMethod : Type 0 where
  get_public_key sign_event get_relays nip04_encrypt nip04_decrypt nip44_encrypt : SignerMethod
  nip44_decrypt sign_pq_attestation : SignerMethod

pub record EventTemplate : Type 0 where
  pub kind : ℤ
  pub content : Text
  pub tags : List (List Text)
  pub created_at : Option ℤ
  pub pubkey : Option Text

-- The encryption scheme, with what the post-quantum one adds.
pub data EncryptScheme : Type 0 where
  classic : EncryptScheme
  pq : Text → EncryptScheme

pub data Envelope : Type 0 where
  hybrid unreadable : Envelope

pub data DecryptScheme : Type 0 where
  classic : DecryptScheme
  pq : Envelope → DecryptScheme

pub data ValidatedParams : Type 0 where
  get_public_key get_relays sign_pq_attestation : ValidatedParams
  sign_event : EventTemplate → ValidatedParams
  nip04_encrypt nip04_decrypt : Text → Text → ValidatedParams
  nip44_encrypt : Text → Text → EncryptScheme → ValidatedParams
  nip44_decrypt : Text → Text → DecryptScheme → ValidatedParams

-- An attestation carries the event that was built for it; the rest is as it was validated.
pub data PreparedParams : Type 0 where
  plain : ValidatedParams → PreparedParams
  attestation : EventTemplate → PreparedParams

-- Its method and its params are those that were validated, beside it.
pub record SignerRequest : Type 0 where
  pub id : Text
  pub origin : RequestOrigin
  pub received_at : ℕ

-- The fields of an account that a decision reads.
pub record SafeAccount : Type 0 where
  pub id : Text
  pub is_nip46 : Bool
  pub pubkey : Text
  pub read_only : Bool

abbrev pub pqc_kind : ℤ
pqc_kind = pos 10203

unfoldable pub params_method : ValidatedParams → SignerMethod
params_method get_public_key = get_public_key
params_method get_relays = get_relays
params_method sign_pq_attestation = sign_pq_attestation
params_method (sign_event event) = sign_event
params_method (nip04_encrypt pubkey plaintext) = nip04_encrypt
params_method (nip04_decrypt pubkey ciphertext) = nip04_decrypt
params_method (nip44_encrypt pubkey plaintext scheme) = nip44_encrypt
params_method (nip44_decrypt pubkey ciphertext scheme) = nip44_decrypt

abbrev pub method_name : SignerMethod → Text
method_name get_public_key = text "getPublicKey"
method_name sign_event = text "signEvent"
method_name get_relays = text "getRelays"
method_name nip04_encrypt = text "nip04Encrypt"
method_name nip04_decrypt = text "nip04Decrypt"
method_name nip44_encrypt = text "nip44Encrypt"
method_name nip44_decrypt = text "nip44Decrypt"
method_name sign_pq_attestation = text "signPqAttestation"

-- `KEY_METHODS`
abbrev pub is_key_method : SignerMethod → Bool
is_key_method get_public_key = false
is_key_method get_relays = false
is_key_method _ = true

abbrev kind_prefix : OriginKind → Text
kind_prefix web = text "web"
kind_prefix nip46 = text "nip46"
kind_prefix nip55 = text "nip55"
kind_prefix lan = text "lan"
kind_prefix local = text "local"

-- `permissionOrigin`
abbrev pub origin_key_of : OriginKind → Text → Text
origin_key_of web identifier = identifier
origin_key_of kind identifier = kind_prefix kind ++ b':' ∷ identifier

unfoldable pub permission_origin : RequestOrigin → Text
permission_origin origin = origin_key_of origin.kind origin.identifier

abbrev requester_of_kind : OriginKind → Text → Requester
requester_of_kind web t = Requester.web t
requester_of_kind nip46 t = Requester.nip46 t
requester_of_kind nip55 t = Requester.nip55 t
requester_of_kind lan t = Requester.lan t
requester_of_kind local t = Requester.local t

unfoldable pub requester_of : RequestOrigin → Requester
requester_of origin = requester_of_kind origin.kind origin.identifier

-- The origin kinds that a key is prefixed with.
abbrev is_prefix_kind : Text → Bool
is_prefix_kind prefix =
    any (λ k. k == prefix) (text "nip46" ∷ text "nip55" ∷ text "lan" ∷ text "local" ∷ [])

abbrev or_text : Option Text → Text → Text
or_text none t = t
or_text (some s) t = s

abbrev canonical_web_key : Text → Text
canonical_web_key key = or_text (canonical_http_origin key) (or_text (canonical_hostname key) key)

unfoldable pub canonical_origin_key : Text → Text
canonical_origin_key key = elim (cut_at b':' key) [
  | none ↦ canonical_web_key key
  | some (prefix, rest) ↦
      if is_prefix_kind prefix
      then (if prefix == text "nip46" then text "nip46:" ++ lower rest else key)
      else canonical_web_key key
]

-- `sameSite`
unfoldable pub same_site : Text → Text → Bool
same_site a b = a == b || any (λ scope. any (λ s. s == scope) (site_scopes b)) (site_scopes a)

pub record Asked : Type 0 where
  pub method : SignerMethod
  pub kind : Kind

unfoldable pub permission_rule : ValidatedParams → Asked
permission_rule (sign_event event) = record { method = sign_event; kind = integer event.kind }
permission_rule sign_pq_attestation = record { method = sign_event; kind = integer pqc_kind }
permission_rule params = record { method = params_method params; kind = undefined }

-- `needsPqKeys`
unfoldable pub needs_pq_keys : ValidatedParams → Bool
needs_pq_keys (nip44_encrypt _ _ (pq _)) = true
needs_pq_keys (nip44_decrypt _ _ (pq _)) = true
needs_pq_keys sign_pq_attestation = true
needs_pq_keys _ = false

-- `remotePqRefusal`: the sentence, or `none` where the remote signer may be asked.
unfoldable pub remote_pq_refusal : ValidatedParams → Option Text
remote_pq_refusal (nip44_encrypt _ _ (pq _)) =
    some (text "Remote signers do not support post-quantum encryption")
remote_pq_refusal (nip44_decrypt _ _ (pq _)) =
    some (text "Remote signers cannot read post-quantum messages")
remote_pq_refusal sign_pq_attestation =
    some (text "Remote signers do not support post-quantum keys")
remote_pq_refusal _ = none
