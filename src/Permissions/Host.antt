-- ===== src/Permissions/Host.antt =====
-- The store that packages/identity/src/permissions keeps its data in, one field for each key of
-- constants.ts, and the caches of the class `Permissions`. A method is a function of this state: it
-- returns a value or throws, and leaves the state as far as it came. The store accepts `writes` more
-- writes and rejects every later one, so a theorem over all states covers a failure at every write.
use nostr_wot_sdk.Prelude.{ℕ, zero, suc, Bool, true, false, Option, none, List, [], ◌∷◌, Text}
use nostr_wot_sdk.Permissions.Key.{Bucket}

-- `{ origin: { bucket: { permissionKey: decision } } }`
abbrev pub OriginPermissions : Type 0
OriginPermissions = List (Text × Bucket)

abbrev pub PermissionMap : Type 0
PermissionMap = List (Text × OriginPermissions)

pub data Protocol : Type 0 where
  nip42 nip98 legacy_login : Protocol

-- The decision of a grant; a record of no decision means `allow`.
pub data Consent : Type 0 where
  allow deny : Consent

-- `version` says whether the record carries the endpoint version 2.
pub record AuthenticationGrant : Type 0 where
  pub decision : Option Consent
  pub id : Text
  pub account_id : Text
  pub origin : Text
  pub protocol : Protocol
  pub destination : Text
  pub method : Option Text
  pub version : Bool
  pub resource : Option Text

pub record PendingMigration : Type 0 where
  pub tree : PermissionMap
  pub global : Bool

pub record Disk : Type 0 where
  pub permissions : Option PermissionMap
  pub use_global_defaults : Option Bool
  pub inheritance : Bool
  pub global_rules_version : Bool
  pub migration_pending : Option PendingMigration
  pub authentication_grants : List AuthenticationGrant
  pub default_backend_auth : List (Text × Bool)
  pub writes : ℕ

pub record Host : Type 0 where
  pub disk : Disk
  pub cached_perms : Option PermissionMap
  pub cached_use_global_defaults : Option Bool

pub data Error : Type 0 where
  empty_label retired_key relay_auth_allow not_retired invalid_kind : Error
  no_account rule_scope migration_incomplete store_failed : Error
  account_required inheritance_first invalid_scope invalid_denial_scope : Error
  authentication_denied stale_request : Error

pub data Outcome {ℓ} (A : Type ℓ) : Type ℓ where
  ok : A → Outcome A
  throw : Error → Outcome A

abbrev pub M {ℓ} : Type ℓ → Type ℓ
M A = Host → Outcome A × Host

abbrev pub then_do {ℓ κ} :
    {A : Type ℓ} {B : Type κ} → Outcome A × Host → (A → M B) → Outcome B × Host
then_do (ok a, h) f = f a h
then_do (throw e, h) f = (throw e, h)

infixl 5 ◌>>=◌ ◌>>◌
unfoldable pub ◌>>=◌ {ℓ κ} : {A : Type ℓ} {B : Type κ} → M A → (A → M B) → M B
◌>>=◌ m f h = then_do (m h) f

abbrev pub ◌>>◌ {ℓ} : {B : Type ℓ} → M (Unit {0}) → M B → M B
m >> k = m >>= λ _. k

unfoldable pub pure {ℓ} : {A : Type ℓ} → A → M A
pure a h = (ok a, h)

unfoldable pub fail {ℓ} : {A : Type ℓ} → Error → M A
fail e h = (throw e, h)

-- `if (bad) throw`
unfoldable pub refuse_if : Bool → Error → M (Unit {0})
refuse_if true e h = (throw e, h)
refuse_if false e h = (ok tt, h)

-- `requireLabel`
unfoldable pub require_label : Text → M (Unit {0})
require_label [] h = (throw empty_label, h)
require_label (c ∷ s) h = (ok tt, h)

unfoldable pub read {ℓ} : {A : Type ℓ} → (Disk → A) → M A
read f h = (ok (f h.disk), h)

abbrev write_with : ℕ → (Disk → Disk) → M (Unit {0})
write_with zero f h = (throw store_failed, h)
write_with (suc left) f h = (ok tt, record h { disk = record (f h.disk) { writes = left } })

-- One `set` or `remove` of the store.
unfoldable pub write : (Disk → Disk) → M (Unit {0})
write f h = write_with h.disk.writes f h

abbrev pub invalidated : Host → Host
invalidated h = record h { cached_perms = none; cached_use_global_defaults = none }

-- `try { ... } finally { this.invalidateCache(); }`
unfoldable pub then_invalidate {ℓ} : {A : Type ℓ} → M A → M A
then_invalidate m h = ((m h).0, invalidated (m h).1)
