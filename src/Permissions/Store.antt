-- ===== src/Permissions/Store.antt =====
-- The class `Permissions` of packages/identity/src/permissions/store.ts. Its methods run one after
-- another here, as its lock has the writing ones; the logger is left out, and the legacy migrations are
-- in Migrations.antt.
pub mod Calls
pub mod Coherence
pub mod Saves
pub mod Guards
pub mod Answers
pub mod Migration
pub mod Removal
mod Examples
use nostr_wot_sdk.Prelude.{
  Bool, true, false, not, ◌&&◌, ◌||◌, Option, none, some, List, [], ◌∷◌, ◌++◌, map, Text, text,
  text_eq, ◌==◌, ℤ, int_eq, if◌then◌else◌, any, lookup, put, remove,
}
use nostr_wot_sdk.Permissions.Key.{
  Decision, allow, ask, Bucket, Kind, permission_key, Answer, resolve_detailed, sign_event,
  dm_sign_kinds, kind_key, nip42_kind, resolve_blanket_sign_event,
}
use nostr_wot_sdk.Permissions.Scope.{site_scopes, storage_label}
use nostr_wot_sdk.Permissions.Host.{
  OriginPermissions, PermissionMap, Disk, Host, Error, empty_label, retired_key, relay_auth_allow,
  not_retired, invalid_kind, no_account, rule_scope, migration_incomplete, account_required,
  inheritance_first, ok, M, ◌>>=◌, ◌>>◌, pure, fail, refuse_if, require_label, read, write,
  then_invalidate, PendingMigration,
}
use nostr_wot_sdk.Permissions.Tree.{
  default_bucket, global_rules_scope, overlay, bucket_at, origin_permission_bucket,
  effective_origin_permissions, set_rule, is_empty, drop_bucket_in, drop_scopes, drop_account,
  copy_bucket, asking, keep_defaults, drop_rule_in, clear_bucket_in, rules_at, buckets_at,
}
use nostr_wot_sdk.Permissions.Grants.{GrantFilter, revoke}

-- `DM_PERMISSION_KEYS`
unfoldable pub dm_permission_keys : List Text
dm_permission_keys = map kind_key dm_sign_kinds

unfoldable pub is_dm_key : Text → Bool
is_dm_key key = any (λ k. k == key) dm_permission_keys

-- `RELAY_AUTH_KEY`
unfoldable pub relay_auth_key : Text
relay_auth_key = kind_key nip42_kind

abbrev pub is_allow : Decision → Bool
is_allow allow = true
is_allow _ = false

abbrev pub inherits : M Bool
inherits = read (λ d. d.inheritance)

-- `stored !== false`
abbrev pub stored_default : Disk → Bool
stored_default d = elim d.use_global_defaults [ none ↦ true | some on ↦ on ]

unfoldable pub get_use_global_defaults : M Bool
get_use_global_defaults h = elim h.cached_use_global_defaults [
  | some on ↦ (ok on, h)
  | none ↦ (
    ok (stored_default h.disk),
    record h { cached_use_global_defaults = some (stored_default h.disk) },
  )
]

unfoldable pub set_use_global_defaults : Bool → M (Unit {0})
set_use_global_defaults enabled =
    then_invalidate (write (λ d. record d { use_global_defaults = some enabled }))

abbrev pub own_bucket : Text → Option Text
own_bucket [] = none
own_bucket (c ∷ s) = some (c ∷ s)

unfoldable pub active_bucket : Text → M (Option Text)
active_bucket account_id = do
  inheriting ← inherits
  if inheriting then pure (own_bucket account_id) else (do
    shared ← get_use_global_defaults
    pure (if shared then some default_bucket else own_bucket account_id))

unfoldable pub required_bucket : Option Text → M Text
required_bucket none = fail no_account
required_bucket (some bucket) = pure bucket

unfoldable pub write_bucket : Text → M Text
write_bucket account_id = do bucket ← active_bucket account_id; required_bucket bucket

abbrev pub stored_tree : Disk → PermissionMap
stored_tree d = elim d.permissions [ none ↦ [] | some tree ↦ tree ]

-- `#load` behind its test of a pending migration.
unfoldable pub load_cached : M PermissionMap
load_cached h = elim h.cached_perms [
  | some tree ↦ (ok tree, h)
  | none ↦ (ok (stored_tree h.disk), record h { cached_perms = some (stored_tree h.disk) })
]

abbrev pub is_some {ℓ} : {A : Type ℓ} → Option A → Bool
is_some none = false
is_some (some a) = true

unfoldable pub load : M PermissionMap
load = do
  pending ← read (λ d. d.migration_pending)
  refuse_if (is_some pending) migration_incomplete
  load_cached

-- The copy is equal to the tree: a model's values are never shared.
unfoldable pub draft : M PermissionMap
draft = load

unfoldable pub commit : PermissionMap → M (Unit {0})
commit perms = then_invalidate (write (λ d. record d { permissions = some perms }))

-- What `getForOrigin` does with the bucket that is in use.
unfoldable pub rules_from : Text → Text → Option Text → M Bucket
rules_from origin account_id none = pure []
rules_from origin account_id (some bucket) = do
  perms ← load
  inheriting ← inherits
  pure (
      if inheriting
      then effective_origin_permissions perms origin account_id
      else origin_permission_bucket perms origin bucket)

unfoldable pub get_for_origin : Text → Text → M Bucket
get_for_origin origin account_id = do
  bucket ← active_bucket account_id
  rules_from origin account_id bucket

-- The rules of one origin in `getAll`.
abbrev listed_rules : Bool → PermissionMap → Text → Text → Text → OriginPermissions → Bucket
listed_rules inheriting perms origin account_id bucket buckets =
    if inheriting
    then effective_origin_permissions perms origin account_id
    else rules_at buckets bucket

-- The loop of `getAll`.
unfoldable pub list_origins :
    Bool → PermissionMap → Text → Text → PermissionMap → List (Text × Bucket)
list_origins inheriting perms account_id bucket [] = []
list_origins inheriting perms account_id bucket ((origin, buckets) ∷ rest) =
    let found = listed_rules inheriting perms origin account_id bucket buckets in
    let more = list_origins inheriting perms account_id bucket rest in
    if origin == global_rules_scope || is_empty found then more else (origin, found) ∷ more

-- What `getAll` does with the bucket that is in use.
unfoldable pub listing_from : Text → Option Text → M (List (Text × Bucket))
listing_from account_id none = pure []
listing_from account_id (some bucket) = do
  perms ← load
  inheriting ← inherits
  pure (list_origins inheriting perms account_id bucket perms)

unfoldable pub get_all : Text → M (List (Text × Bucket))
get_all account_id = do bucket ← active_bucket account_id; listing_from account_id bucket

unfoldable pub get_all_raw : M PermissionMap
get_all_raw = load

unfoldable pub get_for_origin_raw : Text → M OriginPermissions
get_for_origin_raw origin = do perms ← load; pure (buckets_at perms (storage_label origin))

-- What `resolveDetailed` throws, if it does.
unfoldable pub or_invalid : Option Answer → M Decision
or_invalid none = fail invalid_kind
or_invalid (some a) = pure a.decision

unfoldable pub check : Text → Text → Kind → Text → M Decision
check origin method kind account_id = do
  bucket ← get_for_origin origin account_id
  or_invalid (resolve_detailed bucket method kind)

unfoldable pub check_blanket_sign_event : Text → Text → M Decision
check_blanket_sign_event origin account_id = do
  bucket ← get_for_origin origin account_id
  pure (resolve_blanket_sign_event bucket).decision

abbrev pub bool_beq : Bool → Bool → Bool
bool_beq true b = b
bool_beq false b = not b

unfoldable pub assert_rule_scope : Text → Text → M (Unit {0})
assert_rule_scope origin bucket = do
  consolidated ← read (λ d. d.global_rules_version)
  refuse_if
      (consolidated && not (bool_beq (origin == global_rules_scope) (bucket == default_bucket)))
      rule_scope

-- What `saveDirect` and `saveRetiredKey` do under the lock.
unfoldable pub write_rule : Text → Text → Decision → Text → M (Unit {0})
write_rule label key decision account_id = do
  bucket ← write_bucket account_id
  assert_rule_scope label bucket
  perms ← draft
  commit (set_rule label bucket key decision perms)

unfoldable pub save_direct : Text → Text → Decision → Text → M (Unit {0})
save_direct origin key decision account_id = do
  require_label origin
  require_label key
  refuse_if (is_dm_key key) retired_key
  refuse_if (key == relay_auth_key && is_allow decision) relay_auth_allow
  write_rule (storage_label origin) key decision account_id

-- `save` behind its call of `permissionKey`, which throws on an invalid kind.
unfoldable pub save_under : Option Text → Text → Decision → Text → M (Unit {0})
save_under none origin decision account_id = fail invalid_kind
save_under (some key) origin decision account_id = save_direct origin key decision account_id

unfoldable pub save : Text → Text → Kind → Decision → Text → M (Unit {0})
save origin method kind decision account_id =
    save_under (permission_key method kind) origin decision account_id

unfoldable pub save_retired_key : Text → Text → Decision → Text → M (Unit {0})
save_retired_key origin key decision account_id = do
  require_label origin
  refuse_if (not (is_dm_key key)) not_retired
  write_rule (storage_label origin) key decision account_id

abbrev account_filter : Option Text → Text → GrantFilter
account_filter origin account_id = record {
  id = none;
  account_id = own_bucket account_id;
  origin = origin;
}

-- `clear` with no origin.
unfoldable pub clear_everything : Text → M (Unit {0})
clear_everything account_id = do
  revoke (account_filter none account_id)
  then_invalidate (write (λ d. record d { permissions = none }))

-- `clear` with an origin.
unfoldable pub clear : Text → Text → M (Unit {0})
clear origin account_id = do
  require_label origin
  _ ← write_bucket account_id
  revoke (account_filter (some origin) account_id)
  bucket ← write_bucket account_id
  perms ← draft
  commit (drop_bucket_in bucket (site_scopes origin) perms)

unfoldable pub clear_all_for_origin : Text → M (Unit {0})
clear_all_for_origin origin = do
  require_label origin
  revoke (record { id = none; account_id = none; origin = some origin })
  perms ← draft
  commit (drop_scopes (site_scopes origin) perms)

unfoldable pub clear_for_account : Text → M (Unit {0})
clear_for_account account_id = do
  require_label account_id
  if account_id == default_bucket then pure tt else (do
    revoke (record { id = none; account_id = some account_id; origin = none })
    perms ← draft
    if (drop_account account_id perms).1 then commit (drop_account account_id perms).0 else pure tt)

-- `copyPermissions`; the source `none` is the default bucket.
unfoldable pub copy_permissions : Option Text → Text → M (Unit {0})
copy_permissions from to = do
  refuse_if (elim from [ none ↦ false | some f ↦ is_empty f ]) empty_label
  require_label to
  consolidated ← read (λ d. d.global_rules_version)
  refuse_if (consolidated && to == default_bucket) account_required
  perms ← draft
  let source : Text = elim from [ none ↦ default_bucket | some f ↦ f ]
  if (copy_bucket consolidated source to perms).1
      then commit (copy_bucket consolidated source to perms).0
      else pure tt

-- One origin in the inheriting branch of `setupNewAccountPermissions`. The source reads the tree as
-- the loop has left it so far.
unfoldable pub setup_origin : Bool → Text → Option Text → PermissionMap → Text → PermissionMap
setup_origin consolidated new_account source tree origin =
    if consolidated && origin == global_rules_scope
    then tree
    else (let cleared : PermissionMap =
          put origin (remove new_account (buckets_at tree origin)) tree in
        let fresh = remove new_account (buckets_at tree origin) in
        if consolidated
        then elim source [
          | none ↦ cleared
          | some from ↦ elim (lookup from fresh) [
            | none ↦ cleared
            | some rules ↦ put origin (put new_account rules fresh) cleared
          ]
        ]
        else (let defaults = origin_permission_bucket cleared origin default_bucket in
            let given : Bucket = elim source [
              | none ↦ asking defaults
              | some from ↦ overlay defaults (origin_permission_bucket cleared origin from)
            ] in
            put origin (put new_account given fresh) cleared))

unfoldable pub setup_origins : Bool → Text → Option Text → List Text → PermissionMap → PermissionMap
setup_origins consolidated new_account source [] tree = tree
setup_origins consolidated new_account source (origin ∷ origins) tree =
    setup_origins consolidated new_account source origins
      (setup_origin consolidated new_account source tree origin)

abbrev pub origins_of : PermissionMap → List Text
origins_of [] = []
origins_of ((origin, _) ∷ perms) = origin ∷ origins_of perms

-- The loop over the accounts that exist already.
unfoldable pub preserve_accounts : Text → List Text → M (Unit {0})
preserve_accounts new_account [] = pure tt
preserve_accounts new_account (id ∷ ids) = do
  if is_empty id || id == new_account then pure tt else copy_permissions (some default_bucket) id
  preserve_accounts new_account ids

abbrev truthy : Option Text → Option Text
truthy none = none
truthy (some []) = none
truthy (some (c ∷ s)) = some (c ∷ s)

unfoldable pub setup_inheriting : Text → Option Text → M (Unit {0})
setup_inheriting new_account copy_from = do
  refuse_if (new_account == default_bucket) account_required
  tree ← draft
  consolidated ← read (λ d. d.global_rules_version)
  commit (setup_origins consolidated new_account (truthy copy_from) (origins_of tree) tree)

unfoldable pub copy_or_clear : Text → Option Text → M (Unit {0})
copy_or_clear new_account none = clear_for_account new_account
copy_or_clear new_account (some from) = copy_permissions (some from) new_account

unfoldable pub setup_legacy : Text → List Text → Option Text → M (Unit {0})
setup_legacy new_account existing copy_from = do
  shared ← get_use_global_defaults
  if shared
      then (do preserve_accounts new_account existing; set_use_global_defaults false)
      else pure tt
  copy_or_clear new_account (truthy copy_from)

unfoldable pub setup_new_account_permissions : Text → List Text → Option Text → M (Unit {0})
setup_new_account_permissions new_account existing copy_from = do
  require_label new_account
  inheriting ← inherits
  if inheriting
      then setup_inheriting new_account copy_from
      else setup_legacy new_account existing copy_from

unfoldable pub reset_account_rules : M (Unit {0})
reset_account_rules = do
  inheriting ← inherits
  refuse_if (not inheriting) inheritance_first
  tree ← draft
  commit (keep_defaults tree)

unfoldable pub inherit_rule : Text → Text → Text → M (Unit {0})
inherit_rule origin key account_id = do
  require_label origin
  require_label key
  require_label account_id
  refuse_if (account_id == default_bucket) account_required
  tree ← draft
  commit (drop_rule_in account_id key (site_scopes origin) tree)

unfoldable pub clear_rule_bucket : Text → Text → M (Unit {0})
clear_rule_bucket origin account_id = do
  require_label origin
  require_label account_id
  tree ← draft
  commit (clear_bucket_in account_id (site_scopes origin) tree)

-- The writes of `#finishMigration`; each may be the one that the store rejects.
unfoldable pub apply_pending : PendingMigration → M (Unit {0})
apply_pending pending = do
  write (λ d. record d { permissions = some pending.tree })
  write (λ d. record d { use_global_defaults = some false })
  write (λ d. record d { inheritance = true })
  if pending.global then write (λ d. record d { global_rules_version = true }) else pure tt
  write (λ d. record d { migration_pending = none })

unfoldable pub complete : Option PendingMigration → M (Unit {0})
complete none = pure tt
complete (some pending) = then_invalidate (apply_pending pending)

unfoldable pub finish_migration : M (Unit {0})
finish_migration = do pending ← read (λ d. d.migration_pending); complete pending
