-- ===== src/Permissions/Migrations.antt =====
-- Three of the legacy migrations of packages/identity/src/permissions/store.ts: migrateForwardToAsk,
-- migrateDmKindsToSendMessages and migrateToInheritance. The trees are bucketed; the flat trees that
-- migrateToPerKind and migrateToPerAccount also read are not part of this file.
pub mod Folding
mod Examples
use nostr_wot_sdk.Prelude.{
  ℕ, Bool, true, false, not, ◌&&◌, ◌||◌, Option, none, some, List, [], ◌∷◌, ◌++◌, Text, text,
  text_eq, ◌==◌, ltb, if◌then◌else◌, any, lookup, put, remove,
}
use nostr_wot_sdk.Permissions.Key.{Decision, allow, deny, ask, forward, Bucket, send_messages}
use nostr_wot_sdk.Permissions.Host.{
  OriginPermissions, PermissionMap, PendingMigration, Disk, Error, account_required, M, ◌>>=◌, ◌>>◌,
  pure, refuse_if, read, write,
}
use nostr_wot_sdk.Permissions.Tree.{
  default_bucket, overlay, origin_permission_bucket, asking, is_empty,
}
use nostr_wot_sdk.Permissions.Store.{
  dm_permission_keys, draft, commit, inherits, get_use_global_defaults, finish_migration,
}

-- `RESTRICTIVENESS[d] || 0`
abbrev pub restrictiveness : Decision → ℕ
restrictiveness allow = 1
restrictiveness ask = 2
restrictiveness deny = 3
restrictiveness forward = 0

abbrev is_forward : Decision → Bool
is_forward forward = true
is_forward _ = false

-- The rules of one bucket in `migrateForwardToAsk`, and whether one changed.
unfoldable pub forward_to_ask : Bucket → Bucket × Bool
forward_to_ask [] = ([], false)
forward_to_ask ((key, d) ∷ rules) =
    let (rest, changed) = forward_to_ask rules in
    if is_forward d then ((key, ask) ∷ rest, true) else ((key, d) ∷ rest, changed)

-- The rules of every bucket, and whether one changed.
unfoldable pub each_bucket : (Bucket → Bucket × Bool) → OriginPermissions → OriginPermissions × Bool
each_bucket f [] = ([], false)
each_bucket f ((bucket, rules) ∷ buckets) =
    let (rest, changed) = each_bucket f buckets in
    ((bucket, (f rules).0) ∷ rest, (f rules).1 || changed)

unfoldable pub each_origin : (Bucket → Bucket × Bool) → PermissionMap → PermissionMap × Bool
each_origin f [] = ([], false)
each_origin f ((origin, buckets) ∷ perms) =
    let (rest, changed) = each_origin f perms in
    ((origin, (each_bucket f buckets).0) ∷ rest, (each_bucket f buckets).1 || changed)

-- The frame of the two: the tree is committed when something changed.
unfoldable pub migrate_buckets : (Bucket → Bucket × Bool) → M (Unit {0})
migrate_buckets f = do
  perms ← draft
  if (each_origin f perms).1 then commit (each_origin f perms).0 else pure tt

unfoldable pub migrate_forward_to_ask : M (Unit {0})
migrate_forward_to_ask = migrate_buckets forward_to_ask

-- The stricter of the rule chosen so far and the one that comes in.
abbrev pub stricter : Option Decision → Decision → Decision
stricter none incoming = incoming
stricter (some chosen) incoming =
    if ltb (restrictiveness chosen) (restrictiveness incoming) then incoming else chosen

-- The loop over the retired keys: the rule chosen, the rules left, and whether one went.
unfoldable pub fold_keys :
    List Text → Option Decision → Bucket → Bool → Option Decision × (Bucket × Bool)
fold_keys [] chosen rules changed = (chosen, (rules, changed))
fold_keys (key ∷ keys) chosen rules changed = elim (lookup key rules) [
  | none ↦ fold_keys keys chosen rules changed
  | some incoming ↦ fold_keys keys (some (stricter chosen incoming)) (remove key rules) true
]

abbrev pub decision_beq : Decision → Decision → Bool
decision_beq allow allow = true
decision_beq deny deny = true
decision_beq ask ask = true
decision_beq forward forward = true
decision_beq _ _ = false

abbrev pub is_rule : Option Decision → Decision → Bool
is_rule none d = false
is_rule (some c) d = decision_beq c d

-- What `migrateDmKindsToSendMessages` does with the rule it chose.
unfoldable pub keep_chosen : Option Decision → Bucket → Bool → Bucket × Bool
keep_chosen none rules changed = (rules, changed)
keep_chosen (some chosen) rules changed =
    if is_rule (lookup send_messages rules) chosen
    then (rules, changed)
    else (put send_messages chosen rules, true)

-- One bucket in `migrateDmKindsToSendMessages`.
unfoldable pub fold_dm_kinds : Bucket → Bucket × Bool
fold_dm_kinds rules =
    let (chosen, (rest, changed)) =
      fold_keys dm_permission_keys (lookup send_messages rules) rules false in
    keep_chosen chosen rest changed

unfoldable pub migrate_dm_kinds_to_send_messages : M (Unit {0})
migrate_dm_kinds_to_send_messages = migrate_buckets fold_dm_kinds

abbrev insert_id : Text → List Text → List Text
insert_id id ids = if any (λ i. i == id) ids then ids else ids ++ id ∷ []

-- The account buckets that a tree has, added to a set of ids.
unfoldable pub bucket_ids : OriginPermissions → List Text → List Text
bucket_ids [] ids = ids
bucket_ids ((bucket, _) ∷ buckets) ids =
    bucket_ids buckets (if bucket == default_bucket then ids else insert_id bucket ids)

unfoldable pub tree_ids : PermissionMap → List Text → List Text
tree_ids [] ids = ids
tree_ids ((_, buckets) ∷ perms) ids = tree_ids perms (bucket_ids buckets ids)

unfoldable pub unique : List Text → List Text → List Text
unique [] ids = ids
unique (id ∷ more) ids = unique more (insert_id id ids)

-- `#migrationAccounts`
unfoldable pub migration_accounts : PermissionMap → List Text → M (List Text)
migration_accounts tree account_ids = do
  let ids = tree_ids tree (unique account_ids [])
  refuse_if (any (λ id. is_empty id || id == default_bucket) ids) account_required
  pure ids

-- The buckets of one origin where the rules were an account's own.
unfoldable pub own_buckets :
    PermissionMap → Text → List Text → OriginPermissions → OriginPermissions
own_buckets original origin [] buckets = buckets
own_buckets original origin (id ∷ ids) buckets = own_buckets original origin ids (
    put id
      (overlay (asking (origin_permission_bucket original origin default_bucket))
        (origin_permission_bucket original origin id))
      buckets)

-- The buckets of one origin where the rules were shared.
unfoldable pub shared_buckets : OriginPermissions → OriginPermissions
shared_buckets buckets = elim (lookup default_bucket buckets) [
  | none ↦ []
  | some defaults ↦ (default_bucket, defaults) ∷ []
]

unfoldable pub inheriting_tree : Bool → List Text → PermissionMap → PermissionMap → PermissionMap
inheriting_tree shared ids original [] = []
inheriting_tree shared ids original ((origin, buckets) ∷ perms) =
    let rest = inheriting_tree shared ids original perms in
    (origin, if shared then shared_buckets buckets else own_buckets original origin ids buckets)
    ∷ rest

-- What `migrateToInheritance` does where the mode is not on yet.
unfoldable pub start_inheritance : List Text → M (Unit {0})
start_inheritance account_ids = do
  original ← draft
  ids ← migration_accounts original account_ids
  shared ← get_use_global_defaults
  write (λ d. record d {
    migration_pending =
        some (record { tree = inheriting_tree shared ids original original; global = false });
  })
  finish_migration

unfoldable pub migrate_to_inheritance : List Text → M (Unit {0})
migrate_to_inheritance account_ids = do
  finish_migration
  inheriting ← inherits
  if inheriting then pure tt else start_inheritance account_ids
