-- ===== src/Permissions/Tree.antt =====
-- The permission tree, and the edits of it that scope.ts and store.ts of
-- packages/identity/src/permissions make.
pub mod Layers
use nostr_wot_sdk.Prelude.{
  Bool, true, false, ◌&&◌, ◌||◌, Option, none, some, List, [], ◌∷◌, ◌++◌, Text, text, text_eq, ◌==◌,
  if◌then◌else◌, lookup, put, remove,
}
use nostr_wot_sdk.Permissions.Key.{Decision, ask, Bucket}
use nostr_wot_sdk.Permissions.Host.{OriginPermissions, PermissionMap}
use nostr_wot_sdk.Permissions.Scope.{site_scopes}

abbrev pub default_bucket : Text
default_bucket = text "_default"

abbrev pub global_rules_scope : Text
global_rules_scope = text "_global"

-- `{ ...a, ...b }`
unfoldable pub overlay : Bucket → Bucket → Bucket
overlay a [] = a
overlay a ((key, value) ∷ b) = overlay (put key value a) b

-- `stored[scope]?.[bucket] ?? {}`
unfoldable pub bucket_at : PermissionMap → Text → Text → Bucket
bucket_at stored scope bucket = elim (lookup scope stored) [
  | none ↦ []
  | some buckets ↦ elim (lookup bucket buckets) [ none ↦ [] | some rules ↦ rules ]
]

-- The loop of `originPermissionBucket` over the scopes, most specific first: each scope's rules are
-- laid over those of the scopes behind it.
unfoldable pub layer_scopes : PermissionMap → Text → List Text → Bucket
layer_scopes stored bucket [] = []
layer_scopes stored bucket (scope ∷ scopes) =
    overlay (layer_scopes stored bucket scopes) (bucket_at stored scope bucket)

unfoldable pub origin_permission_bucket : PermissionMap → Text → Text → Bucket
origin_permission_bucket stored origin bucket = layer_scopes stored bucket (site_scopes origin)

unfoldable pub effective_origin_permissions : PermissionMap → Text → Text → Bucket
effective_origin_permissions perms origin account_id =
    overlay
      (overlay
        (overlay (origin_permission_bucket perms global_rules_scope default_bucket)
          (origin_permission_bucket perms global_rules_scope account_id))
        (origin_permission_bucket perms origin default_bucket))
      (origin_permission_bucket perms origin account_id)

abbrev pub buckets_at : PermissionMap → Text → OriginPermissions
buckets_at perms label = elim (lookup label perms) [ none ↦ [] | some buckets ↦ buckets ]

abbrev pub rules_at : OriginPermissions → Text → Bucket
rules_at buckets bucket = elim (lookup bucket buckets) [ none ↦ [] | some rules ↦ rules ]

-- `perms[label][bucket][key] = decision`, with the objects on the way made where they are missing.
unfoldable pub set_rule : Text → Text → Text → Decision → PermissionMap → PermissionMap
set_rule label bucket key decision perms =
    let buckets = buckets_at perms label in
    put label (put bucket (put key decision (rules_at buckets bucket)) buckets) perms

abbrev pub is_empty {ℓ} : {A : Type ℓ} → List A → Bool
is_empty [] = true
is_empty (x ∷ xs) = false

-- One round of the loop of `clear`: the bucket of one scope goes, and the scope with its last.
unfoldable pub drop_bucket : Text → Text → PermissionMap → PermissionMap
drop_bucket bucket scope perms = elim (lookup scope perms) [
  | none ↦ perms
  | some buckets ↦
      if is_empty (remove bucket buckets)
      then remove scope perms
      else put scope (remove bucket buckets) perms
]

unfoldable pub drop_bucket_in : Text → List Text → PermissionMap → PermissionMap
drop_bucket_in bucket [] perms = perms
drop_bucket_in bucket (scope ∷ scopes) perms =
    drop_bucket_in bucket scopes (drop_bucket bucket scope perms)

-- The loop of `clearAllForOrigin`.
unfoldable pub drop_scopes : List Text → PermissionMap → PermissionMap
drop_scopes [] perms = perms
drop_scopes (scope ∷ scopes) perms = drop_scopes scopes (remove scope perms)

abbrev pub has_bucket : Text → OriginPermissions → Bool
has_bucket bucket buckets = elim (lookup bucket buckets) [ none ↦ false | some _ ↦ true ]

-- The loop of `clearForAccount`: the tree, and whether anything changed.
unfoldable pub drop_account : Text → PermissionMap → PermissionMap × Bool
drop_account account_id [] = ([], false)
drop_account account_id ((origin, buckets) ∷ perms) =
    let (rest, changed) = drop_account account_id perms in
    if has_bucket account_id buckets
    then (if is_empty (remove account_id buckets)
        then (rest, true)
        else ((origin, remove account_id buckets) ∷ rest, true))
    else ((origin, buckets) ∷ rest, changed)

-- The loop of `copyPermissions`.
unfoldable pub copy_bucket : Bool → Text → Text → PermissionMap → PermissionMap × Bool
copy_bucket consolidated from to [] = ([], false)
copy_bucket consolidated from to ((origin, buckets) ∷ perms) =
    let (rest, changed) = copy_bucket consolidated from to perms in
    if consolidated && origin == global_rules_scope || is_empty (rules_at buckets from)
    then ((origin, buckets) ∷ rest, changed)
    else ((origin, put to (rules_at buckets from) buckets) ∷ rest, true)

-- `Object.fromEntries(Object.keys(rules).map(key => [key, 'ask']))`
unfoldable pub asking : Bucket → Bucket
asking [] = []
asking ((key, _) ∷ rules) = (key, ask) ∷ asking rules

-- The loop of `resetAccountRules`.
unfoldable pub keep_defaults : PermissionMap → PermissionMap
keep_defaults [] = []
keep_defaults ((origin, buckets) ∷ perms) = elim (lookup default_bucket buckets) [
  | none ↦ keep_defaults perms
  | some defaults ↦ (origin, (default_bucket, defaults) ∷ []) ∷ keep_defaults perms
]

-- One round of the loop of `inheritRule`.
unfoldable pub drop_rule : Text → Text → Text → PermissionMap → PermissionMap
drop_rule account_id key scope perms = elim (lookup scope perms) [
  | none ↦ perms
  | some buckets ↦ elim (lookup account_id buckets) [
    | none ↦ perms
    | some rules ↦ put scope (put account_id (remove key rules) buckets) perms
  ]
]

unfoldable pub drop_rule_in : Text → Text → List Text → PermissionMap → PermissionMap
drop_rule_in account_id key [] perms = perms
drop_rule_in account_id key (scope ∷ scopes) perms =
    drop_rule_in account_id key scopes (drop_rule account_id key scope perms)

-- The loop of `clearRuleBucket`, which leaves an emptied scope in place.
unfoldable pub clear_bucket_in : Text → List Text → PermissionMap → PermissionMap
clear_bucket_in account_id [] perms = perms
clear_bucket_in account_id (scope ∷ scopes) perms =
    let next = elim (lookup scope perms) as (λ _. PermissionMap) [
      | none ↦ perms
      | some buckets ↦ put scope (remove account_id buckets) perms
    ] in
    clear_bucket_in account_id scopes next
