-- ===== src/Permissions/Tree/Layers.antt =====
-- What the layers of the permission tree say of a key once a rule is set, for the functions that scope.ts
-- and store.ts of packages/identity/src/permissions read the tree with.
use nostr_wot_sdk.Prelude.{
  ◌≡◌, refl, inl, inr, Bool, false, ◌&&◌, ◌||◌, none, some, List, [], ◌∷◌, Text, text_eq, ◌==◌,
  ==_iff, ==_refl, if◌then◌else◌, any, lookup, put, Distinct, lookup-put, lookup-put_self,
  put-Distinct, arith, Option-cases,
}
use nostr_wot_sdk.Permissions.Key.{Decision, Bucket}
use nostr_wot_sdk.Permissions.Host.{OriginPermissions, PermissionMap}
use nostr_wot_sdk.Permissions.Scope.{site_scopes, storage_label, canonical_http_origin, hostname_of}
use nostr_wot_sdk.Permissions.Tree.{
  overlay, bucket_at, layer_scopes, origin_permission_bucket, effective_origin_permissions,
  set_rule, default_bucket, global_rules_scope, buckets_at, rules_at,
}

overlay-Distinct : (a b : Bucket) → Distinct a → Distinct (overlay a b)
unfolding overlay
overlay-Distinct a [] p = p
overlay-Distinct a ((k, v) ∷ b) p = overlay-Distinct (put k v a) b (put-Distinct k v a p)

layer_scopes-Distinct :
    (t : PermissionMap) (b : Text) (scopes : List Text) → Distinct (layer_scopes t b scopes)
unfolding layer_scopes
layer_scopes-Distinct t b [] = tt
layer_scopes-Distinct t b (s ∷ scopes) =
    overlay-Distinct (layer_scopes t b scopes) (bucket_at t s b) (layer_scopes-Distinct t b scopes)

-- A key that the upper layer lacks is the lower layer's.
overlay-absent : (k : Text) (a b : Bucket) → lookup k b ≡ none → lookup k (overlay a b) ≡ lookup k a
unfolding overlay lookup
overlay-absent k a [] p = refl
overlay-absent k a ((j, v) ∷ b) p =
    ground (arith, p, overlay-absent k (put j v a) b, lookup-put j k v a)

overlay-present :
    (k : Text) (v : Decision) (a b : Bucket)
    → Distinct b
    → lookup k b ≡ some v
    → lookup k (overlay a b) ≡ some v
unfolding overlay lookup
overlay-present k v a [] p e = ground (arith, e)
overlay-present k v a ((j, w) ∷ b) p e = ground (
  arith,
  e,
  p.0,
  overlay-present k v (put j w a) b p.1,
  overlay-absent k (put j w a) b,
  lookup-put j k w a,
  ==_iff j k,
)

rules_at-put :
    (b : Text) (r : Bucket) (m : OriginPermissions) (c : Text)
    → rules_at (put b r m) c ≡ (if b == c then r else rules_at m c)
rules_at-put b r m c = ground (arith, lookup-put b c r m)

buckets_at-put :
    (l : Text) (m : OriginPermissions) (t : PermissionMap) (s : Text)
    → buckets_at (put l m t) s ≡ (if l == s then m else buckets_at t s)
buckets_at-put l m t s = ground (arith, lookup-put l s m t)

bucket_at-rules_at :
    (t : PermissionMap) (s c : Text) → bucket_at t s c ≡ rules_at (buckets_at t s) c
unfolding bucket_at lookup
bucket_at-rules_at t s c = elim (Option-cases (lookup s t)) [
  | inl e ↦ rw (e, bucket_at) (rw (e, rules_at) refl)
  | inr (m, e) ↦ rw (e, bucket_at) (rw (e, rules_at) refl)
]

pub bucket_at-set_rule :
    (l b key : Text) (d : Decision) (t : PermissionMap) (s c : Text)
    → bucket_at (set_rule l b key d t) s c
      ≡ (if l == s && b == c then put key d (bucket_at t s c) else bucket_at t s c)
unfolding set_rule
bucket_at-set_rule l b key d t s c =
    let rules : Bucket = put key d (rules_at (buckets_at t l) b) in
    rw
      (
        bucket_at-rules_at (set_rule l b key d t) s c,
        bucket_at-rules_at t s c,
        buckets_at-put l (put b rules (buckets_at t l)) t s,
      )
      (ground (arith, ==_iff l s, ==_iff b c, rules_at-put b rules (buckets_at t l) c))

-- The rules that a site reads from a bucket are those it read before, where the rule is of another
-- bucket or stands under a label that the site does not read.
layer_scopes-set_rule :
    (l b key : Text) (d : Decision) (t : PermissionMap) (c : Text) (scopes : List Text)
    → b == c && any (λ s. l == s) scopes ≡ false
    → layer_scopes (set_rule l b key d t) c scopes ≡ layer_scopes t c scopes
unfolding layer_scopes
layer_scopes-set_rule l b key d t c [] n = refl
layer_scopes-set_rule l b key d t c (s ∷ scopes) n =
    rw
      (
        layer_scopes-set_rule l b key d t c scopes (ground (arith, n)),
        bucket_at-set_rule l b key d t s c,
      )
      (ground (arith, n))

-- The site's own label comes first among its scopes.
site_scopes-storage_label :
    (origin : Text) → (rest : List Text) × (site_scopes origin ≡ storage_label origin ∷ rest)
unfolding site_scopes storage_label
site_scopes-storage_label origin = elim (Option-cases (canonical_http_origin origin)) [
  | inl e ↦ ([], rw (e, site_scopes) (rw (e, storage_label) refl))
  | inr (c, e) ↦ (hostname_of c ∷ [], rw (e, site_scopes) (rw (e, storage_label) refl))
]

origin_permission_bucket-Distinct :
    (t : PermissionMap) (origin b : Text) → Distinct (origin_permission_bucket t origin b)
unfolding origin_permission_bucket
origin_permission_bucket-Distinct t origin b = layer_scopes-Distinct t b (site_scopes origin)

-- A rule set under the site's own label is what the site reads for its key in that bucket.
origin_permission_bucket-set_rule :
    (origin b key : Text) (d : Decision) (t : PermissionMap)
    → Distinct (bucket_at t (storage_label origin) b)
    → lookup key (origin_permission_bucket (set_rule (storage_label origin) b key d t) origin b)
      ≡ some d
unfolding origin_permission_bucket layer_scopes
origin_permission_bucket-set_rule origin b key d t p =
    let (rest, e) = site_scopes-storage_label origin in
    let l = storage_label origin in
    let rules = bucket_at t l b in
    rw e (
      rw (bucket_at-set_rule l b key d t l b, ==_refl l, ==_refl b)
        (overlay-present key d (layer_scopes (set_rule l b key d t) b rest) (put key d rules)
          (put-Distinct key d rules p) (lookup-put_self key d rules)))

-- A rule set in the account's own bucket under the site's own label is what the account's inherited
-- layers say of its key at that site.
pub effective-set_rule :
    (origin a key : Text) (d : Decision) (t : PermissionMap)
    → Distinct (bucket_at t (storage_label origin) a)
    → lookup key (effective_origin_permissions (set_rule (storage_label origin) a key d t) origin a)
      ≡ some d
unfolding effective_origin_permissions
effective-set_rule origin a key d t p =
    let t' = set_rule (storage_label origin) a key d t in
    overlay-present key d _ (origin_permission_bucket t' origin a)
      (origin_permission_bucket-Distinct t' origin a)
      (origin_permission_bucket-set_rule origin a key d t p)

-- Whether an account at a site reads the rules of a bucket that stand under a label.
abbrev pub reads_rules : Text → Text → Text → Text → Bool
reads_rules label bucket origin account_id =
    (bucket == default_bucket || bucket == account_id)
    && (any (λ s. label == s) (site_scopes global_rules_scope)
        || any (λ s. label == s) (site_scopes origin))

-- Setting a rule that an account at a site does not read, since it is another account's or stands
-- under another site's label, leaves all the rules of that account at that site as they were.
pub effective-set_rule_unread :
    (label bucket key : Text) (d : Decision) (t : PermissionMap) (origin a : Text)
    → reads_rules label bucket origin a ≡ false
    → effective_origin_permissions (set_rule label bucket key d t) origin a
      ≡ effective_origin_permissions t origin a
unfolding effective_origin_permissions origin_permission_bucket
effective-set_rule_unread label bucket key d t origin a n =
    rw
      (
        layer_scopes-set_rule label bucket key d t default_bucket (site_scopes global_rules_scope)
            (ground (arith, n)),
        layer_scopes-set_rule label bucket key d t a (site_scopes global_rules_scope)
            (ground (arith, n)),
        layer_scopes-set_rule label bucket key d t default_bucket (site_scopes origin)
            (ground (arith, n)),
        layer_scopes-set_rule label bucket key d t a (site_scopes origin) (ground (arith, n)),
      )
      refl
