-- ===== src/Permissions/Store/Guards.antt =====
-- The rules that `saveDirect` of packages/identity/src/permissions/store.ts keeps out of the tree.
use nostr_wot_sdk.Prelude.{
  ◌≡◌, ◌≢◌, refl, sym, subst, Bool-cases, false, ◌&&◌, Option, none, some, Text, text_eq, ◌==◌,
  arith, ℕ, suc, zero, ◌⊎◌, inl, inr, true, lookup, ==_iff,
}
use nostr_wot_sdk.Permissions.Key.{Decision, allow}
use nostr_wot_sdk.Permissions.Scope.{storage_label}
use nostr_wot_sdk.Permissions.Host.{
  PermissionMap, Disk, Host, ◌>>=◌, pure, fail, refuse_if, require_label, read, write,
  then_invalidate,
}
use nostr_wot_sdk.Permissions.Tree.{default_bucket, set_rule, bucket_at}
use nostr_wot_sdk.Permissions.Store.{
  is_dm_key, relay_auth_key, is_allow, stored_tree, get_use_global_defaults, active_bucket,
  required_bucket, write_bucket, load_cached, load, draft, commit, assert_rule_scope, write_rule,
  save_direct,
}
use nostr_wot_sdk.Permissions.Store.Coherence.{Coherent, Keeps-save_direct, invalidated-Coherent}
use nostr_wot_sdk.Permissions.Store.Saves.{bucket_in_use, with_rule, cold, lookup-set_rule}

abbrev pred : ℕ → ℕ
pred zero = zero
pred (suc n) = n

abbrev or_default : Option Text → Text
or_default none = default_bucket
or_default (some bucket) = bucket

-- What a rule that is stored does to the store; a rule that is refused does nothing.
save_direct-cold :
    (origin key : Text) (decision : Decision) (account_id : Text) (d : Disk)
    → ((save_direct origin key decision account_id (cold d)).1.disk ≡ d)
      ⊎ ((is_dm_key key ≡ false)
          × (key == relay_auth_key && is_allow decision ≡ false)
          × ((save_direct origin key decision account_id (cold d)).1.disk
              ≡ with_rule
                  (storage_label origin)
                  (or_default (bucket_in_use d account_id))
                  key
                  decision
                  (pred d.writes)
                  d))
unfolding save_direct write_rule write_bucket active_bucket get_use_global_defaults required_bucket
    assert_rule_scope draft load load_cached commit refuse_if require_label write then_invalidate
    read pure fail ◌>>=◌
save_direct-cold origin key decision account_id d = ground arith

retired-set_rule :
    (label bucket key k : Text) (decision : Decision) (t : PermissionMap) (l b : Text)
    → is_dm_key key ≡ false
    → is_dm_key k ≡ true
    → lookup k (bucket_at (set_rule label bucket key decision t) l b) ≡ lookup k (bucket_at t l b)
retired-set_rule label bucket key k decision t l b dm retired =
    let other : key == k ≡ false = elim (Bool-cases (key == k)) [
      | inl same ↦
          let same_class : is_dm_key key ≡ true =
            subst (λ (x : Text). is_dm_key x ≡ true) (sym ((==_iff key k).0 same)) retired in
          absurd (ground (arith, dm, same_class))
      | inr differ ↦ differ
    ] in
    rw (lookup-set_rule label bucket key decision t l b k) (ground (arith, other))

relay_auth-set_rule :
    (label bucket key : Text) (decision : Decision) (t : PermissionMap) (l b : Text)
    → key == relay_auth_key && is_allow decision ≡ false
    → (lookup relay_auth_key (bucket_at (set_rule label bucket key decision t) l b)
        ≡ lookup relay_auth_key (bucket_at t l b))
      ⊎ (lookup relay_auth_key (bucket_at (set_rule label bucket key decision t) l b) ≢ some allow)
relay_auth-set_rule label bucket key decision t l b relay =
    rw (lookup-set_rule label bucket key decision t l b relay_auth_key)
      (elim (Bool-cases (label == l && bucket == b && key == relay_auth_key)) [
        | inl hit ↦ inr (λ e. ground (arith, relay, hit, e))
        | inr miss ↦ inl (ground (arith, miss))
      ])

-- With caches that agree with the store, whatever rule `saveDirect` is asked to save and whether it saves
-- it or throws, in no bucket of any site is a rule under a retired key for direct messages added, changed
-- or removed, and the rule for relay authentication in general is as it was or does not allow.
pub save_direct-guards :
    (origin key : Text) (decision : Decision) (account_id : Text) (h : Host)
    (label bucket retired : Text)
    → Coherent h
    → is_dm_key retired ≡ true
    → let before = bucket_at (stored_tree h.disk) label bucket in
      let after =
        bucket_at
          (stored_tree (save_direct origin key decision account_id h).1.disk)
          label
          bucket in
      (lookup retired after ≡ lookup retired before)
      × ((lookup relay_auth_key after ≡ lookup relay_auth_key before)
          ⊎ (lookup relay_auth_key after ≢ some allow))
save_direct-guards origin key decision account_id h label bucket retired c r =
    let same =
      (Keeps-save_direct origin key decision account_id).keeps h (cold h.disk)
        (record { disk = refl; left = c; right = invalidated-Coherent (cold h.disk) }) in
    elim (save_direct-cold origin key decision account_id h.disk) [
      | inl unchanged ↦ rw (same.hosts.disk, unchanged) ((refl, inl refl))
      | inr (dm, relay, written) ↦
          rw (same.hosts.disk, written)
            ((
              retired-set_rule (storage_label origin) _ key retired decision (stored_tree h.disk)
                  label bucket dm r,
              relay_auth-set_rule (storage_label origin) _ key decision (stored_tree h.disk) label
                  bucket relay,
            ))
    ]
