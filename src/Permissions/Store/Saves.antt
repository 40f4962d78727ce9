-- ===== src/Permissions/Store/Saves.antt =====
-- What `saveDirect` of packages/identity/src/permissions/store.ts stores, and what stays where it
-- throws.
use nostr_wot_sdk.Prelude.{
  ◌≡◌, refl, subst, false, not, ◌&&◌, ◌||◌, Option, none, some, [], ◌∷◌, Text, text_eq, ◌==◌,
  if◌then◌else◌, arith, ℕ, suc, lookup, lookup-put,
}
use nostr_wot_sdk.Permissions.Key.{Decision}
use nostr_wot_sdk.Permissions.Scope.{storage_label}
use nostr_wot_sdk.Permissions.Host.{
  PermissionMap, Disk, Host, Error, empty_label, retired_key, relay_auth_allow, ok, throw, M, ◌>>=◌,
  pure, fail, refuse_if, require_label, read, write, then_invalidate, Outcome,
}
use nostr_wot_sdk.Permissions.Tree.{
  default_bucket, global_rules_scope, set_rule, bucket_at, is_empty,
}
use nostr_wot_sdk.Permissions.Tree.Layers.{bucket_at-set_rule}
use nostr_wot_sdk.Permissions.Store.{
  is_dm_key, relay_auth_key, is_allow, own_bucket, stored_default, stored_tree, bool_beq,
  get_use_global_defaults, active_bucket, required_bucket, write_bucket, load_cached, load, draft,
  commit, assert_rule_scope, write_rule, save_direct,
}
use nostr_wot_sdk.Permissions.Store.Coherence.{
  Coherent, Keeps, Keeps-write_rule, invalidated-Coherent,
}

-- The error a rule is refused with before the store is looked at, in the order of the source's tests.
unfoldable pub refusal : Text → Text → Decision → Option Error
refusal origin key decision =
    if is_empty origin || is_empty key
    then some empty_label
    else if is_dm_key key
    then some retired_key
    else if key == relay_auth_key && is_allow decision
    then some relay_auth_allow
    else none

-- The bucket that the store's mode gives the account.
abbrev pub bucket_in_use : Disk → Text → Option Text
bucket_in_use d account_id =
    if not d.inheritance && stored_default d then some default_bucket else own_bucket account_id

-- The store after a rule is written.
abbrev pub with_rule : Text → Text → Text → Decision → ℕ → Disk → Disk
with_rule label bucket key decision left d = record d {
  permissions = some (set_rule label bucket key decision (stored_tree d));
  writes = left;
}

abbrev pub cold : Disk → Host
cold d = record { disk = d; cached_perms = none; cached_use_global_defaults = none }

write_rule-cold :
    (label bucket key : Text) (decision : Decision) (account_id : Text) (left : ℕ) (d : Disk)
    → bucket_in_use d account_id ≡ some bucket
    → d.migration_pending ≡ none
    → d.writes ≡ suc left
    → (d.global_rules_version
        && not (bool_beq (label == global_rules_scope) (bucket == default_bucket)))
      ≡ false
    → write_rule label key decision account_id (cold d)
      ≡ (ok tt, cold (with_rule label bucket key decision left d))
unfolding write_rule write_bucket active_bucket get_use_global_defaults required_bucket
    assert_rule_scope draft load load_cached commit refuse_if write then_invalidate read pure fail
    ◌>>=◌
write_rule-cold label bucket key decision account_id left d b p w s = ground arith

save_direct-write_rule :
    (origin key : Text) (decision : Decision) (account_id : Text) (h : Host)
    → refusal origin key decision ≡ none
    → save_direct origin key decision account_id h
      ≡ write_rule (storage_label origin) key decision account_id h
unfolding refusal save_direct refuse_if require_label ◌>>=◌
save_direct-write_rule [] key decision account_id h r = ground (arith, r)
save_direct-write_rule (c ∷ s) [] decision account_id h r = ground (arith, r)
save_direct-write_rule (c ∷ s) (b ∷ t) decision account_id h r = ground (arith, r)

-- Hosts with coherent caches and the same store have the same outcome and store.
pub from_cold {ℓ} :
    {A : Type ℓ} {m : M A} (h : Host) (o : Outcome A) (d : Disk)
    → Keeps m
    → Coherent h
    → m (cold h.disk) ≡ (o, cold d)
    → ((m h).0 ≡ o) × ((m h).1.disk ≡ d)
from_cold {m = m} h o d k c e =
    let s =
      k.keeps h (cold h.disk)
        (record { disk = refl; left = c; right = invalidated-Coherent (cold h.disk) }) in
    (subst (λ r. (m h).0 ≡ r.0) e s.outcome, subst (λ r. (m h).1.disk ≡ r.1.disk) e s.hosts.disk)

pub save_direct-with_rule :
    (origin key bucket : Text) (decision : Decision) (account_id : Text) (left : ℕ) (h : Host)
    → Coherent h
    → refusal origin key decision ≡ none
    → bucket_in_use h.disk account_id ≡ some bucket
    → h.disk.migration_pending ≡ none
    → h.disk.writes ≡ suc left
    → (h.disk.global_rules_version
        && not (bool_beq (storage_label origin == global_rules_scope) (bucket == default_bucket)))
      ≡ false
    → ((save_direct origin key decision account_id h).0 ≡ ok tt)
      × ((save_direct origin key decision account_id h).1.disk
          ≡ with_rule (storage_label origin) bucket key decision left h.disk)
save_direct-with_rule origin key bucket decision account_id left h c r b p w s =
    rw (save_direct-write_rule origin key decision account_id h r) (
      from_cold h (ok tt) (with_rule (storage_label origin) bucket key decision left h.disk)
        (Keeps-write_rule _ key decision account_id) c
        (write_rule-cold _ bucket key decision account_id left h.disk b p w s))

-- Every rule of the tree after one was set.
pub lookup-set_rule :
    (l b key : Text) (d : Decision) (t : PermissionMap) (s c k : Text)
    → lookup k (bucket_at (set_rule l b key d t) s c)
      ≡ (if l == s && b == c && key == k then some d else lookup k (bucket_at t s c))
lookup-set_rule l b key d t s c k =
    rw (bucket_at-set_rule l b key d t s c) (ground (arith, lookup-put key k d (bucket_at t s c)))

-- A rule that may be stored (its origin and key are not empty, the key is no retired one of direct
-- messages, and it does not allow relay authentication in general) is stored. The bucket that the mode
-- gives the account then holds the decision under the key and the site's own label; every other rule of
-- every bucket of every site is as it was, and so is the rest of the store but for the count of writes.
-- It needs coherent caches, no migration left half done, a store that accepts one more write, and, where
-- global rules are consolidated, a label and a bucket that are both the global ones or neither.
pub save_direct_lem :
    (origin key bucket : Text) (decision : Decision) (account_id : Text) (left : ℕ) (h : Host)
    → Coherent h
    → refusal origin key decision ≡ none
    → bucket_in_use h.disk account_id ≡ some bucket
    → h.disk.migration_pending ≡ none
    → h.disk.writes ≡ suc left
    → (h.disk.global_rules_version
        && not (bool_beq (storage_label origin == global_rules_scope) (bucket == default_bucket)))
      ≡ false
    → let after = save_direct origin key decision account_id h in
      (after.0 ≡ ok tt)
      × (after.1.disk ≡ record h.disk { permissions = after.1.disk.permissions; writes = left })
      × ((l b k : Text)
          → lookup k (bucket_at (stored_tree after.1.disk) l b) ≡ (
              if storage_label origin == l && bucket == b && key == k
              then some decision
              else lookup k (bucket_at (stored_tree h.disk) l b)))
save_direct_lem origin key bucket decision account_id left h c r b p w s =
    let (returned, disk) =
      save_direct-with_rule origin key bucket decision account_id left h c r b p w s in
    (
      returned,
      rw disk refl,
      λ l b k.
          rw disk
            (lookup-set_rule (storage_label origin) bucket key decision (stored_tree h.disk) l b k),
    )

-- A rule that is not stored leaves the store as it was, whatever went wrong.
pub save_direct-throw :
    (origin key : Text) (decision : Decision) (account_id : Text) (e : Error) (h : Host)
    → (save_direct origin key decision account_id h).0 ≡ throw e
    → (save_direct origin key decision account_id h).1.disk ≡ h.disk
unfolding save_direct write_rule write_bucket active_bucket get_use_global_defaults required_bucket
    assert_rule_scope draft load load_cached commit refuse_if require_label write then_invalidate
    read pure fail ◌>>=◌
save_direct-throw origin key decision account_id e h t = ground (arith, t)
