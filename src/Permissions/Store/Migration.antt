-- ===== src/Permissions/Store/Migration.antt =====
-- How `#finishMigration` of packages/identity/src/permissions/store.ts ends, with a write rejected at
-- any point and when it is run again.
use nostr_wot_sdk.Prelude.{◌≡◌, ◌⊎◌, refl, true, false, ◌||◌, none, some, ℕ, suc, Text, arith}
use nostr_wot_sdk.Permissions.Host.{
  PendingMigration, Disk, Host, store_failed, migration_incomplete, ok, throw, ◌>>=◌, pure, read,
  write, then_invalidate, refuse_if, fail,
}
use nostr_wot_sdk.Permissions.Store.{
  apply_pending, complete, finish_migration, load, load_cached, check, get_for_origin, rules_from,
  active_bucket, get_use_global_defaults,
}
use nostr_wot_sdk.Permissions.Key.{Kind}
use nostr_wot_sdk.Permissions.Store.Coherence.{Coherent, Keeps-check, invalidated-Coherent}
use nostr_wot_sdk.Permissions.Store.Saves.{bucket_in_use, cold}

-- The store after a migration: the new tree, per-account rules, inheritance, and no record of the
-- migration.
abbrev pub migrated : PendingMigration → ℕ → Disk → Disk
migrated p left d = record d {
  permissions = some p.tree;
  use_global_defaults = some false;
  inheritance = true;
  global_rules_version = p.global || d.global_rules_version;
  migration_pending = none;
  writes = left;
}

abbrev pub with_writes : ℕ → Host → Host
with_writes n h = record h { disk = record h.disk { writes = n } }

-- A migration that is finished either returns, with the whole of it in the store, or throws and is
-- still recorded as pending.
pub finish_migration_lem :
    (p : PendingMigration) (h : Host)
    → h.disk.migration_pending ≡ some p
    → (((finish_migration h).0 ≡ ok tt)
        × ((finish_migration h).1.disk ≡ migrated p (finish_migration h).1.disk.writes h.disk))
      ⊎ (((finish_migration h).0 ≡ throw store_failed)
          × ((finish_migration h).1.disk.migration_pending ≡ some p))
unfolding finish_migration complete apply_pending write then_invalidate read pure ◌>>=◌
finish_migration_lem p h e = ground (arith, e)

-- A migration that a rejected write cut off is completed by another run that has enough writes: the
-- store is then what an uninterrupted run makes of the store that the first run began with.
pub finish_migration_again :
    (p : PendingMigration) (left : ℕ) (h : Host)
    → h.disk.migration_pending ≡ some p
    → (finish_migration h).0 ≡ throw store_failed
    → let again =
        finish_migration (with_writes (suc (suc (suc (suc (suc left))))) (finish_migration h).1) in
      (again.0 ≡ ok tt) × (again.1.disk ≡ migrated p again.1.disk.writes h.disk)
unfolding finish_migration complete apply_pending write then_invalidate read pure ◌>>=◌
finish_migration_again p left h e f = ground (arith, e, f)

check-pending_cold :
    (p : PendingMigration) (bucket origin method : Text) (kind : Kind) (account_id : Text)
    (d : Disk)
    → d.migration_pending ≡ some p
    → bucket_in_use d account_id ≡ some bucket
    → (check origin method kind account_id (cold d)).0 ≡ throw migration_incomplete
unfolding check get_for_origin rules_from active_bucket get_use_global_defaults load load_cached
    refuse_if read pure fail ◌>>=◌
check-pending_cold p bucket origin method kind account_id d e b = ground (arith, e, b)

-- With caches that agree with the store and a migration pending, a check of an account that has a
-- bucket in the mode in force throws: nothing is answered from a tree that may be half migrated.
pub check-pending :
    (p : PendingMigration) (bucket origin method : Text) (kind : Kind) (account_id : Text)
    (h : Host)
    → Coherent h
    → h.disk.migration_pending ≡ some p
    → bucket_in_use h.disk account_id ≡ some bucket
    → (check origin method kind account_id h).0 ≡ throw migration_incomplete
check-pending p bucket origin method kind account_id h c e b =
    let s =
      (Keeps-check origin method kind account_id).keeps h (cold h.disk)
        (record { disk = refl; left = c; right = invalidated-Coherent (cold h.disk) }) in
    rw (s.outcome) (check-pending_cold p bucket origin method kind account_id h.disk e b)
