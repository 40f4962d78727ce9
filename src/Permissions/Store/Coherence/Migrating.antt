-- ===== src/Permissions/Store/Coherence/Migrating.antt =====
-- The migrations migrateForwardToAsk, migrateDmKindsToSendMessages and migrateToInheritance of store.ts,
-- and the caches that they leave.
use nostr_wot_sdk.Prelude.{refl, Bool, Option, List, Text}
use nostr_wot_sdk.Permissions.Key.{Bucket}
use nostr_wot_sdk.Permissions.Host.{PermissionMap, PendingMigration, Disk, write}
use nostr_wot_sdk.Permissions.Migrations.{
  migrate_buckets, migrate_forward_to_ask, migrate_dm_kinds_to_send_messages, migration_accounts,
  start_inheritance, migrate_to_inheritance,
}
use nostr_wot_sdk.Permissions.Store.Coherence.{Keeps, Keeps-write, store_rules}
use nostr_wot_sdk.Permissions.Store.Coherence.Methods.{Keeps-finish_migration}

Keeps-migrate_buckets : (f : Bucket → Bucket × Bool) → Keeps (migrate_buckets f)
unfolding migrate_buckets
Keeps-migrate_buckets f = search store_rules depth 14

pub Keeps-migrate_forward_to_ask : Keeps migrate_forward_to_ask
unfolding migrate_forward_to_ask
Keeps-migrate_forward_to_ask = Keeps-migrate_buckets _

pub Keeps-migrate_dm_kinds : Keeps migrate_dm_kinds_to_send_messages
unfolding migrate_dm_kinds_to_send_messages
Keeps-migrate_dm_kinds = Keeps-migrate_buckets _

Keeps-migration_accounts : (t : PermissionMap) (ids : List Text) → Keeps (migration_accounts t ids)
unfolding migration_accounts
Keeps-migration_accounts t ids = search store_rules depth 14

Keeps-write_pending :
    (f : Disk → Option PendingMigration) → Keeps (write (λ d. record d { migration_pending = f d }))
Keeps-write_pending f = Keeps-write _ (λ d. (refl, refl))

Keeps-start_inheritance : (ids : List Text) → Keeps (start_inheritance ids)
unfolding start_inheritance
Keeps-start_inheritance ids =
    search (store_rules, Keeps-migration_accounts, Keeps-write_pending, Keeps-finish_migration)
      depth 14

pub Keeps-migrate_to_inheritance : (ids : List Text) → Keeps (migrate_to_inheritance ids)
unfolding migrate_to_inheritance
Keeps-migrate_to_inheritance ids =
    search (store_rules, Keeps-finish_migration, Keeps-start_inheritance) depth 14
