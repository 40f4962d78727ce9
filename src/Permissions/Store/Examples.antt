-- ===== src/Permissions/Store/Examples.antt =====
-- The permission store at a small tree: one site, two accounts, a rule for everybody.
use nostr_wot_sdk.Prelude.{
  ◌≡◌, ◌⊎◌, inl, refl, true, false, none, some, List, [], ◌∷◌, Text, text, text_eq, text_beq, ◌==◌,
  ◌≢◌, ◌&&◌, if◌then◌else◌, any, starts_with, lookup, put, remove, decimal, pos, int_eq, int_beq,
  show_int,
}
use nostr_wot_sdk.Permissions.Key.{
  Decision, allow, deny, ask, integer, sign_event, star, is_dm_kind, kind_key, sign_event_key,
  permission_key, consulted_keys, first_deny, first_rule, resolve_consulted, resolve_detailed,
  resolve,
}
use nostr_wot_sdk.Permissions.Scope.Chars.{
  lower, split_on, split_colons, join, cut_at, parse_digits, show_hex,
}
use nostr_wot_sdk.Permissions.Scope.Ipv4.{
  is_ipv4_part, part_value, part_values, weigh, dotted, address_of, host_parts, canonical_ipv4,
}
use nostr_wot_sdk.Permissions.Scope.{
  origin_shape, is_domain, authority_parts, canonical_domain, canonical_host, canonical_port,
  origin_of_parts, canonical_origin, canonical_http_origin, after_slashes, hostname_of, site_scopes,
  storage_label,
}
use nostr_wot_sdk.Permissions.Host.{
  PermissionMap, PendingMigration, Disk, relay_auth_allow, store_failed, migration_incomplete, ok,
  throw, ◌>>=◌, pure, fail, refuse_if, require_label, read, write, then_invalidate,
}
use nostr_wot_sdk.Permissions.Tree.{
  overlay, bucket_at, layer_scopes, origin_permission_bucket, effective_origin_permissions,
  set_rule, drop_scopes,
}
use nostr_wot_sdk.Permissions.Store.{
  dm_permission_keys, is_dm_key, relay_auth_key, stored_tree, get_use_global_defaults,
  active_bucket, required_bucket, write_bucket, load_cached, load, draft, commit, rules_from,
  get_for_origin, or_invalid, check, assert_rule_scope, write_rule, save_direct, apply_pending,
  complete, finish_migration,
}
use nostr_wot_sdk.Permissions.Store.Calls.{
  Call, run_calls, run_uncached, check_call, save_direct_call, finish_migration_call,
  migrate_dm_kinds_call, migrate_to_inheritance_call,
}
use nostr_wot_sdk.Permissions.Store.Coherence.{Coherent}
use nostr_wot_sdk.Permissions.Store.Coherence.Refinement.{run_calls-run_uncached}
use nostr_wot_sdk.Permissions.Store.Saves.{refusal, cold, save_direct_lem, save_direct-throw}
use nostr_wot_sdk.Permissions.Store.Guards.{save_direct-guards}
use nostr_wot_sdk.Permissions.Store.Answers.{
  rules_in_use, check_lem, check-save_deny, check-save_unread,
}
use nostr_wot_sdk.Permissions.Store.Migration.{
  migrated, with_writes, finish_migration_lem, finish_migration_again, check-pending,
}

program : Unit {0}
unfolding is_dm_kind kind_key sign_event_key permission_key consulted_keys first_deny first_rule
    resolve_consulted resolve_detailed resolve lower split_on split_colons join cut_at parse_digits
    show_hex is_ipv4_part part_value part_values weigh dotted address_of host_parts canonical_ipv4
    origin_shape is_domain authority_parts canonical_domain canonical_host canonical_port
    origin_of_parts canonical_origin canonical_http_origin after_slashes hostname_of site_scopes
    storage_label ◌>>=◌ pure fail refuse_if require_label read write then_invalidate overlay
    bucket_at layer_scopes origin_permission_bucket effective_origin_permissions set_rule
    drop_scopes dm_permission_keys is_dm_key relay_auth_key get_use_global_defaults active_bucket
    required_bucket write_bucket load_cached load draft commit rules_from get_for_origin or_invalid
    check assert_rule_scope write_rule save_direct apply_pending complete finish_migration refusal
    lookup put remove text_beq starts_with int_beq show_int decimal
program = tt

abbrev shop : Text
shop = text "https://shop.example"

abbrev news : Text
news = text "https://news.example"

abbrev note_key : Text
note_key = text "signEvent:1"

abbrev tree : PermissionMap
tree =
    (text "_global", (text "_default", (sign_event, allow) ∷ []) ∷ [])
    ∷ (shop, (text "a1", (note_key, ask) ∷ []) ∷ (text "a2", (star, allow) ∷ []) ∷ [])
    ∷ []

abbrev disk : Disk
disk = record {
  permissions = some tree;
  use_global_defaults = some false;
  inheritance = true;
  global_rules_version = true;
  migration_pending = none;
  authentication_grants = [];
  default_backend_auth = [];
  writes = 3;
}

abbrev pending : PendingMigration
pending = record { tree = tree; global = true }

-- A migration to the same tree that the store cuts off at its fourth write.
abbrev migrating : Disk
migrating = record disk { migration_pending = some pending }

cold-Coherent : (d : Disk) → Coherent (cold d)
cold-Coherent d = record { perms = inl refl; mode = inl refl }

abbrev calls : List Call
calls =
    check_call shop sign_event (integer (pos 1)) (text "a1")
    ∷ save_direct_call shop note_key deny (text "a1")
    ∷ check_call shop sign_event (integer (pos 1)) (text "a1")
    ∷ migrate_dm_kinds_call
    ∷ migrate_to_inheritance_call (text "a1" ∷ [])
    ∷ finish_migration_call
    ∷ []

note_signed : (check shop sign_event (integer (pos 1)) (text "a2") (cold disk)).0 ≡ ok allow
unfolding program
note_signed = refl

note_asks : (check shop sign_event (integer (pos 1)) (text "a1") (cold disk)).0 ≡ ok ask
unfolding program
note_asks = refl

run_calls-run_uncached_example :
    ((run_calls calls (cold disk)).0 ≡ (run_uncached calls (cold disk)).0)
    × ((run_calls calls (cold disk)).1.disk ≡ (run_uncached calls (cold disk)).1.disk)
run_calls-run_uncached_example = run_calls-run_uncached calls (cold disk) (cold-Coherent disk)

save_direct-guards_example :
    let before = bucket_at tree shop (text "a1") in
    let after =
      bucket_at
        (stored_tree (save_direct shop relay_auth_key deny (text "a1") (cold disk)).1.disk)
        shop
        (text "a1") in
    (lookup (text "signEvent:4") after ≡ lookup (text "signEvent:4") before)
    × ((lookup relay_auth_key after ≡ lookup relay_auth_key before)
        ⊎ (lookup relay_auth_key after ≢ some allow))
unfolding program
save_direct-guards_example =
    save_direct-guards shop relay_auth_key deny (text "a1") (cold disk) shop (text "a1")
      (text "signEvent:4") (cold-Coherent disk) refl

save_direct_lem_example :
    let after = save_direct shop note_key deny (text "a1") (cold disk) in
    (after.0 ≡ ok tt)
    × (after.1.disk ≡ record disk { permissions = after.1.disk.permissions; writes = 2 })
    × ((l b k : Text)
        → lookup k (bucket_at (stored_tree after.1.disk) l b) ≡ (
            if storage_label shop == l && text "a1" == b && note_key == k
            then some deny
            else lookup k (bucket_at (stored_tree disk) l b)))
unfolding program
save_direct_lem_example =
    save_direct_lem shop note_key (text "a1") deny (text "a1") 2 (cold disk) (cold-Coherent disk)
      refl refl refl refl refl

save_direct-throw_example :
    (save_direct shop (text "signEvent:22242") allow (text "a1") (cold disk)).1.disk ≡ disk
unfolding program
save_direct-throw_example =
    save_direct-throw shop (text "signEvent:22242") allow (text "a1") relay_auth_allow (cold disk)
      refl

check_lem_example :
    (d : Decision) × (resolve (rules_in_use disk shop (text "a1")) sign_event (integer (pos 1))
      ≡ some d)
    × ((check shop sign_event (integer (pos 1)) (text "a1") (cold disk)).0 ≡ ok d)
check_lem_example =
    check_lem shop sign_event (integer (pos 1)) (text "a1") (cold disk) (cold-Coherent disk) refl

check-save_deny_example :
    (check shop sign_event
      (integer (pos 1))
      (text "a1")
      (save_direct shop note_key deny (text "a1") (cold disk)).1).0
    ≡ ok deny
unfolding program
check-save_deny_example =
    check-save_deny shop note_key sign_event (integer (pos 1)) (text "a1") 2 (cold disk)
      (cold-Coherent disk) refl refl refl refl refl refl (refl, tt)
      (note_key ∷ sign_event ∷ star ∷ []) refl (inl refl)

check-save_unread_example :
    (check news sign_event
      (integer (pos 1))
      (text "a1")
      (save_direct shop note_key deny (text "a1") (cold disk)).1).0
    ≡ (check news sign_event (integer (pos 1)) (text "a1") (cold disk)).0
unfolding program
check-save_unread_example =
    check-save_unread shop note_key deny (text "a1") news sign_event (integer (pos 1)) (text "a1")
      (cold disk) (cold-Coherent disk) refl refl refl refl refl

finish_migration_lem_example :
    (((finish_migration (cold migrating)).0 ≡ ok tt)
      × ((finish_migration (cold migrating)).1.disk
          ≡ migrated pending (finish_migration (cold migrating)).1.disk.writes migrating))
    ⊎ (((finish_migration (cold migrating)).0 ≡ throw store_failed)
        × ((finish_migration (cold migrating)).1.disk.migration_pending ≡ some pending))
finish_migration_lem_example = finish_migration_lem pending (cold migrating) refl

finish_migration_again_example :
    let again = finish_migration (with_writes 7 (finish_migration (cold migrating)).1) in
    (again.0 ≡ ok tt) × (again.1.disk ≡ migrated pending again.1.disk.writes migrating)
unfolding program
finish_migration_again_example = finish_migration_again pending 2 (cold migrating) refl refl

check-pending_example :
    (check shop sign_event (integer (pos 1)) (text "a1") (cold migrating)).0
    ≡ throw migration_incomplete
check-pending_example =
    check-pending pending (text "a1") shop sign_event (integer (pos 1)) (text "a1") (cold migrating)
      (cold-Coherent migrating) refl refl

-- A grant under a mere hostname is not one of those that go with an exact origin of it.
hostname_grant_stays :
    any (λ s. s == storage_label shop) (site_scopes (text "shop.example")) ≡ false
unfolding program
hostname_grant_stays = refl
