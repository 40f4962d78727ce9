-- ===== src/Permissions/Store/Calls.antt =====
-- The methods of the class `Permissions` of store.ts as calls, the sequences of calls on one instance,
-- and the same sequence without caches, where each call has a new instance on the same store. The four
-- migrations that start from flat trees or consolidate global rules (migrate, migrateToPerKind,
-- migrateToPerAccount, migrateToGlobalRules) are not among the calls.
use nostr_wot_sdk.Prelude.{Bool, Option, List, [], ◌∷◌, Text}
use nostr_wot_sdk.Permissions.Key.{Decision, Kind, Bucket}
use nostr_wot_sdk.Permissions.Host.{
  PermissionMap, OriginPermissions, Host, Outcome, M, ◌>>=◌, pure, invalidated,
}
use nostr_wot_sdk.Permissions.Grants.{revoke, GrantFilter}
use nostr_wot_sdk.Permissions.Migrations.{
  migrate_forward_to_ask, migrate_dm_kinds_to_send_messages, migrate_to_inheritance,
}
use nostr_wot_sdk.Permissions.Store.{
  set_use_global_defaults, get_use_global_defaults, get_for_origin, get_all, get_all_raw,
  get_for_origin_raw, check, check_blanket_sign_event, save_direct, save, save_retired_key,
  clear_everything, clear, clear_all_for_origin, clear_for_account, copy_permissions,
  setup_new_account_permissions, reset_account_rules, inherit_rule, clear_rule_bucket,
  finish_migration,
}

-- A call of a method, and what it returned.
pub data Call : Type 0 where
  get_use_global_defaults_call get_all_raw_call reset_account_rules_call finish_migration_call :
      Call
  migrate_forward_to_ask_call migrate_dm_kinds_call : Call
  migrate_to_inheritance_call : List Text → Call
  set_use_global_defaults_call : Bool → Call
  get_for_origin_call check_blanket_sign_event_call clear_call inherit_bucket_call :
      Text → Text → Call
  get_all_call get_for_origin_raw_call clear_everything_call : Text → Call
  clear_all_for_origin_call clear_for_account_call : Text → Call
  check_call : Text → Text → Kind → Text → Call
  save_direct_call save_retired_key_call : Text → Text → Decision → Text → Call
  save_call : Text → Text → Kind → Decision → Text → Call
  copy_permissions_call : Option Text → Text → Call
  setup_call : Text → List Text → Option Text → Call
  inherit_rule_call : Text → Text → Text → Call
  revoke_call : GrantFilter → Call

pub data Answered : Type 0 where
  done : Answered
  mode : Bool → Answered
  decided : Decision → Answered
  rules : Bucket → Answered
  listing : List (Text × Bucket) → Answered
  tree : PermissionMap → Answered
  buckets : OriginPermissions → Answered

abbrev done_by : M (Unit {0}) → M Answered
done_by m = m >>= λ _. pure done

unfoldable pub run_call : Call → M Answered
run_call get_use_global_defaults_call = get_use_global_defaults >>= λ b. pure (mode b)
run_call get_all_raw_call = get_all_raw >>= λ t. pure (tree t)
run_call reset_account_rules_call = done_by reset_account_rules
run_call finish_migration_call = done_by finish_migration
run_call migrate_forward_to_ask_call = done_by migrate_forward_to_ask
run_call migrate_dm_kinds_call = done_by migrate_dm_kinds_to_send_messages
run_call (migrate_to_inheritance_call ids) = done_by (migrate_to_inheritance ids)
run_call (set_use_global_defaults_call b) = done_by (set_use_global_defaults b)
run_call (get_for_origin_call o a) = get_for_origin o a >>= λ r. pure (rules r)
run_call (check_blanket_sign_event_call o a) =
    check_blanket_sign_event o a >>= λ d. pure (decided d)
run_call (clear_call o a) = done_by (clear o a)
run_call (inherit_bucket_call o a) = done_by (clear_rule_bucket o a)
run_call (get_all_call a) = get_all a >>= λ l. pure (listing l)
run_call (get_for_origin_raw_call o) = get_for_origin_raw o >>= λ b. pure (buckets b)
run_call (clear_everything_call a) = done_by (clear_everything a)
run_call (clear_all_for_origin_call o) = done_by (clear_all_for_origin o)
run_call (clear_for_account_call a) = done_by (clear_for_account a)
run_call (check_call o m k a) = check o m k a >>= λ d. pure (decided d)
run_call (save_direct_call o k d a) = done_by (save_direct o k d a)
run_call (save_retired_key_call o k d a) = done_by (save_retired_key o k d a)
run_call (save_call o m k d a) = done_by (save o m k d a)
run_call (copy_permissions_call f t) = done_by (copy_permissions f t)
run_call (setup_call n ids f) = done_by (setup_new_account_permissions n ids f)
run_call (inherit_rule_call o k a) = done_by (inherit_rule o k a)
run_call (revoke_call f) = done_by (revoke f)

-- The calls in order on one instance.
unfoldable pub run_calls : List Call → Host → List (Outcome Answered) × Host
run_calls [] h = ([], h)
run_calls (c ∷ cs) h =
    let (o, next) = run_call c h in let (os, last) = run_calls cs next in (o ∷ os, last)

-- The calls in order, each with empty caches.
unfoldable pub run_uncached : List Call → Host → List (Outcome Answered) × Host
run_uncached [] h = ([], h)
run_uncached (c ∷ cs) h =
    let (o, next) = run_call c (invalidated h) in
    let (os, last) = run_uncached cs next in (o ∷ os, last)
