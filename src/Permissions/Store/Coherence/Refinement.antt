-- ===== src/Permissions/Store/Coherence/Refinement.antt =====
-- The class `Permissions` of store.ts with its caches does what it does without them.
use nostr_wot_sdk.Prelude.{◌≡◌, refl, List, [], ◌∷◌}
use nostr_wot_sdk.Permissions.Host.{Host, M, ◌>>=◌, pure, invalidated}
use nostr_wot_sdk.Permissions.Store.{save, get_all_raw}
use nostr_wot_sdk.Permissions.Store.Calls.{
  Call, run_call, run_calls, run_uncached, get_use_global_defaults_call, get_all_raw_call,
  reset_account_rules_call, finish_migration_call, set_use_global_defaults_call,
  get_for_origin_call, check_blanket_sign_event_call, clear_call, inherit_bucket_call, get_all_call,
  get_for_origin_raw_call, clear_everything_call, clear_all_for_origin_call, clear_for_account_call,
  check_call, save_direct_call, save_retired_key_call, save_call, copy_permissions_call, setup_call,
  inherit_rule_call, revoke_call, migrate_forward_to_ask_call, migrate_dm_kinds_call,
  migrate_to_inheritance_call,
}
use nostr_wot_sdk.Permissions.Store.Coherence.{
  Coherent, Agree, Keeps, Keeps-bind, Keeps-pure, invalidated-Coherent, Keeps-get_for_origin,
  Keeps-check, Keeps-check_blanket_sign_event, Keeps-get_all, Keeps-get_for_origin_raw,
  Keeps-get_use_global_defaults, Keeps-set_use_global_defaults, Keeps-save_direct, Keeps-save_under,
  Keeps-save_retired_key, Keeps-load,
}
use nostr_wot_sdk.Permissions.Store.Coherence.Methods
use nostr_wot_sdk.Permissions.Store.Coherence.Migrating

Keeps-map {ℓ κ} :
    {A : Type ℓ} {B : Type κ} (f : A → B) {m : M A} → Keeps m → Keeps (m >>= λ a. pure (f a))
Keeps-map f p = Keeps-bind p (λ a. Keeps-pure (f a))

Keeps-run_call : (c : Call) → Keeps (run_call c)
unfolding run_call save get_all_raw
Keeps-run_call get_use_global_defaults_call = Keeps-map _ Keeps-get_use_global_defaults
Keeps-run_call get_all_raw_call = Keeps-map _ Keeps-load
Keeps-run_call reset_account_rules_call = Keeps-map _ Methods.Keeps-reset_account_rules
Keeps-run_call finish_migration_call = Keeps-map _ Methods.Keeps-finish_migration
Keeps-run_call migrate_forward_to_ask_call = Keeps-map _ Migrating.Keeps-migrate_forward_to_ask
Keeps-run_call migrate_dm_kinds_call = Keeps-map _ Migrating.Keeps-migrate_dm_kinds
Keeps-run_call (migrate_to_inheritance_call ids) =
    Keeps-map _ (Migrating.Keeps-migrate_to_inheritance ids)
Keeps-run_call (set_use_global_defaults_call b) = Keeps-map _ (Keeps-set_use_global_defaults b)
Keeps-run_call (get_for_origin_call o a) = Keeps-map _ (Keeps-get_for_origin o a)
Keeps-run_call (check_blanket_sign_event_call o a) =
    Keeps-map _ (Keeps-check_blanket_sign_event o a)
Keeps-run_call (clear_call o a) = Keeps-map _ (Methods.Keeps-clear o a)
Keeps-run_call (inherit_bucket_call o a) = Keeps-map _ (Methods.Keeps-clear_rule_bucket o a)
Keeps-run_call (get_all_call a) = Keeps-map _ (Keeps-get_all a)
Keeps-run_call (get_for_origin_raw_call o) = Keeps-map _ (Keeps-get_for_origin_raw o)
Keeps-run_call (clear_everything_call a) = Keeps-map _ (Methods.Keeps-clear_everything a)
Keeps-run_call (clear_all_for_origin_call o) = Keeps-map _ (Methods.Keeps-clear_all_for_origin o)
Keeps-run_call (clear_for_account_call a) = Keeps-map _ (Methods.Keeps-clear_for_account a)
Keeps-run_call (check_call o m k a) = Keeps-map _ (Keeps-check o m k a)
Keeps-run_call (save_direct_call o k d a) = Keeps-map _ (Keeps-save_direct o k d a)
Keeps-run_call (save_retired_key_call o k d a) = Keeps-map _ (Keeps-save_retired_key o k d a)
Keeps-run_call (save_call o m k d a) = Keeps-map _ (Keeps-save_under _ o d a)
Keeps-run_call (copy_permissions_call f t) = Keeps-map _ (Methods.Keeps-copy_permissions f t)
Keeps-run_call (setup_call n ids f) =
    Keeps-map _ (Methods.Keeps-setup_new_account_permissions n ids f)
Keeps-run_call (inherit_rule_call o k a) = Keeps-map _ (Methods.Keeps-inherit_rule o k a)
Keeps-run_call (revoke_call f) = Keeps-map _ (Methods.Keeps-revoke f)

-- An instance and an emptied one agree when they have the same store.
Agree-invalidated : (h k : Host) → Agree h k → Agree h (invalidated k)
Agree-invalidated h k a = record { disk = a.disk; left = a.left; right = invalidated-Coherent k }

run_calls-Agree :
    (cs : List Call) (h k : Host)
    → Agree h k
    → ((run_calls cs h).0 ≡ (run_uncached cs k).0)
      × ((run_calls cs h).1.disk ≡ (run_uncached cs k).1.disk)
unfolding run_calls run_uncached
run_calls-Agree [] h k a = (refl, a.disk)
run_calls-Agree (c ∷ cs) h k a =
    let s = (Keeps-run_call c).keeps h (invalidated k) (Agree-invalidated h k a) in
    let later = run_calls-Agree cs (run_call c h).1 (run_call c (invalidated k)).1 s.hosts in
    (cc, later.1)

-- Whatever calls follow one another on an instance with coherent caches, rejected writes and errors
-- included, each call's outcome and the store in the end are those of the same calls made without
-- caches, each by a new instance that reads the store. The calls are those of `Call`: all methods but
-- migrate, migrateToPerKind, migrateToPerAccount and migrateToGlobalRules.
pub run_calls-run_uncached :
    (cs : List Call) (h : Host)
    → Coherent h
    → ((run_calls cs h).0 ≡ (run_uncached cs h).0)
      × ((run_calls cs h).1.disk ≡ (run_uncached cs h).1.disk)
run_calls-run_uncached cs h c = run_calls-Agree cs h h (record { disk = refl; left = c; right = c })
