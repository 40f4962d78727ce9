-- ===== src/Permissions/Store/Coherence/Methods.antt =====
-- The methods of the class `Permissions` of store.ts that clear, copy and set up rules, and the caches
-- that they leave.
use nostr_wot_sdk.Prelude.{refl, Bool, Option, none, some, List, [], ◌∷◌, Text}
use nostr_wot_sdk.Permissions.Host.{PendingMigration, AuthenticationGrant, Disk, write}
use nostr_wot_sdk.Permissions.Grants.{revoke, GrantFilter, list_grants, require_option}
use nostr_wot_sdk.Permissions.Store.{
  clear_everything, clear, clear_all_for_origin, clear_for_account, copy_permissions,
  preserve_accounts, setup_inheriting, copy_or_clear, setup_legacy, setup_new_account_permissions,
  reset_account_rules, inherit_rule, clear_rule_bucket, apply_pending, complete, finish_migration,
}
use nostr_wot_sdk.Permissions.Store.Coherence.{
  Keeps, Keeps-write, Keeps-bind, Blind, blind_rules, Keeps-then_invalidate, store_rules,
  Keeps-set_use_global_defaults,
}

pub Keeps-list_grants : Keeps list_grants
unfolding list_grants
Keeps-list_grants = search store_rules

pub Keeps-require_option : (o : Option Text) → Keeps (require_option o)
Keeps-require_option none = search store_rules
Keeps-require_option (some t) = search store_rules

pub Keeps-write_grants :
    (f : Disk → List AuthenticationGrant)
    → Keeps (write (λ d. record d { authentication_grants = f d }))
Keeps-write_grants f = Keeps-write _ (λ d. (refl, refl))

pub Keeps-write_defaults :
    (f : Disk → List (Text × Bool)) → Keeps (write (λ d. record d { default_backend_auth = f d }))
Keeps-write_defaults f = Keeps-write _ (λ d. (refl, refl))

pub Keeps-revoke : (f : GrantFilter) → Keeps (revoke f)
unfolding revoke
Keeps-revoke f =
    search
      (
        store_rules, Keeps-list_grants, Keeps-require_option, Keeps-write_grants,
        Keeps-write_defaults,
      )
      depth 14

ruleset method_rules = (store_rules, Keeps-revoke)

pub Keeps-clear_everything : (a : Text) → Keeps (clear_everything a)
unfolding clear_everything
Keeps-clear_everything a = search method_rules depth 14

pub Keeps-clear : (o a : Text) → Keeps (clear o a)
unfolding clear
Keeps-clear o a = search method_rules depth 14

pub Keeps-clear_all_for_origin : (o : Text) → Keeps (clear_all_for_origin o)
unfolding clear_all_for_origin
Keeps-clear_all_for_origin o = search method_rules depth 14

pub Keeps-clear_for_account : (a : Text) → Keeps (clear_for_account a)
unfolding clear_for_account
Keeps-clear_for_account a = search method_rules depth 14

pub Keeps-copy_permissions : (f : Option Text) (t : Text) → Keeps (copy_permissions f t)
unfolding copy_permissions
Keeps-copy_permissions f t = search method_rules depth 14

pub Keeps-preserve_accounts : (n : Text) (ids : List Text) → Keeps (preserve_accounts n ids)
unfolding preserve_accounts
Keeps-preserve_accounts n [] = search method_rules depth 14
Keeps-preserve_accounts n (id ∷ ids) =
    Keeps-bind (search (method_rules, Keeps-copy_permissions) depth 8)
      (λ _. Keeps-preserve_accounts n ids)

pub Keeps-setup_inheriting : (n : Text) (f : Option Text) → Keeps (setup_inheriting n f)
unfolding setup_inheriting
Keeps-setup_inheriting n f = search method_rules depth 14

pub Keeps-copy_or_clear : (n : Text) (f : Option Text) → Keeps (copy_or_clear n f)
unfolding copy_or_clear
Keeps-copy_or_clear n none = Keeps-clear_for_account n
Keeps-copy_or_clear n (some f) = Keeps-copy_permissions (some f) n

pub Keeps-setup_legacy :
    (n : Text) (ids : List Text) (f : Option Text) → Keeps (setup_legacy n ids f)
unfolding setup_legacy
Keeps-setup_legacy n ids f =
    search
      (method_rules, Keeps-preserve_accounts, Keeps-set_use_global_defaults, Keeps-copy_or_clear)

pub Keeps-setup_new_account_permissions :
    (n : Text) (ids : List Text) (f : Option Text) → Keeps (setup_new_account_permissions n ids f)
unfolding setup_new_account_permissions
Keeps-setup_new_account_permissions n ids f =
    search (method_rules, Keeps-setup_inheriting, Keeps-setup_legacy)

pub Keeps-reset_account_rules : Keeps reset_account_rules
unfolding reset_account_rules
Keeps-reset_account_rules = search method_rules depth 14

pub Keeps-inherit_rule : (o k a : Text) → Keeps (inherit_rule o k a)
unfolding inherit_rule
Keeps-inherit_rule o k a = search method_rules depth 14

pub Keeps-clear_rule_bucket : (o a : Text) → Keeps (clear_rule_bucket o a)
unfolding clear_rule_bucket
Keeps-clear_rule_bucket o a = search method_rules depth 14

Blind-apply_pending : (p : PendingMigration) → Blind (apply_pending p)
unfolding apply_pending
Blind-apply_pending p = search blind_rules depth 14

pub Keeps-complete : (p : Option PendingMigration) → Keeps (complete p)
unfolding complete
Keeps-complete none = search method_rules depth 14
Keeps-complete (some p) = Keeps-then_invalidate (Blind-apply_pending p)

pub Keeps-finish_migration : Keeps finish_migration
unfolding finish_migration
Keeps-finish_migration = search (method_rules, Keeps-complete)
