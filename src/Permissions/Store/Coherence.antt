-- ===== src/Permissions/Store/Coherence.antt =====
-- The caches of `Permissions` in store.ts never disagree with the store, whatever fails.
pub mod Methods
pub mod Migrating
pub mod Refinement
use nostr_wot_sdk.Prelude.{
  subst, sym, ℕ, zero, suc, ◌≡◌, refl, ◌⊎◌, inl, inr, Bool, true, false, Option, none, some, List,
  [], ◌∷◌, Text, Option-cases, if◌then◌else◌, arith, text_eq, ◌==◌,
}
use nostr_wot_sdk.Permissions.Key.{Decision, Kind, permission_key, Answer, resolve_detailed}
use nostr_wot_sdk.Permissions.Host.{
  PermissionMap, Disk, Host, Error, Outcome, ok, throw, M, then_do, ◌>>=◌, ◌>>◌, pure, fail,
  refuse_if, require_label, read, write, invalidated, then_invalidate,
}
use nostr_wot_sdk.Permissions.Grants.{revoke, GrantFilter}
use nostr_wot_sdk.Permissions.Store.{
  stored_tree, stored_default, get_use_global_defaults, set_use_global_defaults, active_bucket,
  required_bucket, rules_from, or_invalid, check, check_blanket_sign_event, listing_from, get_all,
  get_for_origin_raw, save_under, save_retired_key, write_bucket, load_cached, load, draft, commit,
  inherits, get_for_origin, assert_rule_scope, write_rule, save_direct,
}

-- A cache is empty, or holds what the store holds.
pub record Coherent (h : Host) : Type 0 where
  pub perms : (h.cached_perms ≡ none) ⊎ (h.cached_perms ≡ some (stored_tree h.disk))
  pub mode :
      (h.cached_use_global_defaults ≡ none)
      ⊎ (h.cached_use_global_defaults ≡ some (stored_default h.disk))

-- The two hosts have the same store, and coherent caches.
pub record Agree (h k : Host) : Type 0 where
  pub disk : h.disk ≡ k.disk
  pub left : Coherent h
  pub right : Coherent k

pub Agree-self : (h : Host) → Coherent h → Agree h h
Agree-self h c = record { disk = refl; left = c; right = c }

-- The same outcome, and hosts that agree.
pub record Same {ℓ} {A : Type ℓ} (r s : Outcome A × Host) : Type ℓ where
  pub outcome : r.0 ≡ s.0
  pub hosts : Agree r.1 s.1

-- The method cannot tell two hosts apart that agree.
pub record Keeps {ℓ} {A : Type ℓ} (m : M A) : Type ℓ where
  pub keeps : (h k : Host) → Agree h k → Same (m h) (m k)

then_do-Same {ℓ κ} :
    {A : Type ℓ} {B : Type κ} (o : Outcome A) (h k : Host) (f : A → M B)
    → Agree h k
    → ((a : A) → Keeps (f a))
    → Same (then_do (o, h) f) (then_do (o, k) f)
then_do-Same (ok a) h k f c l = (l a).keeps h k c
then_do-Same (throw e) h k f c l = record { outcome = refl; hosts = c }

Keeps-bind {ℓ κ} :
    {A : Type ℓ} {B : Type κ} {m : M A} {f : A → M B}
    → Keeps m
    → ((a : A) → Keeps (f a))
    → Keeps (m >>= f)
unfolding ◌>>=◌
Keeps-bind {m = m} {f = f} p l = record {
  keeps = λ h k c.
      let s = p.keeps h k c in
      subst (λ o. Same (then_do (o, (m h).1) f) (then_do (m k) f)) (sym s.outcome)
        (then_do-Same (m k).0 (m h).1 (m k).1 f s.hosts l);
}

Keeps-pure {ℓ} : {A : Type ℓ} (a : A) → Keeps (pure a)
unfolding pure
Keeps-pure a = record { keeps = λ h k c. record { outcome = refl; hosts = c } }

Keeps-fail {ℓ} : {A : Type ℓ} (e : Error) → Keeps (fail {A = A} e)
unfolding fail
Keeps-fail e = record { keeps = λ h k c. record { outcome = refl; hosts = c } }

Keeps-read {ℓ} : {A : Type ℓ} (f : Disk → A) → Keeps (read f)
unfolding read
Keeps-read f = record {
  keeps =
      λ h k c. record { outcome = subst (λ d. ok (f h.disk) ≡ ok (f d)) c.disk refl; hosts = c };
}

Keeps-refuse_if : (b : Bool) (e : Error) → Keeps (refuse_if b e)
unfolding refuse_if
Keeps-refuse_if true e = record { keeps = λ h k c. record { outcome = refl; hosts = c } }
Keeps-refuse_if false e = record { keeps = λ h k c. record { outcome = refl; hosts = c } }

Keeps-require_label : (t : Text) → Keeps (require_label t)
unfolding require_label
Keeps-require_label [] = record { keeps = λ h k c. record { outcome = refl; hosts = c } }
Keeps-require_label (x ∷ t) = record { keeps = λ h k c. record { outcome = refl; hosts = c } }

-- Empty caches are coherent.
pub invalidated-Coherent : (h : Host) → Coherent (invalidated h)
invalidated-Coherent h = record { perms = inl refl; mode = inl refl }

-- The method looks at the store alone, as the writes do.
pub record Blind {ℓ} {A : Type ℓ} (m : M A) : Type ℓ where
  pub same_outcome : (h k : Host) → h.disk ≡ k.disk → (m h).0 ≡ (m k).0
  pub same_disk : (h k : Host) → h.disk ≡ k.disk → (m h).1.disk ≡ (m k).1.disk

Keeps-then_invalidate {ℓ} : {A : Type ℓ} {m : M A} → Blind m → Keeps (then_invalidate m)
unfolding then_invalidate
Keeps-then_invalidate {m = m} p = record {
  keeps = λ h k c. record {
    outcome = p.same_outcome h k c.disk;
    hosts = record {
      disk = p.same_disk h k c.disk;
      left = invalidated-Coherent (m h).1;
      right = invalidated-Coherent (m k).1;
    };
  };
}

Blind-write : (f : Disk → Disk) → Blind (write f)
unfolding write
Blind-write f = record {
  same_outcome = λ h k e. ground (arith, e);
  same_disk = λ h k e. ground (arith, e);
}

Blind-pure {ℓ} : {A : Type ℓ} (a : A) → Blind (pure a)
unfolding pure
Blind-pure a = record { same_outcome = λ h k e. refl; same_disk = λ h k e. e }

Blind-if {ℓ} : {A : Type ℓ} (b : Bool) {m k : M A} → Blind m → Blind k → Blind (if b then m else k)
Blind-if true p q = p
Blind-if false p q = q

-- Both fields of `Blind` for one pair of runs.
then_do-Blind {ℓ κ} :
    {A : Type ℓ} {B : Type κ} (o : Outcome A) (h k : Host) (f : A → M B)
    → h.disk ≡ k.disk
    → ((a : A) → Blind (f a))
    → ((then_do (o, h) f).0 ≡ (then_do (o, k) f).0)
      × ((then_do (o, h) f).1.disk ≡ (then_do (o, k) f).1.disk)
then_do-Blind (ok a) h k f e l = ((l a).same_outcome h k e, (l a).same_disk h k e)
then_do-Blind (throw x) h k f e l = (refl, e)

bind-Blind {ℓ κ} :
    {A : Type ℓ} {B : Type κ} (m : M A) (f : A → M B) (h k : Host)
    → Blind m
    → ((a : A) → Blind (f a))
    → h.disk ≡ k.disk
    → ((then_do (m h) f).0 ≡ (then_do (m k) f).0)
      × ((then_do (m h) f).1.disk ≡ (then_do (m k) f).1.disk)
bind-Blind m f h k p l e =
    subst
      (λ o.
        ((then_do (o, (m h).1) f).0 ≡ (then_do (m k) f).0)
        × ((then_do (o, (m h).1) f).1.disk ≡ (then_do (m k) f).1.disk))
      (sym (p.same_outcome h k e)) (then_do-Blind (m k).0 (m h).1 (m k).1 f (p.same_disk h k e) l)

Blind-bind {ℓ κ} :
    {A : Type ℓ} {B : Type κ} {m : M A} {f : A → M B}
    → Blind m
    → ((a : A) → Blind (f a))
    → Blind (m >>= f)
unfolding ◌>>=◌
Blind-bind {m = m} {f = f} p l = record {
  same_outcome = λ h k e. (bind-Blind m f h k p l e).0;
  same_disk = λ h k e. (bind-Blind m f h k p l e).1;
}

ruleset blind_rules = (Blind-write, Blind-pure, Blind-if, Blind-bind)

Keeps-if {ℓ} : {A : Type ℓ} (b : Bool) {m k : M A} → Keeps m → Keeps k → Keeps (if b then m else k)
Keeps-if true p q = p
Keeps-if false p q = q

-- A write that touches neither the tree nor the mode.
Keeps-write :
    (f : Disk → Disk)
    → ((d : Disk)
        → ((f d).permissions ≡ d.permissions) × ((f d).use_global_defaults ≡ d.use_global_defaults))
    → Keeps (write f)
unfolding write
Keeps-write f same = record {
  keeps = λ h k c. record {
    outcome = ground (arith, c.disk);
    hosts = record {
      disk = ground (arith, c.disk);
      left = ground (arith, c.left, same h.disk);
      right = ground (arith, c.right, same k.disk);
    };
  };
}

Keeps-load_cached : Keeps load_cached
unfolding load_cached
Keeps-load_cached = record {
  keeps = λ h k c. record {
    outcome = ground (arith, c.disk, c.left, c.right);
    hosts = record {
      disk = ground (arith, c.disk);
      left = ground (arith, c.left);
      right = ground (arith, c.right);
    };
  };
}

Keeps-get_use_global_defaults : Keeps get_use_global_defaults
unfolding get_use_global_defaults
Keeps-get_use_global_defaults = record {
  keeps = λ h k c. record {
    outcome = ground (arith, c.disk, c.left, c.right);
    hosts = record {
      disk = ground (arith, c.disk);
      left = ground (arith, c.left);
      right = ground (arith, c.right);
    };
  };
}

ruleset keeps_rules = (
  Keeps-bind, Keeps-pure, Keeps-fail, Keeps-read, Keeps-refuse_if, Keeps-require_label,
  Keeps-then_invalidate, Keeps-if, blind_rules,
)

Keeps-load : Keeps load
unfolding load
Keeps-load = search (keeps_rules, Keeps-load_cached)

Keeps-active_bucket : (a : Text) → Keeps (active_bucket a)
unfolding active_bucket
Keeps-active_bucket a = search (keeps_rules, Keeps-get_use_global_defaults)

Keeps-required_bucket : (o : Option Text) → Keeps (required_bucket o)
unfolding required_bucket
Keeps-required_bucket none = search keeps_rules
Keeps-required_bucket (some b) = search keeps_rules

Keeps-write_bucket : (a : Text) → Keeps (write_bucket a)
unfolding write_bucket
Keeps-write_bucket a = search (keeps_rules, Keeps-active_bucket, Keeps-required_bucket)

Keeps-draft : Keeps draft
unfolding draft
Keeps-draft = Keeps-load

Keeps-commit : (t : PermissionMap) → Keeps (commit t)
unfolding commit
Keeps-commit t = Keeps-then_invalidate (Blind-write _)

Keeps-assert_rule_scope : (o b : Text) → Keeps (assert_rule_scope o b)
unfolding assert_rule_scope
Keeps-assert_rule_scope o b = search keeps_rules

ruleset store_rules = (
  keeps_rules, Keeps-load, Keeps-draft, Keeps-commit, Keeps-write_bucket, Keeps-active_bucket,
  Keeps-assert_rule_scope, Keeps-get_use_global_defaults,
)

Keeps-rules_from : (o a : Text) (b : Option Text) → Keeps (rules_from o a b)
unfolding rules_from
Keeps-rules_from o a none = search store_rules
Keeps-rules_from o a (some b) = search store_rules

pub Keeps-get_for_origin : (o a : Text) → Keeps (get_for_origin o a)
unfolding get_for_origin
Keeps-get_for_origin o a = search (store_rules, Keeps-rules_from)

Keeps-or_invalid : (o : Option Answer) → Keeps (or_invalid o)
unfolding or_invalid
Keeps-or_invalid none = search store_rules
Keeps-or_invalid (some a) = search store_rules

pub Keeps-check : (o m : Text) (k : Kind) (a : Text) → Keeps (check o m k a)
unfolding check
Keeps-check o m k a = search (store_rules, Keeps-get_for_origin, Keeps-or_invalid)

Keeps-check_blanket_sign_event : (o a : Text) → Keeps (check_blanket_sign_event o a)
unfolding check_blanket_sign_event
Keeps-check_blanket_sign_event o a = search (store_rules, Keeps-get_for_origin)

Keeps-listing_from : (a : Text) (b : Option Text) → Keeps (listing_from a b)
unfolding listing_from
Keeps-listing_from a none = search store_rules
Keeps-listing_from a (some b) = search store_rules

Keeps-get_all : (a : Text) → Keeps (get_all a)
unfolding get_all
Keeps-get_all a = search (store_rules, Keeps-listing_from)

Keeps-get_for_origin_raw : (o : Text) → Keeps (get_for_origin_raw o)
unfolding get_for_origin_raw
Keeps-get_for_origin_raw o = search store_rules

Keeps-set_use_global_defaults : (b : Bool) → Keeps (set_use_global_defaults b)
unfolding set_use_global_defaults
Keeps-set_use_global_defaults b = search store_rules

pub Keeps-write_rule : (l k : Text) (d : Decision) (a : Text) → Keeps (write_rule l k d a)
unfolding write_rule
Keeps-write_rule l k d a = search store_rules

pub Keeps-save_direct : (o k : Text) (d : Decision) (a : Text) → Keeps (save_direct o k d a)
unfolding save_direct
Keeps-save_direct o k d a = search (store_rules, Keeps-write_rule)

Keeps-save_under :
    (u : Option Text) (o : Text) (d : Decision) (a : Text) → Keeps (save_under u o d a)
unfolding save_under
Keeps-save_under none o d a = search store_rules
Keeps-save_under (some k) o d a = Keeps-save_direct o k d a

Keeps-save_retired_key : (o k : Text) (d : Decision) (a : Text) → Keeps (save_retired_key o k d a)
unfolding save_retired_key
Keeps-save_retired_key o k d a = search (store_rules, Keeps-write_rule)
