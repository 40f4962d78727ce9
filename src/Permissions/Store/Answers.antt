-- ===== src/Permissions/Store/Answers.antt =====
-- What `check` of packages/identity/src/permissions/store.ts answers: from the store's tree alone, and
-- after a rule is saved.
use nostr_wot_sdk.Prelude.{
  ◌≡◌, ◌⊎◌, inl, inr, refl, subst, true, false, not, ◌&&◌, none, some, List, [], Text, text_eq,
  ◌==◌, if◌then◌else◌, arith, ℕ, zero, suc, Distinct,
}
use nostr_wot_sdk.Permissions.Key.{Decision, deny, Kind, Bucket, resolve, consulted_keys}
use nostr_wot_sdk.Permissions.Key.Cascade.{In, resolve_detailed-deny, resolve-deny}
use nostr_wot_sdk.Permissions.Scope.{storage_label}
use nostr_wot_sdk.Permissions.Host.{
  Disk, Host, ok, ◌>>=◌, pure, fail, refuse_if, require_label, write, then_invalidate, read,
}
use nostr_wot_sdk.Permissions.Tree.{
  default_bucket, global_rules_scope, bucket_at, origin_permission_bucket,
  effective_origin_permissions, set_rule,
}
use nostr_wot_sdk.Permissions.Tree.Layers.{
  effective-set_rule, effective-set_rule_unread, reads_rules,
}
use nostr_wot_sdk.Permissions.Store.{
  stored_tree, bool_beq, own_bucket, get_use_global_defaults, active_bucket, load_cached, load,
  rules_from, get_for_origin, or_invalid, check, save_direct, write_rule, write_bucket,
  required_bucket, assert_rule_scope, draft, commit,
}
use nostr_wot_sdk.Permissions.Store.Coherence.{
  Coherent, Keeps-save_direct, invalidated-Coherent, Agree-self, Keeps-get_for_origin,
}
use nostr_wot_sdk.Permissions.Store.Saves.{
  bucket_in_use, refusal, with_rule, cold, save_direct-with_rule,
}

-- The rules that the store's tree and mode give an account at a site.
abbrev pub rules_in_use : Disk → Text → Text → Bucket
rules_in_use d origin account_id = elim (bucket_in_use d account_id) [
  | none ↦ []
  | some bucket ↦
      if d.inheritance
      then effective_origin_permissions (stored_tree d) origin account_id
      else origin_permission_bucket (stored_tree d) origin bucket
]

get_for_origin-cold :
    (origin account_id : Text) (d : Disk)
    → d.migration_pending ≡ none
    → (get_for_origin origin account_id (cold d)).0 ≡ ok (rules_in_use d origin account_id)
unfolding get_for_origin rules_from active_bucket get_use_global_defaults load load_cached refuse_if
    read pure fail ◌>>=◌
get_for_origin-cold origin account_id d p = ground (arith, p)

get_for_origin-rules_in_use :
    (origin account_id : Text) (h : Host)
    → Coherent h
    → h.disk.migration_pending ≡ none
    → (get_for_origin origin account_id h).0 ≡ ok (rules_in_use h.disk origin account_id)
get_for_origin-rules_in_use origin account_id h c p =
    let s =
      (Keeps-get_for_origin origin account_id).keeps h (cold h.disk)
        (record { disk = refl; left = c; right = invalidated-Coherent (cold h.disk) }) in
    rw (s.outcome) (get_for_origin-cold origin account_id h.disk p)

-- With coherent caches and no migration left half done, a check has an answer, and it is the one that
-- the rules of the store's tree give.
pub check_lem :
    (origin method : Text) (kind : Kind) (account_id : Text) (h : Host)
    → Coherent h
    → h.disk.migration_pending ≡ none
    → (d : Decision) × (resolve (rules_in_use h.disk origin account_id) method kind ≡ some d)
      × ((check origin method kind account_id h).0 ≡ ok d)
unfolding check or_invalid pure fail ◌>>=◌ resolve
check_lem origin method kind account_id h c p =
    let rules = rules_in_use h.disk origin account_id in
    let (ks, e, a, answered, denies) = resolve_detailed-deny rules method kind in
    (
      a.decision,
      rw (answered, resolve) refl,
      ground (arith, answered, get_for_origin-rules_in_use origin account_id h c p),
    )

rules_in_use-with_rule :
    (label bucket key : Text) (decision : Decision) (left : ℕ) (d : Disk) (origin a : Text)
    → d.inheritance ≡ true
    → own_bucket a ≡ some a
    → rules_in_use (with_rule label bucket key decision left d) origin a
      ≡ effective_origin_permissions (set_rule label bucket key decision (stored_tree d)) origin a
rules_in_use-with_rule label bucket key decision left d origin a i own = ground (arith, i, own)

-- With inheritance on, a check that follows a saved `deny` for a key it consults answers `deny`. The
-- caches agree with the store, the rule may be stored, the account id is not empty, no migration is
-- pending, the store accepts a write, the label and the account's bucket are both global or neither
-- where rules are consolidated, and the account's bucket at the site holds no key twice.
pub check-save_deny :
    (origin key method : Text) (kind : Kind) (account_id : Text) (left : ℕ) (h : Host)
    → Coherent h
    → refusal origin key deny ≡ none
    → h.disk.inheritance ≡ true
    → own_bucket account_id ≡ some account_id
    → h.disk.migration_pending ≡ none
    → h.disk.writes ≡ suc left
    → (h.disk.global_rules_version
        && not
            (bool_beq (storage_label origin == global_rules_scope) (account_id == default_bucket)))
      ≡ false
    → Distinct (bucket_at (stored_tree h.disk) (storage_label origin) account_id)
    → (ks : List Text) → consulted_keys method kind ≡ some ks
    → In key ks
    → (check origin method kind account_id (save_direct origin key deny account_id h).1).0 ≡ ok deny
check-save_deny origin key method kind account_id left h c r i own p w s u ks e member =
    let (saved, disk) =
      save_direct-with_rule origin key account_id deny account_id left h c r
        (ground (arith, i, own)) p w s in
    let label = storage_label origin in
    let next = (save_direct origin key deny account_id h).1 in
    let kept = (Keeps-save_direct origin key deny account_id).keeps h h (Agree-self h c) in
    let (d, resolved, answer) =
      check_lem origin method kind account_id next kept.hosts.left (rw disk p) in
    let denied =
      resolve-deny (rules_in_use next.disk origin account_id) key method kind ks e member (
        rw disk (
          rw (rules_in_use-with_rule label account_id key deny left h.disk origin account_id i own)
            (effective-set_rule origin account_id key deny (stored_tree h.disk) u))) in
    ground (arith, resolved, answer, denied)

abbrev pred : ℕ → ℕ
pred zero = zero
pred (suc n) = n

-- What a rule that is stored does to the store when inheritance is on; a rule that is not does nothing.
save_direct-inheriting :
    (origin key : Text) (decision : Decision) (account_id : Text) (d : Disk)
    → d.inheritance ≡ true
    → own_bucket account_id ≡ some account_id
    → ((save_direct origin key decision account_id (cold d)).1.disk ≡ d)
      ⊎ ((save_direct origin key decision account_id (cold d)).1.disk
          ≡ with_rule (storage_label origin) account_id key decision (pred d.writes) d)
unfolding save_direct write_rule write_bucket active_bucket get_use_global_defaults required_bucket
    assert_rule_scope draft load load_cached commit refuse_if require_label write then_invalidate
    read pure fail ◌>>=◌
save_direct-inheriting origin key decision account_id d i own = ground (arith, i, own)

checks_alike :
    (site method : Text) (kind : Kind) (reader : Text) (h k : Host)
    → Coherent h
    → Coherent k
    → h.disk.migration_pending ≡ none
    → k.disk.migration_pending ≡ none
    → rules_in_use h.disk site reader ≡ rules_in_use k.disk site reader
    → (check site method kind reader h).0 ≡ (check site method kind reader k).0
checks_alike site method kind reader h k c1 c2 p1 p2 e =
    let (d1, r1, a1) = check_lem site method kind reader h c1 p1 in
    let (d2, r2, a2) = check_lem site method kind reader k c2 p2 in
    let r3 = subst (λ b. resolve b method kind ≡ some d1) e r1 in ground (arith, r3, a1, r2, a2)

-- With inheritance on, no migration pending, caches that agree with the store and account ids that are
-- not empty, a rule that is saved, or not saved for an error, for one account at one site leaves the
-- answer of every check of an account at a site that does not read the rule: the rule's bucket is
-- neither the shared one nor that account's, or its label is neither a global one nor the site's.
pub check-save_unread :
    (origin key : Text) (decision : Decision) (account_id : Text) (site method : Text) (kind : Kind)
    (reader : Text) (h : Host)
    → Coherent h
    → h.disk.inheritance ≡ true
    → own_bucket account_id ≡ some account_id
    → own_bucket reader ≡ some reader
    → h.disk.migration_pending ≡ none
    → reads_rules (storage_label origin) account_id site reader ≡ false
    → (check site method kind reader (save_direct origin key decision account_id h).1).0
      ≡ (check site method kind reader h).0
check-save_unread origin key decision account_id site method kind reader h c i own own2 p n =
    let next = (save_direct origin key decision account_id h).1 in
    let kept = Keeps-save_direct origin key decision account_id in
    let same =
      kept.keeps h (cold h.disk)
        (record { disk = refl; left = c; right = invalidated-Coherent (cold h.disk) }) in
    elim (save_direct-inheriting origin key decision account_id h.disk i own) [
      | inl unchanged ↦
          checks_alike site method kind reader next h same.hosts.left c
            (rw (same.hosts.disk, unchanged) p) p (rw (same.hosts.disk, unchanged) refl)
      | inr written ↦
          checks_alike site method kind reader next h same.hosts.left c
            (rw (same.hosts.disk, written) p) p
            (rw (same.hosts.disk, written)
              (rw
                (rules_in_use-with_rule (storage_label origin) account_id key decision _ h.disk site
                  reader i own2)
                (ground (
                  arith,
                  i,
                  own2,
                  effective-set_rule_unread (storage_label origin) account_id key decision
                      (stored_tree h.disk) site reader n,
                ))))
    ]
