-- ===== src/Permissions/Migrations/Folding.antt =====
-- What `migrateDmKindsToSendMessages` of store.ts makes of the rules for direct messages.
use nostr_wot_sdk.Prelude.{
  ◌≡◌, refl, subst, sym, inl, inr, Bool, true, false, ◌||◌, Option, none, some, List, [], ◌∷◌, Text,
  text_eq, ◌==◌, ==_iff, if◌then◌else◌, any, lookup, remove, lookup-put, lookup-remove,
  lookup-put_self, Bool-cases, Option-cases, arith, text_beq, show_int, decimal,
}
use nostr_wot_sdk.Permissions.Key.{
  Decision, allow, deny, ask, forward, Bucket, send_messages, kind_key,
}
use nostr_wot_sdk.Permissions.Store.{dm_permission_keys, is_dm_key}
use nostr_wot_sdk.Permissions.Migrations.{is_rule, stricter, fold_keys, keep_chosen, fold_dm_kinds}

stricter_deny : (c : Option Decision) → stricter c deny ≡ deny
stricter_deny none = refl
stricter_deny (some allow) = refl
stricter_deny (some deny) = refl
stricter_deny (some ask) = refl
stricter_deny (some forward) = refl

deny_stays : (d : Decision) → stricter (some deny) d ≡ deny
deny_stays allow = refl
deny_stays deny = refl
deny_stays ask = refl
deny_stays forward = refl

fold_keys-chosen_deny :
    (ks : List Text) (rules : Bucket) (b : Bool) → (fold_keys ks (some deny) rules b).0 ≡ some deny
unfolding fold_keys
fold_keys-chosen_deny [] rules b = refl
fold_keys-chosen_deny (k ∷ ks) rules b = elim (Option-cases (lookup k rules)) [
  | inl e ↦ rw (e, fold_keys) (fold_keys-chosen_deny ks rules b)
  | inr (d, e) ↦
      rw (e, fold_keys) (rw (deny_stays d) (fold_keys-chosen_deny ks (remove k rules) true))
]

-- A `deny` among the keys is what is chosen.
fold_keys-deny :
    (ks : List Text) (c : Option Decision) (rules : Bucket) (b : Bool) (k : Text)
    → any (λ j. j == k) ks ≡ true
    → lookup k rules ≡ some deny
    → (fold_keys ks c rules b).0 ≡ some deny
unfolding fold_keys
fold_keys-deny [] c rules b k i h = absurd (ground (arith, i))
fold_keys-deny (j ∷ ks) c rules b k i h = elim (Option-cases (lookup j rules)) [
  | inl e ↦
      rw (e, fold_keys) (fold_keys-deny ks c rules b k (ground (arith, i, e, h, ==_iff j k)) h)
  | inr (d, e) ↦ elim (Bool-cases (j == k)) [
    | inl same ↦
        let denied : d ≡ deny = ground (arith, e, h, (==_iff j k).0 same) in
        rw (e, fold_keys)
          (rw (denied, stricter_deny c) (fold_keys-chosen_deny ks (remove j rules) true))
    | inr other ↦
        rw (e, fold_keys)
          (fold_keys-deny ks (some (stricter c d)) (remove j rules) true k
            (ground (arith, i, other)) (ground (arith, h, other, lookup-remove j k rules)))
  ]
]

lookup-fold_keys :
    (ks : List Text) (c : Option Decision) (rules : Bucket) (b : Bool) (k : Text)
    → lookup k (fold_keys ks c rules b).1.0
      ≡ (if any (λ j. j == k) ks then none else lookup k rules)
unfolding fold_keys
lookup-fold_keys [] c rules b k = refl
lookup-fold_keys (j ∷ ks) c rules b k = elim (Option-cases (lookup j rules)) [
  | inl e ↦ rw (e, fold_keys) (ground (arith, e, lookup-fold_keys ks c rules b k, ==_iff j k))
  | inr (d, e) ↦
      rw (e, fold_keys)
        (ground (
          arith,
          lookup-fold_keys ks (some (stricter c d)) (remove j rules) true k,
          lookup-remove j k rules,
        ))
]

is_rule-true : (o : Option Decision) (d : Decision) → is_rule o d ≡ true → o ≡ some d
is_rule-true o d h = ground arith

lookup-keep_chosen_self :
    (d : Decision) (rules : Bucket) (b : Bool)
    → lookup send_messages (keep_chosen (some d) rules b).0 ≡ some d
unfolding keep_chosen
lookup-keep_chosen_self d rules b = elim (Bool-cases (is_rule (lookup send_messages rules) d)) [
  | inl same ↦ rw same (is_rule-true (lookup send_messages rules) d same)
  | inr other ↦ rw other (lookup-put_self send_messages d rules)
]

lookup-keep_chosen_ne :
    (c : Option Decision) (rules : Bucket) (b : Bool) (k : Text)
    → send_messages == k ≡ false
    → lookup k (keep_chosen c rules b).0 ≡ lookup k rules
unfolding keep_chosen
lookup-keep_chosen_ne none rules b k n = refl
lookup-keep_chosen_ne (some d) rules b k n = ground (arith, n, lookup-put send_messages k d rules)

send_messages-current : is_dm_key send_messages ≡ false
unfolding is_dm_key dm_permission_keys kind_key show_int decimal text_beq
send_messages-current = refl

send_messages-kept : (k : Text) → is_dm_key k ≡ true → send_messages == k ≡ false
send_messages-kept k h = elim (Bool-cases (send_messages == k)) [
  | inl same ↦ absurd (
      ground (
        arith,
        send_messages-current,
        subst (λ j. is_dm_key j ≡ true) (sym ((==_iff send_messages k).0 same)) h,
      ))
  | inr other ↦ other
]

-- After the rules for direct messages are folded, no retired key is left; a rule for another key is as
-- it was; and where a retired key or `sendMessages` itself denied, `sendMessages` denies.
pub fold_dm_kinds_lem :
    (rules : Bucket) (k : Text)
    → (is_dm_key k ≡ true → lookup k (fold_dm_kinds rules).0 ≡ none)
      × (is_dm_key k ≡ false
          → send_messages == k ≡ false
          → lookup k (fold_dm_kinds rules).0 ≡ lookup k rules)
      × (is_dm_key k || send_messages == k ≡ true
          → lookup k rules ≡ some deny
          → lookup send_messages (fold_dm_kinds rules).0 ≡ some deny)
unfolding fold_dm_kinds is_dm_key
fold_dm_kinds_lem rules k =
    let start = lookup send_messages rules in
    let folded = fold_keys dm_permission_keys start rules false in
    let seen = lookup-fold_keys dm_permission_keys start rules false k in
    (
      (λ retired.
          rw (lookup-keep_chosen_ne folded.0 folded.1.0 folded.1.1 k (send_messages-kept k retired))
            (ground (arith, seen, retired))),
      (λ current other.
          rw (lookup-keep_chosen_ne folded.0 folded.1.0 folded.1.1 k other)
            (ground (arith, seen, current))),
      λ about denied.
          let chosen : folded.0 ≡ some deny = elim (Bool-cases (send_messages == k)) [
            | inl same ↦
                rw
                  (subst (λ j. lookup j rules ≡ some deny) (sym ((==_iff send_messages k).0 same))
                    denied)
                  (fold_keys-chosen_deny dm_permission_keys rules false)
            | inr other ↦
                fold_keys-deny dm_permission_keys start rules false k (ground (arith, about, other))
                  denied
          ] in
          rw chosen (lookup-keep_chosen_self deny folded.1.0 folded.1.1),
    )
