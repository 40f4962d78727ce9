-- ===== src/Permissions/Key/Cascade.antt =====
-- What the cascade of key.ts answers: a `deny` on any level wins, an `allow` needs a rule that says
-- so, and no rule allows relay authentication or an event of no stated kind.
use nostr_wot_sdk.Prelude.{
  true, false, ◌≡◌, ◌≢◌, ◌↔◌, ◌⊎◌, inl, inr, refl, ap, ◌∙◌, ℤ, int_eq, subst, none, some, List, [],
  ◌∷◌, Text, text_eq, ◌==◌, ==_iff, Bool-cases, Option-cases, if◌then◌else◌, lookup, arith,
}
use nostr_wot_sdk.Permissions.Key.{
  Decision, allow, deny, Bucket, Kind, undefined, null, not_integer, integer, sign_event, star,
  nip42_kind, sign_event_key, permission_key, is_kind, is_kindless, consulted_keys, Answer, is_deny,
  first_deny, first_rule, is_relay_auth, resolve_consulted, resolve_detailed, resolve,
}

-- `key` is one of the keys.
abbrev pub In : Text → List Text → Type 0
In key [] = ⊥
In key (k ∷ ks) = (key ≡ k) ⊎ In key ks

-- Some consulted level holds this decision.
abbrev pub Holds : Bucket → List Text → Decision → Type 0
Holds bucket keys d = (key : Text) × In key keys × (lookup key bucket ≡ some d)

Holds-cons :
    (b : Bucket) (k : Text) (ks : List Text) (d : Decision) → Holds b ks d → Holds b (k ∷ ks) d
Holds-cons b k ks d (key, where_it_is, rule) = (key, inr where_it_is, rule)

first_deny-none : (b : Bucket) (ks : List Text) → first_deny b ks ≡ none → ¬ Holds b ks deny
unfolding first_deny
first_deny-none b [] h (key, i, r) = i
first_deny-none b (k ∷ ks) h (key, inl i, r) = ground arith
first_deny-none b (k ∷ ks) h (key, inr i, r) = first_deny-none b ks (ground arith) (key, i, r)

first_deny-some :
    (b : Bucket) (ks : List Text) (a : Answer)
    → first_deny b ks ≡ some a
    → (a.decision ≡ deny) × Holds b ks deny
unfolding first_deny
first_deny-some b [] a h = absurd (ground arith)
first_deny-some b (k ∷ ks) a h = elim (Bool-cases (is_deny (lookup k b))) [
  | inl yes_deny ↦ (ground arith, (k, inl refl, ground arith))
  | inr no_deny ↦
      let (d, held) = first_deny-some b ks a (ground arith) in (d, Holds-cons b k ks deny held)
]

first_rule-some :
    (b : Bucket) (ks : List Text) (a : Answer) → first_rule b ks ≡ some a → Holds b ks a.decision
unfolding first_rule
first_rule-some b [] a h = absurd (ground arith)
first_rule-some b (k ∷ ks) a h = elim (Option-cases (lookup k b)) [
  | inl unset ↦ Holds-cons b k ks a.decision (first_rule-some b ks a (ground arith))
  | inr (d, set) ↦ (k, inl refl, ground arith)
]

-- The answer over given keys: it is `deny` exactly when some level denies.
resolve_consulted-deny :
    (b : Bucket) (method : Text) (kind : Kind) (ks : List Text)
    → ((resolve_consulted b method kind ks).decision ≡ deny) ↔ Holds b ks deny
unfolding resolve_consulted
resolve_consulted-deny b method kind ks = elim (Option-cases (first_deny b ks)) [
  | inr (a, e) ↦
      let (d, held) = first_deny-some b ks a e in rw (e, resolve_consulted) ((λ _. held, λ _. d))
  | inl e ↦
      let absent = first_deny-none b ks e in
      (
        λ h. elim (Option-cases (first_rule b ks)) [
          | inl unset ↦ absurd (ground arith)
          | inr (a, set) ↦
              let held = first_rule-some b ks a set in
              let same : a.decision ≡ deny = ground arith in subst (Holds b ks) same held
        ],
        λ h. absurd (absent h),
      )
]

-- An `allow` needs a level that allows, no level that denies, and a stated kind other than 22242.
resolve_consulted-allow :
    (b : Bucket) (method : Text) (kind : Kind) (ks : List Text)
    → (resolve_consulted b method kind ks).decision ≡ allow
    → Holds b ks allow
      × (¬ Holds b ks deny)
      × (is_kindless method kind ≡ false)
      × (is_relay_auth method kind ≡ false)
unfolding resolve_consulted
resolve_consulted-allow b method kind ks h = elim (Option-cases (first_deny b ks)) [
  | inr (a, e) ↦ let (d, held) = first_deny-some b ks a e in absurd (ground arith)
  | inl e ↦ elim (Option-cases (first_rule b ks)) [
    | inl unset ↦ absurd (ground arith)
    | inr (a, set) ↦
        let held = first_rule-some b ks a set in
        let same : a.decision ≡ allow = ground arith in
        (subst (Holds b ks) same held, first_deny-none b ks e, ground arith, ground arith)
  ]
]

sign_event_key-none : (kind : Kind) → sign_event_key kind ≡ none → is_kind kind ≡ false
unfolding sign_event_key
sign_event_key-none undefined h = refl
sign_event_key-none null h = refl
sign_event_key-none not_integer h = refl
sign_event_key-none (integer k) h = cc

permission_key-none :
    (method : Text) (kind : Kind)
    → permission_key method kind ≡ none
    → is_kindless method kind ≡ true
unfolding permission_key
permission_key-none method kind h = ground (arith, sign_event_key-none kind)

-- `permissionKey` throws on some kinds, and the cascade never calls it on one of those.
pub consulted_keys_total :
    (method : Text) (kind : Kind) → (ks : List Text) × (consulted_keys method kind ≡ some ks)
unfolding consulted_keys
consulted_keys_total method kind = elim (Bool-cases (is_kindless method kind)) [
  | inl kindless ↦ (method ∷ star ∷ [], rw kindless)
  | inr kinded ↦ elim (Option-cases (permission_key method kind)) [
    | inl throws ↦ absurd (ground (arith, permission_key-none method kind))
    | inr (key, e) ↦ (
      if key == method then method ∷ star ∷ [] else key ∷ method ∷ star ∷ [],
      rw (kinded, e, consulted_keys),
    )
  ]
]

-- Every request has an answer. It is `deny` exactly when a consulted level holds `deny`.
pub resolve_detailed-deny :
    (b : Bucket) (method : Text) (kind : Kind)
    → (ks : List Text) × (consulted_keys method kind ≡ some ks)
      × (a : Answer) × (resolve_detailed b method kind ≡ some a)
      × ((a.decision ≡ deny) ↔ Holds b ks deny)
unfolding resolve_detailed
resolve_detailed-deny b method kind =
    let (ks, e) = consulted_keys_total method kind in
    (
      ks,
      e,
      resolve_consulted b method kind ks,
      rw (e, resolve_detailed),
      resolve_consulted-deny b method kind ks,
    )

pub resolve-deny :
    (b : Bucket) (key method : Text) (kind : Kind) (ks : List Text)
    → consulted_keys method kind ≡ some ks
    → In key ks
    → lookup key b ≡ some deny
    → resolve b method kind ≡ some deny
unfolding resolve_detailed resolve
resolve-deny b key method kind ks e member found =
    rw (e, resolve) (ap some ((resolve_consulted-deny b method kind ks).1 (key, member, found)))

kindless-false :
    (method : Text) (kind : Kind)
    → is_kindless method kind ≡ false
    → is_relay_auth method kind ≡ false
    → method ≡ sign_event
    → (k : ℤ) × (kind ≡ integer k) × (k ≢ nip42_kind)
kindless-false method undefined h r m = absurd (ground (arith, ==_iff method sign_event))
kindless-false method null h r m = absurd (ground (arith, ==_iff method sign_event))
kindless-false method not_integer h r m = absurd (ground (arith, ==_iff method sign_event))
kindless-false method (integer k) h r m =
    (k, refl, λ e. ground (arith, ==_iff method sign_event, ==_iff k nip42_kind))

-- An answer `allow` rests on a consulted level that allows, with no consulted level that denies; and
-- for `signEvent` the request states an integer kind, which is not the kind of relay authentication.
pub resolve_detailed-allow :
    (b : Bucket) (method : Text) (kind : Kind) (a : Answer)
    → resolve_detailed b method kind ≡ some a
    → a.decision ≡ allow
    → (ks : List Text) × (consulted_keys method kind ≡ some ks)
      × Holds b ks allow
      × (¬ Holds b ks deny)
      × (method ≡ sign_event → (k : ℤ) × (kind ≡ integer k) × (k ≢ nip42_kind))
unfolding resolve_detailed
resolve_detailed-allow b method kind a h d =
    let (ks, e) = consulted_keys_total method kind in
    let same : resolve_consulted b method kind ks ≡ a = ground arith in
    let (held, undenied, kinded, bounded) =
      resolve_consulted-allow b method kind ks (ap (λ r. r.decision) same ∙ d) in
    (ks, e, held, undenied, kindless-false method kind kinded bounded)
