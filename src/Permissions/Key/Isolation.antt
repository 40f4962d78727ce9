-- ===== src/Permissions/Key/Isolation.antt =====
-- Which rules of a bucket reach which requests, in key.ts.
use nostr_wot_sdk.Prelude.{
  Bool, true, false, ◌&&◌, ◌≡◌, ◌≢◌, ◌⊎◌, inl, inr, refl, ap, sym, subst, Option, none, some, List,
  [], ◌∷◌, append_cancel, ℤ, int_eq, show_int, show_int-injective, Text, text, text_eq, text_beq,
  text_ne, starts_with, ◌==◌, ==_iff, Bool-cases, if◌then◌else◌, lookup, put, lookup-put_self,
  lookup-put_ne, arith,
}
use nostr_wot_sdk.Permissions.Key.{
  Decision, deny, ask, Bucket, Kind, integer, sign_event, star, send_messages, nip42_kind,
  is_dm_kind, kind_key, sign_event_key, permission_key, consulted_keys, first_deny, first_rule,
  resolve_consulted, resolve_detailed, resolve,
}
use nostr_wot_sdk.Permissions.Key.Cascade.{In, resolve_detailed-deny}

first_deny-put :
    (b : Bucket) (key : Text) (d : Decision) (ks : List Text)
    → ¬ In key ks
    → first_deny (put key d b) ks ≡ first_deny b ks
unfolding first_deny
first_deny-put b key d [] h = refl
first_deny-put b key d (k ∷ ks) h =
    rw (lookup-put_ne key k d b (λ e. h (inl e)), first_deny-put b key d ks (λ i. h (inr i)))

first_rule-put :
    (b : Bucket) (key : Text) (d : Decision) (ks : List Text)
    → ¬ In key ks
    → first_rule (put key d b) ks ≡ first_rule b ks
unfolding first_rule
first_rule-put b key d [] h = refl
first_rule-put b key d (k ∷ ks) h =
    ground
      (arith, lookup-put_ne key k d b (λ e. h (inl e)), first_rule-put b key d ks (λ i. h (inr i)))

resolve-put :
    (b : Bucket) (key : Text) (d : Decision) (method : Text) (kind : Kind) (ks : List Text)
    → consulted_keys method kind ≡ some ks
    → ¬ In key ks
    → resolve (put key d b) method kind ≡ resolve b method kind
unfolding resolve resolve_detailed resolve_consulted
resolve-put b key d method kind ks e h =
    rw (e, resolve, resolve_detailed)
      (ground (arith, first_deny-put b key d ks h, first_rule-put b key d ks h))

In-cases : (key : Text) (ks : List Text) → In key ks ⊎ (¬ In key ks)
In-cases key [] = inr (λ i. i)
In-cases key (k ∷ ks) = elim (Bool-cases (key == k)) [
  | inl same ↦ inl (inl ((==_iff key k).0 same))
  | inr other ↦ elim (In-cases key ks) [
    | inl i ↦ inl (inr i)
    | inr out ↦ inr (elim [ inl e ↦ absurd (ground (arith, ==_iff key k)) | inr i ↦ out i ])
  ]
]

-- Adding a `deny` under any key makes an answer `deny` or leaves it as it was.
pub resolve-put_deny :
    (b : Bucket) (key : Text) (method : Text) (kind : Kind)
    → (resolve (put key deny b) method kind ≡ some deny)
      ⊎ (resolve (put key deny b) method kind ≡ resolve b method kind)
unfolding resolve
resolve-put_deny b key method kind =
    let (ks, e, a, answered, denies) = resolve_detailed-deny (put key deny b) method kind in
    elim (In-cases key ks) [
      | inl i ↦
          inl (rw (answered, resolve) (ap some (denies.1 (key, i, lookup-put_self key deny b))))
      | inr out ↦ inr (resolve-put b key deny method kind ks e out)
    ]

pub kind_key-injective : (i j : ℤ) → kind_key i ≡ kind_key j → i ≡ j
unfolding kind_key
kind_key-injective i j h =
    show_int-injective i j (append_cancel (text "signEvent:") (show_int i) (show_int j) h)

-- The keys that a `signEvent` request consults, most specific first.
pub consulted_sign_event :
    (k : ℤ)
    → consulted_keys sign_event (integer k)
      ≡ some ((if is_dm_kind k then send_messages else kind_key k) ∷ sign_event ∷ star ∷ [])
unfolding consulted_keys permission_key sign_event_key text_beq starts_with kind_key
consulted_sign_event k = elim (Bool-cases (is_dm_kind k)) [ inl dm ↦ rw dm | inr other ↦ rw other ]

kind_key-ne_word :
    (k : ℤ) → (kind_key k ≢ sign_event) × (kind_key k ≢ star) × (kind_key k ≢ send_messages)
unfolding kind_key text_beq
kind_key-ne_word k = (
  text_ne (kind_key k) sign_event refl,
  text_ne (kind_key k) star refl,
  text_ne (kind_key k) send_messages refl,
)

rule_key_out :
    (j k : ℤ) (a b : Bool)
    → j ≢ k
    → a && b ≡ false
    → ¬ In
        (if a then send_messages else kind_key j)
        ((if b then send_messages else kind_key k) ∷ sign_event ∷ star ∷ [])
unfolding text_beq
rule_key_out j k true true h n i = absurd (ground (arith, n))
rule_key_out j k true false h n (inl e) = (kind_key-ne_word k).2 (sym e)
rule_key_out j k false true h n (inl e) = (kind_key-ne_word j).2 e
rule_key_out j k false false h n (inl e) = h (kind_key-injective j k e)
rule_key_out j k true b h n (inr (inl e)) = text_ne send_messages sign_event refl e
rule_key_out j k false b h n (inr (inl e)) = (kind_key-ne_word j).0 e
rule_key_out j k true b h n (inr (inr (inl e))) = text_ne send_messages star refl e
rule_key_out j k false b h n (inr (inr (inl e))) = (kind_key-ne_word j).1 e
rule_key_out j k a b h n (inr (inr (inr i))) = i

permission_key-sign_event :
    (j : ℤ)
    → permission_key sign_event (integer j)
      ≡ some (if is_dm_kind j then send_messages else kind_key j)
unfolding permission_key sign_event_key text_beq starts_with
permission_key-sign_event j = refl

-- A rule for one event kind, stored under the key that `permissionKey` gives the kind, does not reach
-- requests for another kind, whatever it decides, unless both are kinds of a direct message, which
-- share the rule `sendMessages`.
pub resolve-put_kind :
    (b : Bucket) (d : Decision) (key : Text) (j k : ℤ)
    → permission_key sign_event (integer j) ≡ some key
    → j ≢ k
    → is_dm_kind j && is_dm_kind k ≡ false
    → resolve (put key d b) sign_event (integer k) ≡ resolve b sign_event (integer k)
resolve-put_kind b d key j k s h n =
    let own : (if is_dm_kind j then send_messages else kind_key j) ≡ key =
      cc (permission_key-sign_event j, s) in
    resolve-put b key d sign_event (integer k) _ (consulted_sign_event k) (
      subst
        (λ (t : Text).
          ¬ In t ((if is_dm_kind k then send_messages else kind_key k) ∷ sign_event ∷ star ∷ []))
        own (rule_key_out j k (is_dm_kind j) (is_dm_kind k) h n))

-- What three levels of rules say: a `deny` anywhere, and else the most specific rule, and else `ask`.
abbrev pub cascade : Option Decision → Option Decision → Option Decision → Decision
cascade (some deny) method wildcard = deny
cascade kind (some deny) wildcard = deny
cascade kind method (some deny) = deny
cascade (some d) method wildcard = d
cascade none (some d) wildcard = d
cascade none none (some d) = d
cascade none none none = ask

-- Signing an event of a stated kind, other than relay authentication, is decided by its own rule
-- (`sendMessages` for the kinds of a direct message), the rule for `signEvent` and the wildcard.
pub resolve-cascade :
    (b : Bucket) (k : ℤ)
    → k ≢ nip42_kind
    → resolve b sign_event (integer k)
      ≡ some (
          cascade
            (lookup (if is_dm_kind k then send_messages else kind_key k) b)
            (lookup sign_event b)
            (lookup star b))
unfolding resolve resolve_detailed resolve_consulted first_deny first_rule text_beq
resolve-cascade b k h =
    rw (consulted_sign_event k, resolve, resolve_detailed) (ground (arith, ==_iff k nip42_kind))
