-- ===== src/Permissions/Key/Examples.antt =====
-- Buckets that a user may have built up, and what key.ts answers from them.
use nostr_wot_sdk.Prelude.{
  ◌≡◌, ◌≢◌, ◌↔◌, ◌⊎◌, refl, none, some, List, [], ◌∷◌, ℤ, pos, negsuc, int_eq, int_beq, show_int,
  Text, text, text_eq, text_beq, starts_with, if◌then◌else◌, lookup, put,
}
use nostr_wot_sdk.Permissions.Key.{
  allow, deny, ask, Bucket, undefined, not_integer, integer, sign_event, star, send_messages,
  nip42_kind, is_dm_kind, kind_key, sign_event_key, permission_key, consulted_keys, Answer,
  first_deny, first_rule, resolve_consulted, resolve_detailed, resolve, resolve_blanket_sign_event,
}
use nostr_wot_sdk.Permissions.Key.Cascade.{
  Holds, consulted_keys_total, resolve_detailed-deny, resolve_detailed-allow,
}
use nostr_wot_sdk.Permissions.Key.Isolation.{
  resolve-put_deny, resolve-put_kind, resolve-cascade, cascade,
}

program : Unit {0}
unfolding is_dm_kind kind_key sign_event_key permission_key consulted_keys first_deny first_rule
    resolve_consulted resolve_detailed resolve resolve_blanket_sign_event lookup put text_beq
    starts_with int_beq show_int
program = tt

-- Every site may sign, and nobody may sign notes.
abbrev bucket : Bucket
bucket =
    (star, allow)
    ∷ (text "signEvent:1", deny)
    ∷ (text "signEvent:22242", allow)
    ∷ (sign_event, allow)
    ∷ []

notes_denied : resolve bucket sign_event (integer (pos 1)) ≡ some deny
unfolding program
notes_denied = refl

kindless_asks : resolve bucket sign_event undefined ≡ some ask
unfolding program
kindless_asks = refl

relay_auth_asks : resolve bucket sign_event (integer nip42_kind) ≡ some ask
unfolding program
relay_auth_asks = refl

negative_kind : permission_key sign_event (integer (negsuc 4)) ≡ some (text "signEvent:-5")
unfolding program
negative_kind = refl

blanket : resolve_blanket_sign_event bucket ≡ record { decision = allow; key = some sign_event }
unfolding program
blanket = refl

throws : permission_key sign_event not_integer ≡ none
unfolding program
throws = refl

consulted_keys_total_example : (ks : List Text) × (consulted_keys sign_event not_integer ≡ some ks)
consulted_keys_total_example = consulted_keys_total sign_event not_integer

resolve_detailed-deny_example :
    (ks : List Text) × (consulted_keys sign_event (integer (pos 1)) ≡ some ks)
    × (a : Answer) × (resolve_detailed bucket sign_event (integer (pos 1)) ≡ some a)
    × ((a.decision ≡ deny) ↔ Holds bucket ks deny)
resolve_detailed-deny_example = resolve_detailed-deny bucket sign_event (integer (pos 1))

abbrev reaction_answer : Answer
reaction_answer = record { decision = allow; key = some sign_event }

resolve_detailed-allow_example :
    (ks : List Text) × (consulted_keys sign_event (integer (pos 7)) ≡ some ks)
    × Holds bucket ks allow
    × (¬ Holds bucket ks deny)
    × (sign_event ≡ sign_event → (k : ℤ) × (integer (pos 7) ≡ integer k) × (k ≢ nip42_kind))
unfolding program
resolve_detailed-allow_example =
    resolve_detailed-allow bucket sign_event (integer (pos 7)) reaction_answer refl refl

resolve-put_deny_example :
    (resolve (put star deny bucket) sign_event (integer (pos 7)) ≡ some deny)
    ⊎ (resolve (put star deny bucket) sign_event (integer (pos 7))
        ≡ resolve bucket sign_event (integer (pos 7)))
resolve-put_deny_example = resolve-put_deny bucket star sign_event (integer (pos 7))

seven-ne-one : pos 1 ≢ pos 7
seven-ne-one e = cc

one-ne-four : pos 4 ≢ pos 1
one-ne-four e = cc

resolve-put_kind_example :
    resolve (put send_messages allow bucket) sign_event (integer (pos 1))
    ≡ resolve bucket sign_event (integer (pos 1))
unfolding program
resolve-put_kind_example =
    resolve-put_kind bucket allow send_messages (pos 4) (pos 1) refl one-ne-four refl

dm-ne-nip42 : pos 4 ≢ nip42_kind
dm-ne-nip42 e = cc

resolve-cascade_example :
    resolve bucket sign_event (integer (pos 4))
    ≡ some (
        cascade
          (lookup (if is_dm_kind (pos 4) then send_messages else kind_key (pos 4)) bucket)
          (lookup sign_event bucket)
          (lookup star bucket))
resolve-cascade_example = resolve-cascade bucket (pos 4) dm-ne-nip42
