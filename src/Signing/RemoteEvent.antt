-- ===== src/Signing/RemoteEvent.antt =====
-- packages/identity/src/signing/remoteEvent.ts: what a remote signer's answer must be. A field of the
-- answer is `none` where it is missing or of another type; tags stand for the lists with the same JSON
-- text. `verifyEvent` of nostr-tools is the parameter `verify_event`.

use nostr_wot_sdk.Prelude.{
  Bool, true, false, not, ◌&&◌, ◌≡◌, arith, Option, none, some, List, [], ◌∷◌, Text, text_eq, ◌==◌,
  if◌then◌else◌, ℤ, pos, negsuc, int_eq, Option-cases, Bool-cases, inl, inr,
}
use nostr_wot_sdk.Permissions.Grants.{option_beq}
use nostr_wot_sdk.Signing.Queue.{Code, author_mismatch, operation_failed}
use nostr_wot_sdk.Signing.Requests.{EventTemplate}

pub record SignedEvent : Type 0 where
  pub id : Text
  pub pubkey : Text
  pub created_at : ℤ
  pub kind : ℤ
  pub tags : List (List Text)
  pub content : Text
  pub sig : Text

pub record AnsweredEvent : Type 0 where
  pub id : Option Text
  pub pubkey : Option Text
  pub created_at : Option ℤ
  pub kind : Option ℤ
  pub tags : Option (List (List Text))
  pub content : Option Text
  pub sig : Option Text

pub data RemoteAnswer : Type 0 where
  not_object : RemoteAnswer
  object : AnsweredEvent → RemoteAnswer

pub data Verified : Type 0 where
  verified : SignedEvent → Verified
  refused : Code → Verified

abbrev texts_beq : List Text → List Text → Bool
texts_beq [] [] = true
texts_beq (s ∷ ss) (t ∷ ts) = s == t && texts_beq ss ts
texts_beq _ _ = false

abbrev tags_beq : List (List Text) → List (List Text) → Bool
tags_beq [] [] = true
tags_beq (s ∷ ss) (t ∷ ts) = texts_beq s t && tags_beq ss ts
tags_beq _ _ = false

abbrev same_tags : Option (List (List Text)) → List (List Text) → Bool
same_tags none tags = false
same_tags (some answered) tags = tags_beq answered tags

abbrev same_int : Option ℤ → ℤ → Bool
same_int none k = false
same_int (some j) k = j == k

-- The answered time, if it is one that the template allows.
unfoldable pub allowed_time : Option ℤ → Option ℤ → Option ℤ
allowed_time (some t) (some answered) = if answered == t then some answered else none
allowed_time none (some (pos n)) = some (pos n)
allowed_time _ _ = none

-- The end of the function, once the template's fields are known to be answered.
unfoldable pub seal :
    (SignedEvent → Bool) → AnsweredEvent → EventTemplate → Text → ℤ → Text → Text → Verified
seal verify_event event template expected created_at id sig =
    let signed : SignedEvent = record {
      id = id;
      pubkey = expected;
      created_at = created_at;
      kind = template.kind;
      tags = template.tags;
      content = template.content;
      sig = sig;
    } in
    if verify_event signed then verified signed else refused operation_failed

-- `isNonNegativeInteger`, `sameTags` and the comparison `changed`: the time of an unchanged event.
unfoldable pub unchanged_time : AnsweredEvent → EventTemplate → Option ℤ
unchanged_time event template =
    if same_int event.kind template.kind
      && option_beq event.content (some template.content)
      && same_tags event.tags template.tags
    then allowed_time template.created_at event.created_at
    else none

unfoldable pub verify_object :
    (SignedEvent → Bool) → AnsweredEvent → EventTemplate → Text → Verified
verify_object verify_event event template expected =
    if not (option_beq event.pubkey (some expected))
    then refused author_mismatch
    else elim (unchanged_time event template) [
      | none ↦ refused operation_failed
      | some created_at ↦ elim event.id [
        | none ↦ refused operation_failed
        | some id ↦ elim event.sig [
          | none ↦ refused operation_failed
          | some sig ↦ seal verify_event event template expected created_at id sig
        ]
      ]
    ]

unfoldable pub verify_remote_signed_event :
    (SignedEvent → Bool) → RemoteAnswer → EventTemplate → Text → Verified
verify_remote_signed_event verify_event not_object template expected = refused operation_failed
verify_remote_signed_event verify_event (object event) template expected =
    verify_object verify_event event template expected

allowed_time-allowed :
    (wanted answered : Option ℤ) (t : ℤ)
    → allowed_time wanted answered ≡ some t
    → allowed_time wanted (some t) ≡ some t
unfolding allowed_time
allowed_time-allowed (some w) (some a) t h = ground (arith, h)
allowed_time-allowed none (some (pos n)) t h = ground (arith, h)
allowed_time-allowed none (some (negsuc n)) t h = absurd (ground (arith, h))
allowed_time-allowed none none t h = absurd (ground (arith, h))
allowed_time-allowed (some w) none t h = absurd (ground (arith, h))

module _ (verify_event : SignedEvent → Bool) where
  seal-verified :
      (event : AnsweredEvent) (template : EventTemplate) (expected : Text) (created_at : ℤ)
      (id sig : Text) (e : SignedEvent)
      → seal verify_event event template expected created_at id sig ≡ verified e
      → (verify_event e ≡ true)
        × (e.pubkey ≡ expected)
        × (e.kind ≡ template.kind)
        × (e.tags ≡ template.tags)
        × (e.content ≡ template.content)
        × (e.created_at ≡ created_at)
  unfolding seal
  seal-verified event template expected created_at id sig e h =
      let signed : SignedEvent = record {
        id = id;
        pubkey = expected;
        created_at = created_at;
        kind = template.kind;
        tags = template.tags;
        content = template.content;
        sig = sig;
      } in
      elim (Bool-cases (verify_event signed)) [
        | inl good ↦
            let same : e ≡ signed = ground (arith, h, good) in
            rw same (good, ground arith, ground arith, ground arith, ground arith, ground arith)
        | inr bad ↦ absurd (ground (arith, h, bad))
      ]

  -- A remote signer's answer is accepted only with a signature that verifies over an event of the
  -- expected author whose kind, tags and content are the template's, and with the time that the
  -- template gives or, where it gives none, a time from 0 on.
  pub verify_remote_signed_event-verified :
      (answer : RemoteAnswer) (template : EventTemplate) (expected : Text) (e : SignedEvent)
      → verify_remote_signed_event verify_event answer template expected ≡ verified e
      → (verify_event e ≡ true)
        × (e.pubkey ≡ expected)
        × (e.kind ≡ template.kind)
        × (e.tags ≡ template.tags)
        × (e.content ≡ template.content)
        × (allowed_time template.created_at (some e.created_at) ≡ some e.created_at)
  unfolding verify_remote_signed_event verify_object unchanged_time
  verify_remote_signed_event-verified not_object template expected e h = absurd (ground (arith, h))
  verify_remote_signed_event-verified (object event) template expected e h =
      elim (Option-cases (unchanged_time event template)) [
        | inl changed ↦ absurd (ground (arith, h, changed))
        | inr (t, kept) ↦ elim (Option-cases event.id) [
          | inl no_id ↦ absurd (ground (arith, h, kept, no_id))
          | inr (id, has_id) ↦ elim (Option-cases event.sig) [
            | inl no_sig ↦ absurd (ground (arith, h, kept, has_id, no_sig))
            | inr (sig, has_sig) ↦
                let sealed =
                  seal-verified event template expected t id sig e
                    (ground (arith, h, kept, has_id, has_sig)) in
                let allowed : allowed_time template.created_at event.created_at ≡ some t =
                  ground (arith, kept) in
                (
                  sealed.0,
                  sealed.1,
                  sealed.2,
                  sealed.3,
                  sealed.4,
                  rw (sealed.5)
                      (allowed_time-allowed template.created_at event.created_at t allowed),
                )
          ]
        ]
      ]
