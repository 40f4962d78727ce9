-- ===== src/Permissions/Key.antt =====
-- packages/identity/src/permissions/key.ts, with the types of types.ts and the event kinds of
-- constants.ts. A bucket is an object of rules, read by `lookup`; the names that every JavaScript
-- object inherits (`toString` and the like) are not modelled as keys.
pub mod Cascade
pub mod Isolation
mod Examples
use nostr_wot_sdk.Prelude.{
  Bool, true, false, ◌||◌, Option, none, some, List, [], ◌∷◌, ◌++◌, ℤ, pos, int_eq, show_int, Text,
  text, text_eq, starts_with, ◌==◌, if◌then◌else◌, any, lookup,
}

-- `forward` is the retired value that stores in the field may still hold.
pub data Decision : Type 0 where
  allow deny ask forward : Decision

abbrev pub Bucket : Type 0
Bucket = List (Text × Decision)

-- What a caller may pass as a kind: the values that are no integer are one.
pub data Kind : Type 0 where
  undefined null not_integer : Kind
  integer : ℤ → Kind

abbrev pub sign_event : Text
sign_event = text "signEvent"

abbrev pub star : Text
star = text "*"

abbrev pub send_messages : Text
send_messages = text "sendMessages"

abbrev pub read_messages : Text
read_messages = text "readMessages"

abbrev pub dm_sign_kinds : List ℤ
dm_sign_kinds = pos 4 ∷ pos 13 ∷ pos 14 ∷ pos 1059 ∷ []

abbrev pub nip42_kind : ℤ
nip42_kind = pos 22242

unfoldable pub is_dm_kind : ℤ → Bool
is_dm_kind k = any (λ j. j == k) dm_sign_kinds

-- `signEvent:${kind}`
unfoldable pub kind_key : ℤ → Text
kind_key k = text "signEvent:" ++ show_int k

-- The branch of `permissionKey` for `signEvent`.
unfoldable pub sign_event_key : Kind → Option Text
sign_event_key undefined = some sign_event
sign_event_key null = some sign_event
sign_event_key not_integer = none
sign_event_key (integer k) = some (if is_dm_kind k then send_messages else kind_key k)

-- `none` is the exception.
unfoldable pub permission_key : Text → Kind → Option Text
permission_key method kind =
    if starts_with method (text "webln_")
    then some method
    else if method == sign_event
    then sign_event_key kind
    else if method == text "nip04Encrypt" || method == text "nip44Encrypt"
    then some send_messages
    else if method == text "nip04Decrypt" || method == text "nip44Decrypt"
    then some read_messages
    else some method

abbrev pub is_kind : Kind → Bool
is_kind (integer k) = true
is_kind _ = false

-- `method === 'signEvent' && !isKind(kind)`
abbrev pub is_kindless : Text → Kind → Bool
is_kindless method kind =
    if method == sign_event then (if is_kind kind then false else true) else false

unfoldable pub consulted_keys : Text → Kind → Option (List Text)
consulted_keys method kind =
    if is_kindless method kind
    then some (method ∷ star ∷ [])
    else elim (permission_key method kind) [
      | none ↦ none
      | some key ↦ some (if key == method then method ∷ star ∷ [] else key ∷ method ∷ star ∷ [])
    ]

pub record Answer : Type 0 where
  pub decision : Decision
  pub key : Option Text

abbrev pub is_deny : Option Decision → Bool
is_deny (some deny) = true
is_deny _ = false

abbrev ask_for_none : Option Answer → Answer
ask_for_none none = record { decision = ask; key = none }
ask_for_none (some a) = a

-- The loop over the consulted keys that looks for a `deny`.
unfoldable pub first_deny : Bucket → List Text → Option Answer
first_deny bucket [] = none
first_deny bucket (key ∷ keys) =
    if is_deny (lookup key bucket)
    then some (record { decision = deny; key = some key })
    else first_deny bucket keys

-- The loop that looks for any rule.
unfoldable pub first_rule : Bucket → List Text → Option Answer
first_rule bucket [] = none
first_rule bucket (key ∷ keys) = elim (lookup key bucket) [
  | none ↦ first_rule bucket keys
  | some d ↦ some (record { decision = d; key = some key })
]

-- `method === 'signEvent' && kind === NIP42_KIND`
abbrev pub is_relay_auth : Text → Kind → Bool
is_relay_auth method (integer k) = if method == sign_event then k == nip42_kind else false
is_relay_auth method _ = false

-- `resolveDetailed` once the keys are known.
unfoldable pub resolve_consulted : Bucket → Text → Kind → List Text → Answer
resolve_consulted bucket method kind consulted = elim (first_deny bucket consulted) [
  | some a ↦ a
  | none ↦
      if is_kindless method kind || is_relay_auth method kind
      then record { decision = ask; key = none }
      else ask_for_none (first_rule bucket consulted)
]

unfoldable pub resolve_detailed : Bucket → Text → Kind → Option Answer
resolve_detailed bucket method kind = elim (consulted_keys method kind) [
  | none ↦ none
  | some consulted ↦ some (resolve_consulted bucket method kind consulted)
]

unfoldable pub resolve : Bucket → Text → Kind → Option Decision
resolve bucket method kind = elim (resolve_detailed bucket method kind) [
  | none ↦ none
  | some a ↦ some a.decision
]

unfoldable pub resolve_blanket_sign_event : Bucket → Answer
resolve_blanket_sign_event bucket = elim (first_deny bucket (sign_event ∷ star ∷ [])) [
  | some a ↦ a
  | none ↦ ask_for_none (first_rule bucket (sign_event ∷ star ∷ []))
]
