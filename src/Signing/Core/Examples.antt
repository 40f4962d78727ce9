-- ===== src/Signing/Core/Examples.antt =====
-- core.ts with a host whose user allows everything, on one event to sign.
use nostr_wot_sdk.Prelude.{
  ◌≡◌, refl, true, false, none, some, [], ◌∷◌, text, text_beq, pos, int_beq, arith,
}
use nostr_wot_sdk.Permissions.Key.{deny, ask}
use nostr_wot_sdk.Signing.Requests.{
  same_site, canonical_origin_key, ValidatedParams, EventTemplate, plain, sign_event,
  permission_origin, permission_rule,
}
use nostr_wot_sdk.Signing.RemoteEvent.{
  SignedEvent, RemoteAnswer, object, verified, verify_remote_signed_event, verify_object,
  unchanged_time, allowed_time, seal, verify_remote_signed_event-verified,
}
use nostr_wot_sdk.Signing.Core.{Core, create, revoke_origin, clear_cooldown, is_revoked_since}
use nostr_wot_sdk.Signing.Core.Prompt.{must_ask, ask_user}
use nostr_wot_sdk.Signing.Core.Records.{Told, handle_validated-Told}
use nostr_wot_sdk.Signing.Core.Revocations.{
  Valid, revoke_each, revoke_origin-revoked, must_ask-clear_cooldown,
}
use nostr_wot_sdk.Signing.Core.Remembers.{NoAllow, ask_user-NoAllow}
use nostr_wot_sdk.Permissions.Scope.Chars.{cut_at, lower}
use nostr_wot_sdk.Signing.Core.World.{
  World, ok, err, signer, ActivityEntry, recorded, checked, active_account,
}
use nostr_wot_sdk.Signing.Core.Ports.{Ports}
use nostr_wot_sdk.Signing.Queue.{permission_denied}
use nostr_wot_sdk.Signing.Core.Handle.{handle_validated}
use nostr_wot_sdk.Signing.Core.Denials.{handle_validated-denied}
use nostr_wot_sdk.Signing.Core.Samples.{host, request, template, start, alice, yes_to_all}
use nostr_wot_sdk.Signing.Core.Lawful.{Lawful}
use nostr_wot_sdk.Signing.Core.Lawful.Use.{handle_validated-Lawful}

handle_validated-Lawful_example :
    Lawful request
      (sign_event template)
      false
      (handle_validated host request (sign_event template) false start).1.log
handle_validated-Lawful_example =
    handle_validated-Lawful host request (sign_event template) false start refl

handle_validated-Told_example :
    Told request
      (handle_validated host request (sign_event template) false start).0
      (handle_validated host request (sign_event template) false start).1.log
handle_validated-Told_example = handle_validated-Told host request (sign_event template) false start

abbrev signed_template : SignedEvent
signed_template = record {
  id = text "e1";
  pubkey = text "alice";
  created_at = pos 7;
  kind = pos 1;
  tags = [];
  content = text "hi";
  sig = text "s1";
}

abbrev answer : RemoteAnswer
answer = object (record {
  id = some (text "e1");
  pubkey = some (text "alice");
  created_at = some (pos 7);
  kind = some (pos 1);
  tags = some [];
  content = some (text "hi");
  sig = some (text "s1");
})

accepted_answer :
    verify_remote_signed_event (λ e. true) answer template (text "alice") ≡ verified signed_template
unfolding verify_remote_signed_event verify_object unchanged_time allowed_time seal text_beq int_beq
accepted_answer = refl

verify_remote_signed_event-verified_example :
    (true ≡ true)
    × (signed_template.pubkey ≡ text "alice")
    × (signed_template.kind ≡ template.kind)
    × (signed_template.tags ≡ template.tags)
    × (signed_template.content ≡ template.content)
    × (allowed_time template.created_at (some signed_template.created_at)
        ≡ some signed_template.created_at)
verify_remote_signed_event-verified_example =
    verify_remote_signed_event-verified (λ e. true) answer template (text "alice") signed_template
      accepted_answer

same_bunker : same_site (canonical_origin_key (text "nip46:ABC")) (text "nip46:abc") ≡ true
unfolding same_site canonical_origin_key cut_at lower text_beq
same_bunker = refl

create-Valid : Valid create
unfolding create
create-Valid = tt

revoke_origin-revoked_example :
    is_revoked_since 0
      (text "nip46:abc")
      (revoke_each
        (revoke_origin create (text "nip46:ABC") (text "bye")).0
        ((text "https://x.example", []) ∷ [])).revocations
    ≡ true
revoke_origin-revoked_example =
    revoke_origin-revoked create (text "nip46:ABC") (text "bye") (text "nip46:abc") 0
      ((text "https://x.example", []) ∷ []) create-Valid (omega arith) same_bunker

same_peer : same_site (text "nip46:abc") (canonical_origin_key (text "nip46:ABC")) ≡ true
unfolding same_site canonical_origin_key cut_at lower text_beq
same_peer = refl

-- A cooldown that would still hold the prompt back.
abbrev cooling : Core
cooling = record create {
  cooldowns = (text "nip46:abc", record { expires_at = 9000; account_id = text "a1" }) ∷ [];
}

must_ask-clear_cooldown_example :
    (must_ask host ask ValidatedParams.get_public_key
      (text "nip46:abc")
      alice
      none
      (record start { core = clear_cooldown cooling (text "nip46:ABC") })).0
    ≡ ok true
must_ask-clear_cooldown_example =
    must_ask-clear_cooldown host cooling (text "nip46:ABC") (text "nip46:abc") alice start same_peer

abbrev login : EventTemplate
login = record template { kind = pos 22242 }

-- The user allows and asks to remember it for every kind.
abbrev eager : Ports (Unit {0})
eager = record host {
  present = λ r shown a context c e.
      (ok (record yes_to_all { remember = true; remember_kind = some false }), (c, e));
}

abbrev login_seen : World (Unit {0})
login_seen =
    (ask_user eager request (sign_event login) (plain (sign_event login)) alice none start).1

ask_user-NoAllow_example : NoAllow login_seen.log
unfolding ask_user int_beq
ask_user-NoAllow_example =
    ask_user-NoAllow eager request login alice (plain (sign_event login)) none start refl refl

abbrev denying : Ports (Unit {0})
denying = record host { check = λ k m kind id c e. (ok deny, (c, e)) }

handle_validated-denied_example :
    ((handle_validated denying request (sign_event template) false start).0
      ≡ err (signer permission_denied))
    × (entry : ActivityEntry) × ((handle_validated denying request
          (sign_event template)
          false
          start).1.log
        ≡ recorded entry
          ∷ checked
              (permission_origin request.origin)
              (permission_rule (sign_event template)).method
              (permission_rule (sign_event template)).kind
              alice.id
              deny
          ∷ active_account (some alice)
          ∷ [])
handle_validated-denied_example =
    handle_validated-denied denying request (sign_event template) false start alice create create tt
      tt refl refl
