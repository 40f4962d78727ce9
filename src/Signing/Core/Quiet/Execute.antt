-- ===== src/Signing/Core/Quiet/Execute.antt =====
-- The rules of Quiet for what comes before and after the key's use in core.ts.
use nostr_wot_sdk.Prelude.{Bool, true, false, Option, none, some, List, Text, text_eq, nat_eq}
use nostr_wot_sdk.Signing.Requests.{
  SafeAccount, ValidatedParams, PreparedParams, sign_event, nip04_encrypt, nip04_decrypt,
  nip44_encrypt, nip44_decrypt, classic, pq, hybrid, unreadable, plain, attestation, EventTemplate,
}
use nostr_wot_sdk.Signing.RemoteEvent.{
  RemoteAnswer, Verified, verified, refused, verify_remote_signed_event,
}
use nostr_wot_sdk.Signing.Core.World.{M, Port, Event, Failure}
use nostr_wot_sdk.Signing.Core.Ports.{Ports}
use nostr_wot_sdk.Signing.Core.Execute.{
  as_callback, as_vault, derive, pick_pq_keys, refuse_locked, with_pq_keys, attestation_event,
  build_attestation, sign_template, execute, execute_pq, perform, accept, checked_answer,
  read_relays,
}
use nostr_wot_sdk.Signing.Core.Quiet.{Stable, Keeps, keeps_rules, Keeps-note}

module _ {E : Type 0} (p : Ports E) {P : List Event → Type 0} (s : Stable P) where
  pub Keeps-as_callback : {A : Type 0} (f : Failure) → Keeps P (as_callback p {A = A} f)
  unfolding as_callback
  Keeps-as_callback f = search (keeps_rules) depth 14

  pub Keeps-as_vault : {A : Type 0} (f : Failure) → Keeps P (as_vault p {A = A} f)
  unfolding as_vault
  Keeps-as_vault f = search (keeps_rules) depth 14

  Keeps-derive :
      {A : Type 0} (a : SafeAccount) (fn : Text → M E A) (phrase : Text)
      → ((k : Text) → Keeps P (fn k))
      → Keeps P (derive p a fn phrase)
  unfolding derive
  Keeps-derive a fn phrase kf = search (keeps_rules) depth 14

  Keeps-pick_pq_keys :
      {A : Type 0} (a : SafeAccount) (fn : Text → M E A) (b b2 : Bool)
      → ((k : Text) → Keeps P (fn k))
      → Keeps P (pick_pq_keys p a fn b b2)
  unfolding pick_pq_keys
  Keeps-pick_pq_keys a fn true b2 kf = search (keeps_rules) depth 14
  Keeps-pick_pq_keys a fn false b2 kf = search (keeps_rules, Keeps-derive) depth 14

  pub Keeps-refuse_locked : (b : Bool) → Keeps P (refuse_locked p b)
  unfolding refuse_locked
  Keeps-refuse_locked true = search (keeps_rules) depth 14
  Keeps-refuse_locked false = search (keeps_rules) depth 14

  pub Keeps-with_pq_keys :
      {A : Type 0} (a : SafeAccount) (fn : Text → M E A)
      → ((k : Text) → Keeps P (fn k))
      → Keeps P (with_pq_keys p a fn)
  unfolding with_pq_keys
  Keeps-with_pq_keys a fn kf =
      search (keeps_rules, Keeps-refuse_locked, Keeps-pick_pq_keys) depth 14

  pub Keeps-attestation_event : (a : SafeAccount) (k : Text) → Keeps P (attestation_event p a k)
  unfolding attestation_event
  Keeps-attestation_event a k = search (keeps_rules, Keeps-note) depth 14

  pub Keeps-build_attestation : (a : SafeAccount) → Keeps P (build_attestation p a)
  unfolding build_attestation
  Keeps-build_attestation a =
      search (keeps_rules, Keeps-with_pq_keys, Keeps-attestation_event, Keeps-as_callback) depth 14

  pub Keeps-sign_template : (e : EventTemplate) (k : Text) → Keeps P (sign_template p e k)
  unfolding sign_template
  Keeps-sign_template e k = search (keeps_rules) depth 14

  Keeps-execute : (prep : PreparedParams) (k : Text) → Keeps P (execute p prep k)
  unfolding execute
  Keeps-execute (attestation e) k = Keeps-sign_template e k
  Keeps-execute (plain (sign_event e)) k = Keeps-sign_template e k
  Keeps-execute (plain (nip04_encrypt _ _)) k = search (keeps_rules)
  Keeps-execute (plain (nip04_decrypt _ _)) k = search (keeps_rules)
  Keeps-execute (plain (nip44_encrypt _ _ classic)) k = search (keeps_rules)
  Keeps-execute (plain (nip44_decrypt _ _ classic)) k = search (keeps_rules)
  Keeps-execute (plain _) k = search (keeps_rules)

  Keeps-execute_pq : (prep : PreparedParams) (k keys : Text) → Keeps P (execute_pq p prep k keys)
  unfolding execute_pq
  Keeps-execute_pq (plain (nip44_encrypt _ _ (pq _))) k keys = search (keeps_rules)
  Keeps-execute_pq (plain (nip44_decrypt _ _ (pq hybrid))) k keys = search (keeps_rules)
  Keeps-execute_pq (plain (nip44_decrypt _ _ (pq unreadable))) k keys = search (keeps_rules)
  Keeps-execute_pq _ k keys = search (keeps_rules)

  pub Keeps-perform :
      (a : SafeAccount) (prep : PreparedParams) (k : Text) → Keeps P (perform p a prep k)
  unfolding perform
  Keeps-perform a prep k =
      search (keeps_rules, Keeps-with_pq_keys, Keeps-execute_pq, Keeps-execute) depth 14

  Keeps-accept : (answer : Verified) → Keeps P (accept p answer)
  unfolding accept
  Keeps-accept (verified event) = search (keeps_rules)
  Keeps-accept (refused code) = search (keeps_rules)

  pub Keeps-checked_answer :
      (answer : RemoteAnswer) (params : ValidatedParams) (a : SafeAccount)
      → Keeps P (checked_answer p answer params a)
  unfolding checked_answer
  Keeps-checked_answer answer (sign_event e) a =
      Keeps-accept (verify_remote_signed_event p.verify_event answer e a.pubkey)
  Keeps-checked_answer answer _ a = search (keeps_rules)

  pub Keeps-read_relays :
      (port : Option (SafeAccount → Port E (List (Text × (Bool × Bool))))) (a : SafeAccount)
      → Keeps P (read_relays p port a)
  unfolding read_relays
  Keeps-read_relays none a = search (keeps_rules) depth 14
  Keeps-read_relays (some port) a = search (keeps_rules) depth 14
