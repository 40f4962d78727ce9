-- ===== src/Signing/Core/Remembers.antt =====
-- The rules that an answer to the prompt of `#run` in core.ts saves for an authentication event.
use nostr_wot_sdk.Prelude.{
  ◌≡◌, Bool, true, false, Option, none, some, List, Text, arith, any, text_eq,
}
use nostr_wot_sdk.Permissions.Key.{Kind}
use nostr_wot_sdk.Permissions.Host.{Consent, allow, deny}
use nostr_wot_sdk.Permissions.Grants.{AuthenticationScope}
use nostr_wot_sdk.Permissions.Authentication.{is_authentication_kind}
use nostr_wot_sdk.Signing.Queue.{account_switched}
use nostr_wot_sdk.Signing.Requests.{
  SafeAccount, SignerMethod, SignerRequest, Asked, EventTemplate, PreparedParams, sign_event,
  permission_rule, params_method,
}
use nostr_wot_sdk.Signing.Core.World.{
  World, Event, Failure, signer, authentication_denied, vault_failure, callback_failure, other,
  ApprovalDecision, AuthenticationRun, rule_saved, note,
}
use nostr_wot_sdk.Signing.Core.Ports.{Ports, GrantsPort}
use nostr_wot_sdk.Signing.Core.Gates.{would_be_unbounded, save_rule, remember, assert_still_active}
use nostr_wot_sdk.Signing.Core.Authenticate.{
  save_with, unsaved, save_if_any, save_authentication_grant, unremembered,
  remember_authentication_deny,
}
use nostr_wot_sdk.Signing.Core.Prompt.{
  present, remember_rejection, reject_run, set_authentication, take_scope, cool_down, accept_run,
  decide, ask_user,
}
use nostr_wot_sdk.Signing.Core.Quiet.{Keeps, keeps_rules, Keeps-pure, Keeps-throw, Keeps-if}

-- Whether an event of the log is a rule that was saved to allow.
abbrev pub allows : Event → Bool
allows (rule_saved origin_key method kind allow account_id) = true
allows _ = false

-- No rule that was saved allows.
abbrev pub NoAllow : List Event → Type 0
NoAllow log = any allows log ≡ false

module _ {E : Type 0} (p : Ports E) where
  Keeps-note : (e : Event) → allows e ≡ false → Keeps NoAllow (note {E = E} e)
  unfolding note
  Keeps-note e h = record { at = λ w k. ground (arith, h, k) }

  Keeps-assert_still_active : (a : SafeAccount) → Keeps NoAllow (assert_still_active p a)
  unfolding assert_still_active
  Keeps-assert_still_active a = search (keeps_rules, Keeps-note) depth 14

  Keeps-save_denial :
      (key : Text) (m : SignerMethod) (kind : Kind) (a : SafeAccount)
      → Keeps NoAllow (save_rule p key m kind deny a)
  unfolding save_rule
  Keeps-save_denial key m kind a = search (keeps_rules, Keeps-note) depth 14

  Keeps-remember_deny :
      (key : Text) (rule : Asked) (b : Option Bool) (a : SafeAccount)
      → Keeps NoAllow (remember p key rule b deny a)
  unfolding remember
  Keeps-remember_deny key rule b a = search (keeps_rules, Keeps-save_denial) depth 14

  Keeps-remember_allow :
      (key : Text) (e : EventTemplate) (b : Option Bool) (a : SafeAccount)
      → is_authentication_kind e.kind ≡ true
      → Keeps NoAllow (remember p key (permission_rule (sign_event e)) b allow a)
  unfolding remember would_be_unbounded permission_rule
  Keeps-remember_allow key e b a h = rw h (Keeps-pure tt)

  Keeps-save_with :
      (g : GrantsPort E) (run : AuthenticationRun) (sc : AuthenticationScope) (a : SafeAccount)
      (d : Consent)
      → Keeps NoAllow (save_with p g run sc a d)
  unfolding save_with
  Keeps-save_with g run sc a d =
      search (keeps_rules, Keeps-note, Keeps-assert_still_active) depth 14

  Keeps-unsaved : (f : Failure) → Keeps NoAllow (unsaved p f)
  unfolding unsaved
  Keeps-unsaved (signer code) = search (keeps_rules) depth 14
  Keeps-unsaved authentication_denied = search (keeps_rules) depth 14
  Keeps-unsaved vault_failure = search (keeps_rules) depth 14
  Keeps-unsaved (callback_failure locked) = search (keeps_rules) depth 14
  Keeps-unsaved other = search (keeps_rules) depth 14

  Keeps-save_if_any :
      (og : Option (GrantsPort E)) (run : AuthenticationRun) (sc : AuthenticationScope)
      (a : SafeAccount) (d : Consent)
      → Keeps NoAllow (save_if_any p og run sc a d)
  unfolding save_if_any
  Keeps-save_if_any none run sc a d = search (keeps_rules) depth 14
  Keeps-save_if_any (some g) run sc a d =
      search (keeps_rules, Keeps-save_with, Keeps-unsaved) depth 14

  Keeps-unremembered : (f : Failure) → Keeps NoAllow (unremembered p f)
  unfolding unremembered
  Keeps-unremembered (signer account_switched) = Keeps-throw (signer account_switched)
  Keeps-unremembered _ = Keeps-throw _

  Keeps-remember_authentication_deny :
      (run : AuthenticationRun) (a : SafeAccount)
      → Keeps NoAllow (remember_authentication_deny p run a)
  unfolding remember_authentication_deny save_authentication_grant
  Keeps-remember_authentication_deny run a =
      search (keeps_rules, Keeps-save_if_any, Keeps-unremembered) depth 14

  module _ (request : SignerRequest) (e : EventTemplate) (account : SafeAccount) where
    Keeps-present :
        (prepared : PreparedParams) (o : Option AuthenticationRun)
        → Keeps NoAllow (present p request prepared account o)
    unfolding present
    Keeps-present prepared o = search (keeps_rules, Keeps-note) depth 14

    Keeps-remember_rejection :
        (o : Option AuthenticationRun) (outcome : ApprovalDecision)
        → Keeps NoAllow (remember_rejection p request (sign_event e) account o outcome)
    unfolding remember_rejection
    Keeps-remember_rejection none outcome = Keeps-remember_deny _ _ _ account
    Keeps-remember_rejection (some run) outcome =
        search (keeps_rules, Keeps-remember_deny, Keeps-remember_authentication_deny) depth 14

    Keeps-reject_run :
        (o : Option AuthenticationRun) (outcome : ApprovalDecision)
        → Keeps NoAllow (reject_run p request (sign_event e) account o outcome)
    unfolding reject_run
    Keeps-reject_run o outcome = search (keeps_rules, Keeps-remember_rejection) depth 14

    Keeps-take_scope :
        (o : Option AuthenticationRun) (outcome : ApprovalDecision)
        → Keeps NoAllow (take_scope p o outcome)
    unfolding take_scope set_authentication
    Keeps-take_scope none outcome = search (keeps_rules) depth 14
    Keeps-take_scope (some run) outcome = search (keeps_rules) depth 14

    Keeps-accept_run :
        (o : Option AuthenticationRun) (outcome : ApprovalDecision)
        → is_authentication_kind e.kind ≡ true
        → Keeps NoAllow (accept_run p request (sign_event e) account o outcome)
    unfolding accept_run params_method cool_down
    Keeps-accept_run o outcome h =
        search
          (
            keeps_rules,
            Keeps-take_scope,
            Keeps-assert_still_active,
            λ (key : Text) (b : Option Bool). Keeps-remember_allow key e b account h,
          )
          depth 14

    Keeps-decide :
        (o : Option AuthenticationRun) (outcome : ApprovalDecision)
        → is_authentication_kind e.kind ≡ true
        → Keeps NoAllow (decide p request (sign_event e) account o outcome)
    unfolding decide
    Keeps-decide o outcome h =
        Keeps-if outcome.allow _ _ (Keeps-accept_run o outcome h) (Keeps-reject_run o outcome)

    -- From a log where no saved rule allows, once the user is asked to sign an event of an authentication
    -- kind, no saved rule allows, whatever the user answers and asks to remember, for every kind or for
    -- this one, and whatever the ports answer and change.
    pub ask_user-NoAllow :
        (prepared : PreparedParams) (o : Option AuthenticationRun) (w : World E)
        → is_authentication_kind e.kind ≡ true
        → NoAllow w.log
        → NoAllow (ask_user p request (sign_event e) prepared account o w).1.log
    unfolding ask_user
    ask_user-NoAllow prepared o w h quiet =
        let keeps : Keeps NoAllow (ask_user p request (sign_event e) prepared account o) =
          search
            (keeps_rules, Keeps-present, λ (outcome : ApprovalDecision). Keeps-decide o outcome h)
            depth 14 in
        keeps.at w quiet
