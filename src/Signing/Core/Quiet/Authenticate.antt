-- ===== src/Signing/Core/Quiet/Authenticate.antt =====
-- The rules of Quiet for the authentication part of core.ts.
use nostr_wot_sdk.Prelude.{
  Option-cases, inl, inr, ℕ, Bool, true, false, Option, none, some, List, Text, text_eq, lookup,
}
use nostr_wot_sdk.Permissions.Host.{Consent}
use nostr_wot_sdk.Permissions.Grants.{AuthenticationRequest, AuthenticationScope}
use nostr_wot_sdk.Permissions.Authentication.{
  Requester, Named, requester, Parsed, parsed, invalid, not_authentication,
  authentication_requester_key,
}
use nostr_wot_sdk.Signing.Queue.{
  Code, invalid_request, permission_denied, rejected, account_switched,
}
use nostr_wot_sdk.Signing.Requests.{
  SignerRequest, SafeAccount, ValidatedParams, sign_event, EventTemplate,
}
use nostr_wot_sdk.Signing.Core.World.{
  vault_failure, callback_failure, other, Port, Event, Failure, signer, authentication_denied,
  AuthenticationRun, pure, throw,
}
use nostr_wot_sdk.Signing.Core.Ports.{Ports, GrantsPort}
use nostr_wot_sdk.Signing.Core.Authenticate.{
  accepted, validate_authentication_event, key_of, by_origin_for, by_requester_for, resolve_self,
  resolve_other, resolve_requester, assert_allowed, parse_event, parse_authentication_run,
  stored_decision, check_rule, recheck_grant, throw_some, revalidate_event, revalidate_run,
  revalidate, save_with, unsaved, save_if_any, save_authentication_grant, unremembered,
  remember_authentication_deny,
}
use nostr_wot_sdk.Signing.Core.Quiet.{
  Stable, Keeps, keeps_rules, Keeps-note, Keeps-pure, Keeps-throw,
}
use nostr_wot_sdk.Signing.Core.Quiet.Gates.{Keeps-assert_still_active, Keeps-still_wanted}

module _ {E : Type 0} (p : Ports E) {P : List Event → Type 0} where
  Keeps-accepted : (answer : Parsed) → Keeps P (accepted {E = E} answer)
  unfolding accepted throw pure
  Keeps-accepted (parsed auth) = record { at = λ w h. h }
  Keeps-accepted not_authentication = record { at = λ w h. h }
  Keeps-accepted invalid = record { at = λ w h. h }

  pub Keeps-validate_authentication_event :
      (e : EventTemplate) (named : Named) → Keeps P (validate_authentication_event p e named)
  unfolding validate_authentication_event
  Keeps-validate_authentication_event e named = search (keeps_rules, Keeps-accepted) depth 14

  Keeps-key_of : (r : Requester) → Keeps P (key_of p r)
  unfolding key_of
  Keeps-key_of r = elim (Option-cases (authentication_requester_key r)) [
    | inl no_key ↦ rw (no_key, key_of) (Keeps-throw (signer invalid_request))
    | inr (key, found) ↦
        rw (found, key_of) (Keeps-pure (record { requester = requester r; key = key }))
  ]

  pub Keeps-by_origin_for :
      (port : Option (SignerRequest → SafeAccount → Port E Text)) (req : SignerRequest)
      (a : SafeAccount)
      → Keeps P (by_origin_for p port req a)
  unfolding by_origin_for
  Keeps-by_origin_for none req a = search (keeps_rules) depth 14
  Keeps-by_origin_for (some port) req a = search (keeps_rules) depth 14

  pub Keeps-by_requester_for :
      (port : Option (SignerRequest → SafeAccount → Port E Requester)) (req : SignerRequest)
      (a : SafeAccount)
      → Keeps P (by_requester_for p port req a)
  unfolding by_requester_for
  Keeps-by_requester_for none req a = search (keeps_rules, Keeps-by_origin_for) depth 14
  Keeps-by_requester_for (some port) req a = search (keeps_rules, Keeps-key_of) depth 14

  Keeps-resolve_self : (k : Text) → Keeps P (resolve_self p k)
  unfolding resolve_self
  Keeps-resolve_self k = elim (Option-cases (lookup k p.self_requesters)) [
    | inl missing ↦ rw (missing, resolve_self) (Keeps-throw (signer permission_denied))
    | inr (r, found) ↦
        rw (found, resolve_self) (Keeps-pure (record { requester = requester r; key = k }))
  ]

  pub Keeps-resolve_other :
      (req : SignerRequest) (a : SafeAccount) → Keeps P (resolve_other p req a)
  unfolding resolve_other
  Keeps-resolve_other req a = search (keeps_rules, Keeps-by_requester_for) depth 14

  pub Keeps-resolve_requester :
      (req : SignerRequest) (a : SafeAccount) (b : Bool) → Keeps P (resolve_requester p req a b)
  unfolding resolve_requester
  Keeps-resolve_requester req a true = search (keeps_rules, Keeps-resolve_self) depth 14
  Keeps-resolve_requester req a false = search (keeps_rules, Keeps-resolve_other) depth 14

  pub Keeps-assert_allowed :
      (port : Option (SignerRequest → SafeAccount → AuthenticationRequest → Port E (Unit {0})))
      (req : SignerRequest) (a : SafeAccount) (port2 : AuthenticationRequest)
      → Keeps P (assert_allowed p port req a port2)
  unfolding assert_allowed
  Keeps-assert_allowed none req a port2 = search (keeps_rules) depth 14
  Keeps-assert_allowed (some port) req a port2 = search (keeps_rules) depth 14

  pub Keeps-parse_event :
      (req : SignerRequest) (e : EventTemplate) (a : SafeAccount) (b : Bool)
      → Keeps P (parse_event p req e a b)
  unfolding parse_event
  Keeps-parse_event req e a b =
      search
        (
          keeps_rules, Keeps-resolve_requester, Keeps-validate_authentication_event,
          Keeps-assert_allowed,
        )
        depth 14

  pub Keeps-parse_authentication_run :
      (req : SignerRequest) (params : ValidatedParams) (a : SafeAccount) (b : Bool)
      → Keeps P (parse_authentication_run p req params a b)
  unfolding parse_authentication_run
  Keeps-parse_authentication_run req (sign_event e) a b =
      search (keeps_rules, Keeps-parse_event) depth 14
  Keeps-parse_authentication_run req _ a b = search (keeps_rules) depth 14

  pub Keeps-throw_some : (code : Option Code) → Keeps P (throw_some p code)
  unfolding throw_some
  Keeps-throw_some none = search (keeps_rules) depth 14
  Keeps-throw_some (some code) = search (keeps_rules) depth 14

  pub Keeps-revalidate_event :
      (params : ValidatedParams) (run : AuthenticationRun) → Keeps P (revalidate_event p params run)
  unfolding revalidate_event
  Keeps-revalidate_event (sign_event e) run =
      search (keeps_rules, Keeps-validate_authentication_event) depth 14
  Keeps-revalidate_event _ run = search (keeps_rules) depth 14

module _ {E : Type 0} (p : Ports E) {P : List Event → Type 0} (s : Stable P) where
  pub Keeps-stored_decision :
      (g : GrantsPort E) (a : SafeAccount) (run : AuthenticationRun)
      → Keeps P (stored_decision p g a run)
  unfolding stored_decision
  Keeps-stored_decision g a run = search (keeps_rules, Keeps-note) depth 14

  pub Keeps-check_rule :
      (k : Text) (params : ValidatedParams) (a : SafeAccount) → Keeps P (check_rule p k params a)
  unfolding check_rule
  Keeps-check_rule k params a = search (keeps_rules, Keeps-note) depth 14

  pub Keeps-recheck_grant :
      (og : Option (GrantsPort E)) (a : SafeAccount) (run : AuthenticationRun)
      → Keeps P (recheck_grant p og a run)
  unfolding recheck_grant
  Keeps-recheck_grant none a run = search (keeps_rules) depth 14
  Keeps-recheck_grant (some g) a run = search (keeps_rules, Keeps-stored_decision) depth 14

  pub Keeps-revalidate_run :
      (req : SignerRequest) (params : ValidatedParams) (a : SafeAccount) (run : AuthenticationRun)
      (n : ℕ)
      → Keeps P (revalidate_run p req params a run n)
  unfolding revalidate_run
  Keeps-revalidate_run req params a run n =
      search
        (
          keeps_rules, Keeps-parse_authentication_run, Keeps-check_rule, Keeps-still_wanted,
          Keeps-throw_some, Keeps-recheck_grant, Keeps-revalidate_event,
        )
        depth 30

  pub Keeps-revalidate :
      (req : SignerRequest) (params : ValidatedParams) (a : SafeAccount)
      (o : Option AuthenticationRun) (n : ℕ)
      → Keeps P (revalidate p req params a o n)
  unfolding revalidate
  Keeps-revalidate req params a none n = search (keeps_rules) depth 14
  Keeps-revalidate req params a (some run) n = search (keeps_rules, Keeps-revalidate_run) depth 14

  pub Keeps-save_with :
      (g : GrantsPort E) (run : AuthenticationRun) (sc : AuthenticationScope) (a : SafeAccount)
      (d : Consent)
      → Keeps P (save_with p g run sc a d)
  unfolding save_with
  Keeps-save_with g run sc a d =
      search (keeps_rules, Keeps-note, Keeps-assert_still_active) depth 14

  pub Keeps-unsaved : (f : Failure) → Keeps P (unsaved p f)
  unfolding unsaved
  Keeps-unsaved (signer code) = search (keeps_rules) depth 14
  Keeps-unsaved authentication_denied = search (keeps_rules) depth 14
  Keeps-unsaved vault_failure = search (keeps_rules) depth 14
  Keeps-unsaved (callback_failure locked) = search (keeps_rules) depth 14
  Keeps-unsaved other = search (keeps_rules) depth 14

  pub Keeps-save_if_any :
      (og : Option (GrantsPort E)) (run : AuthenticationRun) (sc : AuthenticationScope)
      (a : SafeAccount) (d : Consent)
      → Keeps P (save_if_any p og run sc a d)
  unfolding save_if_any
  Keeps-save_if_any none run sc a d = search (keeps_rules) depth 14
  Keeps-save_if_any (some g) run sc a d =
      search (keeps_rules, Keeps-save_with, Keeps-unsaved) depth 14

  pub Keeps-save_authentication_grant :
      (run : AuthenticationRun) (sc : AuthenticationScope) (a : SafeAccount) (d : Consent)
      → Keeps P (save_authentication_grant p run sc a d)
  unfolding save_authentication_grant
  Keeps-save_authentication_grant run sc a d = search (keeps_rules, Keeps-save_if_any) depth 14

  Keeps-unremembered : (f : Failure) → Keeps P (unremembered p f)
  unfolding unremembered
  Keeps-unremembered (signer account_switched) = Keeps-throw (signer account_switched)
  Keeps-unremembered _ = Keeps-throw (signer rejected)

  pub Keeps-remember_authentication_deny :
      (run : AuthenticationRun) (a : SafeAccount) → Keeps P (remember_authentication_deny p run a)
  unfolding remember_authentication_deny
  Keeps-remember_authentication_deny run a =
      search (keeps_rules, Keeps-save_authentication_grant, Keeps-unremembered) depth 14

pub ruleset authentication_rules = (
  Keeps-parse_authentication_run, Keeps-stored_decision, Keeps-check_rule, Keeps-revalidate,
  Keeps-save_authentication_grant, Keeps-remember_authentication_deny,
)
