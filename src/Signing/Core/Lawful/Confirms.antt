-- ===== src/Signing/Core/Lawful/Confirms.antt =====
-- The last checks of `#run` in core.ts, and the account that they read.
use nostr_wot_sdk.Prelude.{
  ◌≡◌, refl, Bool, true, false, not, ℕ, Option, none, some, List, ◌∷◌, Text, arith,
}
use nostr_wot_sdk.Permissions.Host.{Consent}
use nostr_wot_sdk.Permissions.Grants.{AuthenticationScope}
use nostr_wot_sdk.Signing.Queue.{Code, account_switched}
use nostr_wot_sdk.Signing.Requests.{SignerRequest, SafeAccount, ValidatedParams}
use nostr_wot_sdk.Signing.Core.World.{
  Event, Failure, signer, authentication_denied, AuthenticationRun, active_account, checked,
  grant_read, grant_saved, note,
}
use nostr_wot_sdk.Signing.Core.Ports.{Ports, GrantsPort}
use nostr_wot_sdk.Signing.Core.Gates.{assert_still_active, still_wanted, is_same_account}
use nostr_wot_sdk.Signing.Core.Authenticate.{
  check_rule, recheck_grant, stored_decision, throw_some, revalidate_run, revalidate, save_with,
  unsaved, save_if_any, save_authentication_grant,
}
use nostr_wot_sdk.Signing.Core.Run.{save_scope, confirm}
use nostr_wot_sdk.Signing.Core.Quiet.{Keeps, keeps_rules, Keeps-gets, Keeps-throw_if}
use nostr_wot_sdk.Signing.Core.Quiet.Authenticate.{
  Keeps-parse_authentication_run, Keeps-revalidate_event,
}
use nostr_wot_sdk.Signing.Core.Yields.{
  Yields, Yields-bind, Yields-keep, Yields-note, Yields-pure, Yields-post, Yields-throw,
  Yields-throw_if, Yields-catch, Keeps-any, Yields-then, Yields-any,
}
use nostr_wot_sdk.Signing.Core.Lawful.{confirmed}

abbrev is_steady : Event → Bool
is_steady (checked _ _ _ _ _) = true
is_steady (grant_read _ _ _) = true
is_steady (grant_saved _ _ _ _) = true
is_steady _ = false

-- The account is confirmed by the log.
abbrev pub Confirmed : SafeAccount → List Event → Type 0
Confirmed account log = confirmed account log ≡ true

Confirmed-steady :
    (account : SafeAccount) (e : Event) (log : List Event)
    → is_steady e ≡ true
    → Confirmed account log
    → Confirmed account (e ∷ log)
Confirmed-steady account (checked _ _ _ _ _) log s h = h
Confirmed-steady account (grant_read _ _ _) log s h = h
Confirmed-steady account (grant_saved _ _ _ _) log s h = h
Confirmed-steady account _ log s h = absurd (cc)

module _ {E : Type 0} (p : Ports E) (account : SafeAccount) where
  Keeps-steady : (e : Event) → is_steady e ≡ true → Keeps (Confirmed account) (note {E = E} e)
  unfolding note
  Keeps-steady e s = record { at = λ w h. Confirmed-steady account e w.log s h }

  Keeps-check :
      (k : Text) (params : ValidatedParams) (a : SafeAccount)
      → Keeps (Confirmed account) (check_rule p k params a)
  unfolding check_rule
  Keeps-check k params a = search (keeps_rules, Keeps-steady) depth 14

  Keeps-stored :
      (g : GrantsPort E) (a : SafeAccount) (run : AuthenticationRun)
      → Keeps (Confirmed account) (stored_decision p g a run)
  unfolding stored_decision
  Keeps-stored g a run = search (keeps_rules, Keeps-steady) depth 14

  Keeps-recheck :
      (g : Option (GrantsPort E)) (a : SafeAccount) (run : AuthenticationRun)
      → Keeps (Confirmed account) (recheck_grant p g a run)
  unfolding recheck_grant
  Keeps-recheck none a run = search (keeps_rules) depth 14
  Keeps-recheck (some g) a run = search (keeps_rules, Keeps-stored) depth 14

  pub assert_still_active-Confirmed :
      Yields (λ _. Unit {0}) (assert_still_active p account) (λ _. Confirmed account)
  unfolding assert_still_active
  assert_still_active-Confirmed = Yields-bind (Yields-keep (Keeps-any _)) λ current.
      Yields-bind
        (Yields-note {Q = λ l. confirmed account l ≡ is_same_account current account}
          (active_account current) (λ l h. refl))
        λ _.
          Yields-post (Yields-throw_if (not (is_same_account current account)) account_switched)
            (λ _ l h. ground (arith, h.0, h.1))

  still_wanted-Confirmed :
      (k : Text) (n : ℕ)
      → Yields (λ _. Unit {0}) (still_wanted p account k n) (λ o l. o ≡ none → Confirmed account l)
  unfolding still_wanted
  still_wanted-Confirmed k n = Yields-bind (Yields-keep (Keeps-any _)) λ current.
      Yields-bind
        (Yields-note {Q = λ l. confirmed account l ≡ is_same_account current account}
          (active_account current) (λ l h. refl))
        λ _.
          Yields-bind (Yields-keep (Keeps-gets _))
            λ core. Yields-pure _ (λ l h wanted. ground (arith, h, wanted))

  throw_some-Confirmed :
      (o : Option Code)
      → Yields (λ l. o ≡ none → Confirmed account l) (throw_some p o) (λ _. Confirmed account)
  unfolding throw_some
  throw_some-Confirmed none = Yields-pure tt (λ l h. h refl)
  throw_some-Confirmed (some code) = Yields-throw (signer code)

  revalidate_run-Confirmed :
      (request : SignerRequest) (params : ValidatedParams) (prior : AuthenticationRun) (n : ℕ)
      → Yields
          (Confirmed account)
          (revalidate_run p request params account prior n)
          (λ _. Confirmed account)
  unfolding revalidate_run
  revalidate_run-Confirmed request params prior n = Yields-then (Keeps-gets _) λ _.
      Yields-then (Keeps-throw_if _ _) λ _.
        Yields-then (Keeps-parse_authentication_run p request params account prior.self) λ _.
          Yields-then (Keeps-throw_if _ _) λ _. Yields-then (Keeps-check _ params account) λ _.
            Yields-then (Keeps-throw_if _ _) λ _.
              Yields-bind (Yields-any (still_wanted-Confirmed _ n)) λ revoked.
                Yields-bind (throw_some-Confirmed revoked) λ _.
                  Yields-keep (search (keeps_rules, Keeps-recheck, Keeps-revalidate_event) depth 20)

  pub revalidate-Confirmed :
      (request : SignerRequest) (params : ValidatedParams) (run : Option AuthenticationRun) (n : ℕ)
      → Yields
          (Confirmed account)
          (revalidate p request params account run n)
          (λ _. Confirmed account)
  unfolding revalidate
  revalidate-Confirmed request params none n = Yields-pure tt (λ l h. h)
  revalidate-Confirmed request params (some prior) n =
      revalidate_run-Confirmed request params prior n

  save_with-Confirmed :
      (g : GrantsPort E) (run : AuthenticationRun) (s : AuthenticationScope) (d : Consent)
      → Yields (λ _. Unit {0}) (save_with p g run s account d) (λ _. Confirmed account)
  unfolding save_with
  save_with-Confirmed g run s d = Yields-then (Keeps-any _) λ _.
      Yields-bind assert_still_active-Confirmed
        λ _. Yields-keep (search (keeps_rules, Keeps-steady) depth 14)

  unsaved-Confirmed : (f : Failure) → Yields (λ _. Unit {0}) (unsaved p f) (λ _. Confirmed account)
  unfolding unsaved
  unsaved-Confirmed (signer code) = Yields-throw _
  unsaved-Confirmed authentication_denied = Yields-throw _
  unsaved-Confirmed _ = Yields-throw _

  save-Confirmed :
      (g : Option (GrantsPort E)) (run : AuthenticationRun) (s : AuthenticationScope) (d : Consent)
      → Yields (λ _. Unit {0}) (save_if_any p g run s account d) (λ _. Confirmed account)
  unfolding save_if_any
  save-Confirmed none run s d = Yields-throw _
  save-Confirmed (some g) run s d = Yields-catch (save_with-Confirmed g run s d) unsaved-Confirmed

  save_scope-Confirmed :
      (run : Option AuthenticationRun) (s : Option AuthenticationScope)
      → Yields (Confirmed account) (save_scope p account run s) (λ _. Confirmed account)
  unfolding save_scope save_authentication_grant
  save_scope-Confirmed (some run) (some s) =
      Yields-any (save-Confirmed p.grants run s Consent.allow)
  save_scope-Confirmed none s = Yields-pure tt (λ l h. h)
  save_scope-Confirmed (some run) none = Yields-pure tt (λ l h. h)

  pub confirm-Confirmed :
      (request : SignerRequest) (params : ValidatedParams) (run : Option AuthenticationRun) (n : ℕ)
      → Yields (λ _. Unit {0}) (confirm p request params account run n) (λ _. Confirmed account)
  unfolding confirm
  confirm-Confirmed request params run n =
      Yields-bind assert_still_active-Confirmed
        λ _. Yields-bind (revalidate-Confirmed request params run n) λ _. save_scope-Confirmed run _
