-- ===== src/Signing/Core/Lawful/Clearance.antt =====
-- `#run` of core.ts up to the key: the facts that its checks collect.
use nostr_wot_sdk.Prelude.{◌≡◌, refl, inl, Bool, true, false, ℕ, Option, List, [], ◌∷◌, subst}
use nostr_wot_sdk.Permissions.Key.{Decision}
use nostr_wot_sdk.Signing.Queue.{rejected, permission_denied, author_mismatch}
use nostr_wot_sdk.Signing.Requests.{
  SignerRequest, SafeAccount, ValidatedParams, PreparedParams, permission_origin, permission_rule,
}
use nostr_wot_sdk.Signing.Core.World.{
  pure, Event, signer, ApprovalDecision, AuthenticationRun, checked, shown, ◌>>=◌,
}
use nostr_wot_sdk.Signing.Core.Ports.{Ports}
use nostr_wot_sdk.Signing.Core.Authenticate.{check_rule, is_denial}
use nostr_wot_sdk.Signing.Core.Prompt.{present, decide, reject_run, ask_user, ask_if}
use nostr_wot_sdk.Signing.Core.Run.{
  names_other, refuse_unusable, admit_rule, confirm, clearance, Cleared, approve,
}
use nostr_wot_sdk.Signing.Core.Quiet.{Stable, Stable-and, Stable-fact}
use nostr_wot_sdk.Signing.Core.Quiet.Prompt.{Keeps-accept_run, Keeps-must_ask, Keeps-ask_if}
use nostr_wot_sdk.Signing.Core.Quiet.Run.{
  Keeps-consult_grants, Keeps-prepare, Keeps-confirm, Keeps-refuse_unusable, Keeps-authenticate,
  Keeps-approve, Keeps-open_for_key,
}
use nostr_wot_sdk.Signing.Core.Yields.{
  Yields, Yields-bind, Yields-keep, Yields-note, Yields-pure, Yields-post, Yields-throw, Yields-if,
  Yields-then, Yields-any, Yields-given, Yields-pre, Yields-frame, Yields-throw_if, Keeps-any,
  Yields-and,
}
use nostr_wot_sdk.Signing.Core.Lawful.{
  Allowed, Allowed-Stable, Noted, Noted-Stable, Approved, Prepared,
}
use nostr_wot_sdk.Signing.Core.Lawful.Approves.{
  authenticate-Found, Found, Consulted, Unasked, Consulted-grow, consult-Consulted,
  prepare-Prepared, must_ask-Unasked, no_prompt-Approved,
}
use nostr_wot_sdk.Signing.Core.Lawful.Confirms.{Confirmed, confirm-Confirmed}

module _ {E : Type 0} (p : Ports E) (request : SignerRequest) (params : ValidatedParams)
    (own : Bool) (account : SafeAccount) where
  present-Noted :
      (prepared : PreparedParams) (o : Option AuthenticationRun)
      → Yields
          (λ _. Unit {0})
          (present p request prepared account o)
          (λ out l. Noted (shown (permission_origin request.origin) account (prepared ∷ []) out) l)
  unfolding present
  present-Noted prepared o = Yields-then (Keeps-any _) λ _.
      Yields-then (Keeps-any _)
        λ out. Yields-bind (Yields-note _ (λ l h. inl refl)) λ _. Yields-pure out (λ l h. h)

  decide-Approved :
      (prepared : PreparedParams) (o : Option AuthenticationRun) (out : ApprovalDecision)
      → Yields
          (Noted (shown (permission_origin request.origin) account (prepared ∷ []) out))
          (decide p request params account o out)
          (λ _ l. Approved request params own account prepared l)
  unfolding decide reject_run
  decide-Approved prepared o out =
      Yields-if out.allow _ _
        (λ allows.
          Yields-post
            (Yields-keep (Keeps-accept_run p (Noted-Stable _) request params account o out))
            (λ _ l h. Approved.by_user out h allows))
        (λ _. Yields-any (Yields-then (Keeps-any _) λ _. Yields-throw (signer rejected)))

  ask_if-Approved :
      (d : Decision) (prepared : PreparedParams) (o : Option AuthenticationRun) (asking : Bool)
      → Yields
          (λ l.
            Noted
              (checked
                (permission_origin request.origin)
                (permission_rule params).method
                (permission_rule params).kind
                account.id
                d)
              l
            × Consulted account params own o l
            × (asking ≡ false → Unasked account params d o))
          (ask_if p asking request params prepared account o)
          (λ _ l. Approved request params own account prepared l)
  unfolding ask_if ask_user
  ask_if-Approved d prepared o true =
      Yields-any (Yields-bind (present-Noted prepared o) λ out. decide-Approved prepared o out)
  ask_if-Approved d prepared o false =
      Yields-pure o (λ l h.
        no_prompt-Approved p account request params own d o prepared l (h.0) (h.1) (h.2 refl))

  -- The prompt's part of the clearance.
  abbrev Chosen : Cleared → List Event → Type 0
  Chosen c l =
      (account ≡ c.account)
      × Prepared params c.prepared
      × Approved request params own account c.prepared l

  -- The rule's answer.
  abbrev Ruled : Decision → List Event → Type 0
  Ruled d l =
      Noted
        (checked (permission_origin request.origin) (permission_rule params).method
          (permission_rule params).kind account.id d)
        l

  Consulted-Stable : (o : Option AuthenticationRun) → Stable (Consulted account params own o)
  Consulted-Stable o = record { grow = λ e l quiet h. Consulted-grow account params own o e l h }

  before-Stable :
      (d : Decision) (o : Option AuthenticationRun)
      → Stable (λ l. Ruled d l × Consulted account params own o l)
  before-Stable d o = Stable-and (Noted-Stable _) (Consulted-Stable o)

  approve-Chosen :
      (d : Decision) (found : Option AuthenticationRun)
      → Found params own found
      → Yields (Ruled d) (approve p request params account d found) Chosen
  unfolding approve
  approve-Chosen d found f =
      Yields-bind
        (Yields-and (Keeps-consult_grants p (Noted-Stable _) account found)
          (consult-Consulted p account params own found f))
        λ o.
          Yields-bind
            (Yields-and (Keeps-prepare p (before-Stable d o) request params account)
              (prepare-Prepared p account request params))
            λ prepared.
              Yields-bind
                (Yields-and
                  (Keeps-must_ask p
                    (Stable-and (before-Stable d o) (Stable-fact (Prepared params prepared))) d
                    params _ account o)
                  (must_ask-Unasked p account d params _ o))
                λ asking.
                  Yields-bind
                    (Yields-pre (λ l h. (h.0.1, (h.0.0.0, h.0.0.1, h.1)))
                      (Yields-frame
                        (Keeps-ask_if p (Stable-fact (Prepared params prepared)) asking request
                          params prepared account o)
                        (ask_if-Approved d prepared o asking)))
                    λ run. Yields-pure _ (λ l h. (refl, h.0, h.1))

  admit_rule-Ruled :
      Yields
        (λ _. Unit {0})
        (admit_rule p request params account)
        (λ d l. (is_denial d ≡ false) × Ruled d l)
  unfolding admit_rule check_rule
  admit_rule-Ruled =
      Yields-bind
        (Yields-then (Keeps-any _)
          λ d. Yields-bind (Yields-note _ (λ l h. inl refl)) λ _. Yields-pure d (λ l h. h))
        λ d.
          Yields-bind (Yields-throw_if (is_denial d) permission_denied)
            λ _. Yields-pure d (λ l h. h)

  refuse_unusable-author :
      Yields
        (λ _. Unit {0})
        (refuse_unusable p account params)
        (λ _ l. names_other params account ≡ false)
  unfolding refuse_unusable
  refuse_unusable-author = Yields-then (Keeps-any _) λ _. Yields-then (Keeps-any _) λ _.
      Yields-then (Keeps-any _) λ _.
        Yields-post (Yields-throw_if (names_other params account) author_mismatch) (λ _ l h. h.0)

module _ {E : Type 0} (p : Ports E) (request : SignerRequest) (params : ValidatedParams)
    (own : Bool) where
  -- What a clearance leaves: the guards of the key, with its account confirmed.
  abbrev pub Clear : Cleared → List Event → Type 0
  Clear c l = Allowed request params own c.account c.prepared l × Confirmed c.account l

  finish-Clear :
      (account : SafeAccount) (n : ℕ) (c : Cleared)
      → account ≡ c.account
      → Yields
          (Allowed request params own c.account c.prepared)
          (confirm p request params account c.authentication n >>= λ _. pure c)
          Clear
  finish-Clear account n c same =
      Yields-bind
        (Yields-and
          (Keeps-confirm p (Allowed-Stable request params own c.account c.prepared) request params
            account c.authentication n)
          (confirm-Confirmed p account request params c.authentication n))
        λ _. Yields-pure c (λ l h. (h.0, subst (λ (a : SafeAccount). Confirmed a l) same h.1))

  prompted-Allowed :
      (account : SafeAccount) (d : Decision) (c : Cleared) (l : List Event)
      → is_denial d ≡ false
      → Ruled p request params own account d l
      → names_other params account ≡ false
      → Chosen p request params own account c l
      → Allowed request params own c.account c.prepared l × (account ≡ c.account)
  prompted-Allowed account d c l undenied ruled author chosen = (
    record {
      decision = d;
      noted = subst (λ (a : SafeAccount). Ruled p request params own a d l) chosen.0 ruled;
      undenied = undenied;
      author = subst (λ (a : SafeAccount). names_other params a ≡ false) chosen.0 author;
      used = chosen.1;
      approved =
          subst (λ (a : SafeAccount). Approved request params own a c.prepared l) chosen.0 chosen.2;
    },
    chosen.0,
  )

  -- What stands before the prompt.
  abbrev Admitted : SafeAccount → Decision → List Event → Type 0
  Admitted account d l =
      ((is_denial d ≡ false) × Ruled p request params own account d l)
      × (names_other params account ≡ false)

  Admitted-Stable : (account : SafeAccount) (d : Decision) → Stable (Admitted account d)
  Admitted-Stable account d =
      Stable-and (Stable-and (Stable-fact (is_denial d ≡ false)) (Noted-Stable _))
        (Stable-fact (names_other params account ≡ false))

  approve-Allowed :
      (account : SafeAccount) (d : Decision) (found : Option AuthenticationRun)
      → Yields
          (λ l. Admitted account d l × Found params own found)
          (approve p request params account d found)
          (λ c l. Allowed request params own c.account c.prepared l × (account ≡ c.account))
  approve-Allowed account d found =
      Yields-post
        (Yields-pre (λ l h. (h.0, (h.0.0.1, h.1)))
          (Yields-frame (Keeps-approve p (Admitted-Stable account d) request params account d found)
            (Yields-given (approve-Chosen p request params own account d found))))
        (λ c l h. prompted-Allowed account d c l h.0.0.0 h.0.0.1 h.0.1 h.1)

  pub clearance-Clear : (n : ℕ) → Yields (λ _. Unit {0}) (clearance p request params own n) Clear
  unfolding clearance
  clearance-Clear n = Yields-then (Keeps-any _) λ account.
      Yields-bind (admit_rule-Ruled p request params own account) λ d.
        Yields-bind
          (Yields-and
            (Keeps-refuse_unusable p
              (Stable-and (Stable-fact (is_denial d ≡ false)) (Noted-Stable _)) account params)
            (refuse_unusable-author p request params own account))
          λ _.
            Yields-bind
              (Yields-and
                (Keeps-authenticate p (Admitted-Stable account d) request params account own)
                (authenticate-Found p request own params account))
              λ found. Yields-bind (approve-Allowed account d found) λ c.
                Yields-then
                  (Keeps-open_for_key p
                    (Stable-and (Allowed-Stable request params own c.account c.prepared)
                      (Stable-fact (account ≡ c.account)))
                    request params c.prepared account)
                  λ _. Yields-given (finish-Clear account n c)
