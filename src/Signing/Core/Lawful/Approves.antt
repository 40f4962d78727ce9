-- ===== src/Signing/Core/Lawful/Approves.antt =====
-- The consent of a run in core.ts: what the rule, the stored grants and the user have answered.
use nostr_wot_sdk.Prelude.{
  ◌≡◌, refl, ◌⊎◌, inl, inr, Bool, true, false, ◌&&◌, Option, none, some, List, ◌∷◌, Text, arith,
  Bool-cases, subst, sym, ◌∙◌,
}
use nostr_wot_sdk.Permissions.Key.{Decision}
use nostr_wot_sdk.Permissions.Host.{Consent, allow, deny}
use nostr_wot_sdk.Permissions.Authentication.{is_authentication_kind}
use nostr_wot_sdk.Signing.Requests.{
  SignerRequest, SignerMethod, get_public_key, get_relays, SafeAccount, ValidatedParams, sign_event,
  sign_pq_attestation, EventTemplate, PreparedParams, params_method, is_key_method,
  permission_origin, permission_rule,
}
use nostr_wot_sdk.Signing.Core.World.{Event, AuthenticationRun, checked, grant_read}
use nostr_wot_sdk.Signing.Core.Ports.{Ports, GrantsPort}
use nostr_wot_sdk.Signing.Core.Gates.{needs_prompt}
use nostr_wot_sdk.Signing.Core.Authenticate.{
  parse_event, parse_authentication_run, stored_decision, stored_allows, may_remember,
}
use nostr_wot_sdk.Signing.Core.Prompt.{is_ask, has_consent, must_ask, set_authentication}
use nostr_wot_sdk.Signing.Core.Run.{
  early_consent, read_stored, consult_grants, prepare, prepare_attestation, authenticate,
}
use nostr_wot_sdk.Signing.Core.Quiet.{Keeps-update_context, Keeps-throw_if}
use nostr_wot_sdk.Signing.Core.Yields.{
  Yields, Yields-bind, Yields-keep, Yields-note, Yields-pure, Yields-post, Yields-if, Yields-then,
  Keeps-any,
}
use nostr_wot_sdk.Signing.Core.Lawful.{Noted, Approved, Prepared, is_authentication_event}

-- How the authentication of a request starts.
pub data Found (params : ValidatedParams) (own : Bool) : Option AuthenticationRun → Type 0 where
  nothing : is_authentication_event params ≡ false → Found params own none
  started :
      (run : AuthenticationRun)
      → run.self ≡ own
      → run.consent ≡ none
      → run.stored ≡ none
      → Found params own (some run)

-- What stands behind a run before the prompt.
pub data Consulted (account : SafeAccount) (params : ValidatedParams) (own : Bool)
    : Option AuthenticationRun → List Event → Type 0 where
  nothing :
      (l : List Event)
      → is_authentication_event params ≡ false
      → Consulted account params own none l
  waiting :
      (run : AuthenticationRun) (l : List Event)
      → run.consent ≡ none
      → Consulted account params own (some run) l
  host :
      (run : AuthenticationRun) (l : List Event)
      → own ≡ true
      → Consulted account params own (some run) l
  granted :
      (run : AuthenticationRun) (l : List Event) (key : Text)
      → Noted (grant_read account.id key (some allow)) l
      → Consulted account params own (some run) l

-- Why the user is not asked.
pub data Unasked (account : SafeAccount) (params : ValidatedParams) (d : Decision)
    : Option AuthenticationRun → Type 0 where
  consent :
      (run : AuthenticationRun)
      → has_consent (some run) ≡ true
      → Unasked account params d (some run)
  settled : is_ask d ≡ false → Unasked account params d none
  remote : account.is_nip46 ≡ true → Unasked account params d none
  keyless : is_key_method (params_method params) ≡ false → Unasked account params d none

pub Consulted-grow :
    (account : SafeAccount) (params : ValidatedParams) (own : Bool) (o : Option AuthenticationRun)
    (e : Event) (l : List Event)
    → Consulted account params own o l
    → Consulted account params own o (e ∷ l)
Consulted-grow account params own none e l (Consulted.nothing _ k) = Consulted.nothing (e ∷ l) k
Consulted-grow account params own (some run) e l (Consulted.waiting _ _ c) =
    Consulted.waiting run (e ∷ l) c
Consulted-grow account params own (some run) e l (Consulted.host _ _ h) =
    Consulted.host run (e ∷ l) h
Consulted-grow account params own (some run) e l (Consulted.granted _ _ key g) =
    Consulted.granted run (e ∷ l) key (inr g)

stored_allows-allow : (o : Option Consent) → stored_allows o ≡ true → o ≡ some allow
stored_allows-allow none h = absurd (cc)
stored_allows-allow (some deny) h = absurd (cc)
stored_allows-allow (some allow) h = refl

module _ {E : Type 0} (p : Ports E) (request : SignerRequest) (own : Bool) where
  parse_event-Found :
      (event : EventTemplate) (account : SafeAccount)
      → is_authentication_kind event.kind ≡ true
      → Yields
          (λ _. Unit {0})
          (parse_event p request event account own)
          (λ o _. Found (sign_event event) own o)
  unfolding parse_event
  parse_event-Found event account k = Yields-then (Keeps-any _) λ _. Yields-then (Keeps-any _) λ _.
      Yields-then (Keeps-any _)
        λ _. Yields-then (Keeps-any _) λ _. Yields-pure _ (λ l h. Found.started _ refl refl refl)

  parse-Found :
      (params : ValidatedParams) (account : SafeAccount)
      → Yields
          (λ _. Unit {0})
          (parse_authentication_run p request params account own)
          (λ o _. Found params own o)
  unfolding parse_authentication_run
  parse-Found (sign_event event) account =
      Yields-if (is_authentication_kind event.kind) _ _ (parse_event-Found event account)
        (λ k. Yields-pure none (λ l h. Found.nothing k))
  parse-Found _ account = Yields-pure none (λ l h. Found.nothing refl)

  pub authenticate-Found :
      (params : ValidatedParams) (account : SafeAccount)
      → Yields
          (λ _. Unit {0})
          (authenticate p request params account own)
          (λ o _. Found params own o)
  unfolding authenticate set_authentication
  authenticate-Found params account =
      Yields-bind (parse-Found params account)
        λ found. Yields-then (Keeps-update_context _) λ _. Yields-pure found (λ l h. h)

module _ {E : Type 0} (p : Ports E) (account : SafeAccount) where
  stored_decision-Noted :
      (g : GrantsPort E) (run : AuthenticationRun)
      → Yields
          (λ _. Unit {0})
          (stored_decision p g account run)
          (λ o l. Noted (grant_read account.id run.key o) l)
  unfolding stored_decision
  stored_decision-Noted g run =
      Yields-then (Keeps-any _)
        λ stored. Yields-bind (Yields-note _ (λ l h. inl refl)) λ _. Yields-pure stored (λ l h. h)

  -- A stored decision to allow is in the log.
  abbrev Backed : AuthenticationRun → List Event → Type 0
  Backed run l =
      stored_allows run.stored ≡ true → Noted (grant_read account.id run.key (some allow)) l

  read_stored-Backed :
      (g : Option (GrantsPort E)) (run : AuthenticationRun)
      → run.stored ≡ none
      → Yields
          (λ _. Unit {0})
          (read_stored p g account run)
          (λ r l. (r.self ≡ run.self) × (r.consent ≡ run.consent) × Backed r l)
  unfolding read_stored set_authentication
  read_stored-Backed none run fresh =
      Yields-pure run (λ l h. (refl, refl, λ allows. absurd (ground (arith, fresh, allows))))
  read_stored-Backed (some g) run fresh = Yields-bind (stored_decision-Noted g run) λ stored.
      Yields-then (Keeps-update_context _) λ _. Yields-then (Keeps-throw_if _ _) λ _.
        Yields-pure _ (λ l h. (
          refl,
          refl,
          λ allows.
              subst (λ (o : Option Consent). Noted (grant_read account.id run.key o) l)
                (stored_allows-allow stored allows) h,
        ))

  early-Consulted :
      (params : ValidatedParams) (own : Bool) (r : AuthenticationRun) (l : List Event)
      → r.self ≡ own
      → r.consent ≡ none
      → Backed r l
      → Consulted account params own (some (early_consent p r)) l
  early-Consulted params own r l s c b = elim (Bool-cases r.self) [
    | inl own_run ↦ Consulted.host _ l (sym s ∙ own_run)
    | inr other ↦ elim (Bool-cases (stored_allows r.stored && may_remember p r)) [
      | inl stored ↦ Consulted.granted _ l r.key (b (ground (arith, stored)))
      | inr unstored ↦ Consulted.waiting _ l (ground (arith, other, unstored, c))
    ]
  ]

  pub consult-Consulted :
      (params : ValidatedParams) (own : Bool) (o : Option AuthenticationRun)
      → Found params own o
      → Yields
          (λ _. Unit {0})
          (consult_grants p account o)
          (λ r l. Consulted account params own r l)
  unfolding consult_grants set_authentication
  consult-Consulted params own none (Found.nothing k) =
      Yields-pure none (λ l h. Consulted.nothing l k)
  consult-Consulted params own (some run) (Found.started _ s c fresh) =
      Yields-bind (read_stored-Backed p.grants run fresh) λ r.
        Yields-then (Keeps-update_context _)
          λ _. Yields-pure _ (λ l h. early-Consulted params own r l (h.0 ∙ s) (h.1 ∙ c) h.2)

  pub prepare-Prepared :
      (request : SignerRequest) (params : ValidatedParams)
      → Yields (λ _. Unit {0}) (prepare p request params account) (λ r _. Prepared params r)
  unfolding prepare prepare_attestation
  prepare-Prepared request sign_pq_attestation = Yields-then (Keeps-any _) λ _.
      Yields-then (Keeps-any _) λ _.
        Yields-then (Keeps-any _)
          λ event. Yields-then (Keeps-any _) λ _. Yields-pure _ (λ l h. Prepared.built event)
  prepare-Prepared request params = Yields-pure _ (λ l h. Prepared.same params)

  needs_prompt-false :
      (m : SignerMethod) (k : Text)
      → Yields
          (λ _. Unit {0})
          (needs_prompt p m account.is_nip46 k account)
          (λ b _. b ≡ false → (is_key_method m ≡ false) ⊎ (account.is_nip46 ≡ true))
  unfolding needs_prompt
  needs_prompt-false get_relays k = Yields-pure false (λ l h e. inl refl)
  needs_prompt-false get_public_key k =
      Yields-post (Yields-keep (Keeps-any _)) (λ b l h e. inl refl)
  needs_prompt-false _ k = Yields-pure _ (λ l h e. inr (ground (arith, e)))

  pub must_ask-Unasked :
      (d : Decision) (params : ValidatedParams) (k : Text) (o : Option AuthenticationRun)
      → Yields
          (λ _. Unit {0})
          (must_ask p d params k account o)
          (λ b _. b ≡ false → Unasked account params d o)
  unfolding must_ask
  must_ask-Unasked d params k (some run) =
      Yields-pure _ (λ l h e. Unasked.consent run (ground (arith, e)))
  must_ask-Unasked d params k none =
      Yields-if (is_ask d) _ _
        (λ asks. Yields-post (needs_prompt-false (params_method params) k) (λ b l h e. elim (h e) [
          | inl no_key ↦ Unasked.keyless no_key
          | inr far ↦ Unasked.remote far
        ]))
        (λ settled. Yields-pure _ (λ l h e. Unasked.settled settled))

  pub no_prompt-Approved :
      (request : SignerRequest) (params : ValidatedParams) (own : Bool) (d : Decision)
      (o : Option AuthenticationRun) (prepared : PreparedParams) (l : List Event)
      → Noted
          (checked
            (permission_origin request.origin)
            (permission_rule params).method
            (permission_rule params).kind
            account.id
            d)
          l
      → Consulted account params own o l
      → Unasked account params d o
      → Approved request params own account prepared l
  no_prompt-Approved request params own d none prepared l n (Consulted.nothing _ k)
        (Unasked.settled s) =
      Approved.by_rule d n s k
  no_prompt-Approved request params own d none prepared l n (Consulted.nothing _ k)
        (Unasked.remote r) =
      Approved.by_remote r k
  no_prompt-Approved request params own d none prepared l n (Consulted.nothing _ k)
        (Unasked.keyless r) =
      Approved.keyless r
  no_prompt-Approved request params own d (some run) prepared l n (Consulted.waiting _ _ c)
        (Unasked.consent _ has) =
      absurd (ground (arith, c, has))
  no_prompt-Approved request params own d (some run) prepared l n (Consulted.host _ _ h) u =
      Approved.by_host h
  no_prompt-Approved request params own d (some run) prepared l n (Consulted.granted _ _ key g) u =
      Approved.by_grant key g
