-- ===== src/Signing/Core/Lawful/Use.antt =====
-- The use of the key in core.ts, and what is around it: `#executeFor`, `#run` and `#handleValidated`.
use nostr_wot_sdk.Prelude.{
  ◌≡◌, refl, Bool, true, ℕ, Option, none, some, List, [], Text, if◌then◌else◌,
}
use nostr_wot_sdk.Permissions.Host.{Consent}
use nostr_wot_sdk.Signing.Queue.{Code}
use nostr_wot_sdk.Signing.Requests.{
  SignerRequest, SafeAccount, ValidatedParams, get_public_key, get_relays, sign_event,
  sign_pq_attestation, nip04_encrypt, nip04_decrypt, nip44_encrypt, nip44_decrypt, PreparedParams,
  params_method, is_key_method,
}
use nostr_wot_sdk.Signing.RemoteEvent.{RemoteAnswer}
use nostr_wot_sdk.Signing.Core.World.{
  World, M, Port, AuthenticationRun, Event, Failure, key_used, remote_used, note, ◌>>=◌,
}
use nostr_wot_sdk.Signing.Core.Ports.{Ports}
use nostr_wot_sdk.Signing.Core.Execute.{with_key, use_key, sign_locally, ask_remote, execute_for}
use nostr_wot_sdk.Signing.Core.Run.{Cleared, conclude, run}
use nostr_wot_sdk.Signing.Core.Handle.{
  record_entry, record_outcome, run_recorded, refuse_recorded, handle_validated,
}
use nostr_wot_sdk.Signing.Core.Quiet.{
  Stable, Keeps, keeps_rules, Keeps-pure, Keeps-note, Keeps-throw, Keeps-catch, Keeps-bind,
  Keeps-track, Keeps-call, Keeps-gets, Keeps-throw_if, Keeps-update_context,
}
use nostr_wot_sdk.Signing.Core.Quiet.Gates.{Keeps-assert_still_active}
use nostr_wot_sdk.Signing.Core.Quiet.Authenticate.{Keeps-revalidate}
use nostr_wot_sdk.Signing.Core.Quiet.Execute.{
  Keeps-as_callback, Keeps-as_vault, Keeps-perform, Keeps-checked_answer, Keeps-read_relays,
}
use nostr_wot_sdk.Signing.Core.Quiet.Run.{Keeps-clearance}
use nostr_wot_sdk.Signing.Core.Yields.{
  Leads, Leads-pre, Leads-if, Yields-of_leads, Leads-bind, Leads-keep, Leads-catch, Yields-note,
  Yields-keep, Yields-and,
}
use nostr_wot_sdk.Signing.Core.Lawful.{Guarded, Lawful, Lawful-Stable}
use nostr_wot_sdk.Signing.Core.Lawful.Clearance.{Clear, clearance-Clear}

module _ {E : Type 0} (p : Ports E) (request : SignerRequest) (params : ValidatedParams)
    (own : Bool) where
  -- A log that is lawful and stands below a use of the key.
  abbrev Ready : SafeAccount → PreparedParams → List Event → Type 0
  Ready account prepared l =
      Guarded request params own account prepared l × Lawful request params own l

  abbrev Fine : List Event → Type 0
  Fine = Lawful request params own

  module _ (account : SafeAccount) (prepared : PreparedParams) where
    leads_then :
        {A B : Type 0} (m : M E A) (f : A → M E B)
        → Keeps (Ready account prepared) m
        → ((a : A) → Leads (Ready account prepared) (f a) Fine)
        → Leads (Ready account prepared) (m >>= f) Fine
    leads_then m f k kf = Leads-bind (record { at = λ w h. (k.at w h).1 }) (Yields-keep k) kf

    with_key-Lawful :
        (key : Text) → Leads (Ready account prepared) (with_key p account prepared key) Fine
    unfolding with_key note
    with_key-Lawful key = leads_then _ _ (Keeps-call _) λ own_key.
        leads_then _ _ (Keeps-throw_if _ _) λ _.
          Leads-bind (record { at = λ w h. h }) (Yields-note (key_used account prepared) (λ l h. h))
            λ _.
              Leads-keep (λ l h. h)
                (Keeps-catch _ _
                  (Keeps-perform p (Lawful-Stable request params own) account prepared key)
                  (λ f. Keeps-as_callback p (Lawful-Stable request params own) f))

    sign_locally-Lawful : Leads (Ready account prepared) (sign_locally p account prepared) Fine
    unfolding sign_locally use_key
    sign_locally-Lawful =
        Leads-catch
          (leads_then _ _ (Keeps-call _) λ key.
            Leads-bind (with_key-Lawful key) (Yields-of_leads (with_key-Lawful key))
              λ reply. Leads-keep (λ l h. h) (Keeps-bind _ _ (Keeps-call _) λ _. Keeps-pure reply))
          (λ f. Keeps-as_vault p (Lawful-Stable request params own) f)

    ask_remote-Lawful :
        (port : Option (SafeAccount → SignerRequest → ValidatedParams → Port E RemoteAnswer))
        (k : Text)
        → Leads (Ready account prepared) (ask_remote p port account k request params) Fine
    unfolding ask_remote note
    ask_remote-Lawful none k = Leads-keep (λ l h. h.1) (Keeps-throw _)
    ask_remote-Lawful (some port) k = leads_then _ _ (Keeps-gets _) λ _.
        Leads-bind (record { at = λ w h. ((refl, (prepared, h.0)), h.1) })
          (Yields-note (remote_used account params) (λ l h. ((refl, (prepared, h.0)), h.1)))
          λ _.
            Leads-keep (λ l h. h)
              (Keeps-bind _ _ (Keeps-track _ _) λ answer.
                Keeps-checked_answer p (Lawful-Stable request params own) answer params account)

  -- With the guards of the key but for the question whether the request needs it.
  abbrev Open : Cleared → List Event → Type 0
  Open c l = Fine l × Clear p request params own c l

  execute-Lawful :
      (c : Cleared) (k : Text)
      → (is_key_method (params_method params) ≡ true)
      → Leads
          (Open c)
          (if c.account.is_nip46
            then ask_remote p p.remote c.account k request params
            else sign_locally p c.account c.prepared)
          Fine
  execute-Lawful c k needed =
      Leads-pre (λ l h. ((h.1.0, h.1.1, needed), h.0))
        (Leads-if c.account.is_nip46 (ask_remote-Lawful c.account c.prepared p.remote k)
          (sign_locally-Lawful c.account c.prepared))

module _ {E : Type 0} (p : Ports E) (request : SignerRequest) (own : Bool) where
  execute_for-Lawful :
      (params : ValidatedParams) (c : Cleared) (k : Text)
      → Leads
          (Open p request params own c)
          (execute_for p c.account k request params c.prepared)
          (Lawful request params own)
  unfolding execute_for params_method
  execute_for-Lawful get_public_key c k = Leads-keep (λ l h. h.0) (Keeps-pure _)
  execute_for-Lawful get_relays c k =
      Leads-keep (λ l h. h.0)
        (Keeps-read_relays p (Lawful-Stable request get_relays own) p.get_relays c.account)
  execute_for-Lawful sign_pq_attestation c k =
      execute-Lawful p request sign_pq_attestation own c k refl
  execute_for-Lawful (sign_event e) c k = execute-Lawful p request (sign_event e) own c k refl
  execute_for-Lawful (nip04_encrypt a b) c k =
      execute-Lawful p request (nip04_encrypt a b) own c k refl
  execute_for-Lawful (nip04_decrypt a b) c k =
      execute-Lawful p request (nip04_decrypt a b) own c k refl
  execute_for-Lawful (nip44_encrypt a b d) c k =
      execute-Lawful p request (nip44_encrypt a b d) own c k refl
  execute_for-Lawful (nip44_decrypt a b d) c k =
      execute-Lawful p request (nip44_decrypt a b d) own c k refl

module _ {E : Type 0} (p : Ports E) (request : SignerRequest) (params : ValidatedParams)
    (own : Bool) where
  stable : Stable (Lawful request params own)
  stable = Lawful-Stable request params own

  conclude-Lawful :
      (n : ℕ) (c : Cleared)
      → Leads
          (Open p request params own c)
          (conclude p request params n c)
          (Lawful request params own)
  unfolding conclude
  conclude-Lawful n c =
      Leads-bind (Leads-keep (λ l h. h.0) (Keeps-update_context _))
        (Yields-keep (Keeps-update_context _))
        λ _.
          Leads-bind (execute_for-Lawful p request own params c _)
            (Yields-of_leads (execute_for-Lawful p request own params c _))
            λ reply.
              Leads-keep (λ l h. h)
                (search
                  (
                    keeps_rules,
                    λ (a : SafeAccount). Keeps-assert_still_active p stable a,
                    λ (o : Option AuthenticationRun).
                        Keeps-revalidate p stable request params c.account o n,
                  )
                  depth 14)

  run-Lawful :
      Leads (Lawful request params own) (run p request params own) (Lawful request params own)
  unfolding run
  run-Lawful = Leads-bind (Leads-keep (λ l h. h) (Keeps-gets _)) (Yields-keep (Keeps-gets _)) λ n.
      Leads-bind (Leads-keep (λ l h. h) (Keeps-clearance p stable request params own n))
        (Yields-and (Keeps-clearance p stable request params own n)
          (clearance-Clear p request params own n))
        (conclude-Lawful n)

  record_outcome-Lawful :
      (d : Consent) (code : Option Code)
      → Keeps (Lawful request params own) (record_outcome p request params d code)
  unfolding record_outcome record_entry
  record_outcome-Lawful d code =
      search (keeps_rules, λ (e : Event). Keeps-note {E = E} stable e) depth 14

  refuse_recorded-Lawful :
      (f : Failure) → Keeps (Lawful request params own) (refuse_recorded p request params f)
  unfolding refuse_recorded
  refuse_recorded-Lawful f = search (keeps_rules, record_outcome-Lawful) depth 14

  run_recorded-Lawful : Keeps (Lawful request params own) (run_recorded p request params own)
  unfolding run_recorded
  run_recorded-Lawful =
      Keeps-bind _ _ (record { at = run-Lawful.at })
        λ reply. search (keeps_rules, record_outcome-Lawful) depth 14

  handle-Lawful : Keeps (Lawful request params own) (handle_validated p request params own)
  unfolding handle_validated
  handle-Lawful =
      Keeps-bind _ _ (Keeps-update_context _)
        λ _. Keeps-catch _ _ run_recorded-Lawful refuse_recorded-Lawful

  -- From an empty log on, whatever the ports answer and change and whether the request returns or throws,
  -- below each use of an account's key in the log, and below each request to a remote signer, stand: an
  -- answer other than deny for the request's origin, rule and account; an approval, which is the user's
  -- for exactly what was prepared or, without a prompt, a rule that does not ask or a remote account (for
  -- what is no authentication), a stored grant, or the host's own path; and, after every prompt and
  -- unlock, an answer of the active account that is this account. The request names no other author,
  -- needs a key, and what was prepared is what was validated or the event built for an attestation.
  pub handle_validated-Lawful :
      (w : World E)
      → w.log ≡ []
      → Lawful request params own (handle_validated p request params own w).1.log
  handle_validated-Lawful w fresh = handle-Lawful.at w (rw fresh tt)
