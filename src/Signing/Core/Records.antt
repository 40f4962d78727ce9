-- ===== src/Signing/Core/Records.antt =====
-- The activity entries of core.ts: `#record` at the end of `#handleValidated`.
use nostr_wot_sdk.Prelude.{◌≡◌, refl, ◌⊎◌, inl, inr, Bool, Option, none, some, List, ◌∷◌}
use nostr_wot_sdk.Permissions.Host.{Consent, allow, deny}
use nostr_wot_sdk.Signing.Queue.{Code}
use nostr_wot_sdk.Signing.Requests.{SignerRequest, ValidatedParams}
use nostr_wot_sdk.Signing.Core.World.{
  World, M, Event, Result, ok, err, Failure, signer, Reply, ActivityEntry, recorded, pure, throw,
  note, call, gets, catch, continue, recover, update_context, ◌>>=◌,
}
use nostr_wot_sdk.Signing.Core.Ports.{Ports}
use nostr_wot_sdk.Signing.Core.Run.{run}
use nostr_wot_sdk.Signing.Core.Handle.{
  first_or, record_entry, record_outcome, run_recorded, refuse_recorded, handle_validated,
  fresh_context, entry_for, to_signer_error,
}

-- The log of how a request ended starts with its entry, and the two agree.
pub record Told (request : SignerRequest) (r : Result Reply) (log : List Event) : Type 0 where
  pub entry : ActivityEntry
  pub rest : List Event
  pub last : log ≡ recorded entry ∷ rest
  pub id : entry.request_id ≡ request.id
  pub agrees :
      ((reply : Reply) × (r ≡ ok reply) × (entry.decision ≡ allow) × (entry.code ≡ none))
      ⊎ ((code : Code) × (r ≡ err (signer code))
          × (entry.decision ≡ deny)
          × (entry.code ≡ some code))

dropped :
    {E : Type 0} (r : Result (Unit {0})) (w : World E)
    → ((recover r (λ _. pure tt) w).0 ≡ ok tt) × ((recover r (λ _. pure tt) w).1.log ≡ w.log)
unfolding pure
dropped (ok a) w = (refl, refl)
dropped (err e) w = (refl, refl)

module _ {E : Type 0} (p : Ports E) (request : SignerRequest) (params : ValidatedParams) where
  -- An entry is noted, and what the activity port throws is dropped.
  pub record_outcome-noted :
      (d : Consent) (code : Option Code) (w : World E)
      → ((record_outcome p request params d code w).0 ≡ ok tt)
        × ((record_outcome p request params d code w).1.log
            ≡ recorded (
                entry_for p request.id request.origin
                  (first_or p w.context.prepared params)
                  none
                  w.context.authentication
                  w.context.account
                  d
                  code
                  (p.now w.env))
              ∷ w.log)
  unfolding record_outcome record_entry ◌>>=◌ gets note catch call pure
  record_outcome-noted d code w = dropped _ _

  refuse_recorded-Told :
      (f : Failure) (w : World E)
      → Told request
          (refuse_recorded p request params f w).0
          (refuse_recorded p request params f w).1.log
  unfolding refuse_recorded ◌>>=◌ gets throw entry_for
  refuse_recorded-Told f w =
      let code = to_signer_error p f w.context.phase (p.is_locked w.env) in
      let done = record_outcome-noted deny (some code) w in
      rw (done.0) (record {
        entry =
            entry_for p request.id request.origin (first_or p w.context.prepared params) none
              w.context.authentication w.context.account deny (some code) (p.now w.env);
        rest = w.log;
        last = done.1;
        id = refl;
        agrees = inr (code, refl, refl, refl);
      })

  -- The end of the run and its entry.
  abbrev recorded_reply : Reply → M E Reply
  recorded_reply reply = record_outcome p request params allow none >>= λ _. pure reply

  recorded_reply-Told :
      (reply : Reply) (w : World E)
      → ((recorded_reply reply w).0 ≡ ok reply)
        × Told request (ok reply) (recorded_reply reply w).1.log
  unfolding ◌>>=◌ pure entry_for
  recorded_reply-Told reply w =
      let done = record_outcome-noted allow none w in
      rw (done.0) (
        refl,
        record {
          entry =
              entry_for p request.id request.origin (first_or p w.context.prepared params) none
                w.context.authentication w.context.account allow none (p.now w.env);
          rest = w.log;
          last = done.1;
          id = refl;
          agrees = inl (reply, refl, refl, refl);
        },
      )

  ended-Told :
      (r : Result Reply) (w : World E)
      → Told request
          (catch (λ v. continue r recorded_reply v) (refuse_recorded p request params) w).0
          (catch (λ v. continue r recorded_reply v) (refuse_recorded p request params) w).1.log
  unfolding catch
  ended-Told (ok reply) w = let told = recorded_reply-Told reply w in rw (told.0) (told.1)
  ended-Told (err f) w = refuse_recorded-Told f w

  -- A request ends with a reply or with a `SignerError`, never with another error, and the last thing in
  -- its log is its activity entry: under the request's id, with the decision allow and no code for a
  -- reply, and with deny and the error's code otherwise. What the activity port throws changes nothing.
  pub handle_validated-Told :
      (own : Bool) (w : World E)
      → Told request
          (handle_validated p request params own w).0
          (handle_validated p request params own w).1.log
  unfolding handle_validated run_recorded ◌>>=◌ catch update_context
  handle_validated-Told own w =
      let started = record w { context = fresh_context p } in
      let (r, next) = run p request params own started in ended-Told r next
