-- ===== src/Signing/Core/Denials.antt =====
-- A request of core.ts whose stored rule is deny.
use nostr_wot_sdk.Prelude.{◌≡◌, refl, Bool, some, ◌∷◌}
use nostr_wot_sdk.Permissions.Key.{deny}
use nostr_wot_sdk.Permissions.Host.{Consent}
use nostr_wot_sdk.Signing.Queue.{permission_denied}
use nostr_wot_sdk.Signing.Requests.{
  SignerRequest, SafeAccount, ValidatedParams, permission_origin, permission_rule,
}
use nostr_wot_sdk.Signing.Core.{Core}
use nostr_wot_sdk.Signing.Core.World.{
  World, ok, err, signer, ActivityEntry, active_account, checked, recorded, pure, throw, note, call,
  gets, catch, throw_if, update_context, ◌>>=◌,
}
use nostr_wot_sdk.Signing.Core.Ports.{Ports}
use nostr_wot_sdk.Signing.Core.Authenticate.{check_rule}
use nostr_wot_sdk.Signing.Core.Run.{use_account, resolve_account, admit_rule, clearance, run}
use nostr_wot_sdk.Signing.Core.Records.{record_outcome-noted}
use nostr_wot_sdk.Signing.Core.Handle.{
  run_recorded, refuse_recorded, handle_validated, fresh_context, to_signer_error,
}

module _ {E : Type 0} (p : Ports E) (request : SignerRequest) (params : ValidatedParams)
    (own : Bool) where
  run-denied :
      (w : World E) (account : SafeAccount) (c1 c2 : Core) (e1 e2 : E)
      → p.active_account w.core w.env ≡ (ok (some account), (c1, e1))
      → p.check
          (permission_origin request.origin)
          (permission_rule params).method
          (permission_rule params).kind
          account.id
          c1
          e1
        ≡ (ok deny, (c2, e2))
      → run p request params own w ≡ (
        err (signer permission_denied),
        record w {
          core = c2;
          env = e2;
          context = record w.context { account = some account };
          log =
              checked
                (permission_origin request.origin)
                (permission_rule params).method
                (permission_rule params).kind
                account.id
                deny
              ∷ active_account (some account)
              ∷ w.log;
        },
      )
  unfolding run clearance resolve_account use_account admit_rule check_rule ◌>>=◌ gets call note
      update_context pure throw_if
  run-denied w account c1 c2 e1 e2 active denied = rw (active, denied)

  refuse_recorded-noted :
      (w : World E)
      → ((refuse_recorded p request params (signer permission_denied) w).0
          ≡ err (signer permission_denied))
        × (entry : ActivityEntry) × ((refuse_recorded p request params
              (signer permission_denied)
              w).1.log
            ≡ recorded entry ∷ w.log)
  unfolding refuse_recorded ◌>>=◌ gets throw to_signer_error
  refuse_recorded-noted w =
      let done = record_outcome-noted p request params Consent.deny (some permission_denied) w in
      rw (done.0) (refl, _, done.1)

  -- Where there is an active account and the rule for the request denies, the request is refused with
  -- permission_denied, and between the check and the activity entry nothing is asked, opened, saved or
  -- signed.
  pub handle_validated-denied :
      (w : World E) (account : SafeAccount) (c1 c2 : Core) (e1 e2 : E)
      → p.active_account w.core w.env ≡ (ok (some account), (c1, e1))
      → p.check
          (permission_origin request.origin)
          (permission_rule params).method
          (permission_rule params).kind
          account.id
          c1
          e1
        ≡ (ok deny, (c2, e2))
      → ((handle_validated p request params own w).0 ≡ err (signer permission_denied))
        × (entry : ActivityEntry) × ((handle_validated p request params own w).1.log
            ≡ recorded entry
              ∷ checked
                  (permission_origin request.origin)
                  (permission_rule params).method
                  (permission_rule params).kind
                  account.id
                  deny
              ∷ active_account (some account)
              ∷ w.log)
  unfolding handle_validated run_recorded ◌>>=◌ catch update_context
  handle_validated-denied w account c1 c2 e1 e2 active denied =
      rw (run-denied (record w { context = fresh_context p }) account c1 c2 e1 e2 active denied)
        (refuse_recorded-noted _)
