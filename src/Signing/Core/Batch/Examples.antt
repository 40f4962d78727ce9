-- ===== src/Signing/Core/Batch/Examples.antt =====
-- Batches of core.ts on two events, with a host whose rules allow them.
use nostr_wot_sdk.Prelude.{
  ℕ, Text, ◌≡◌, refl, false, List, [], ◌∷◌, text, text_beq, lookup, int_beq, show_int, decimal,
}
use nostr_wot_sdk.Permissions.Key.{Decision}
use nostr_wot_sdk.Signing.Requests.{
  sign_event, plain, permission_origin, permission_rule, params_method, needs_pq_keys,
}
use nostr_wot_sdk.Signing.Core.{Core, create, dispose, is_revoked_since}
use nostr_wot_sdk.Signing.Core.Ports.{Ports}
use nostr_wot_sdk.Signing.Core.Authenticate.{check_rule}
use nostr_wot_sdk.Signing.Core.Samples.{host, request, template, start}
use nostr_wot_sdk.Signing.Core.Batch.Rereads.{Reread, handle_validated_batch-Reread}
use nostr_wot_sdk.Signing.Core.Batch.Items.{run_ids, ids_of, handle_validated_batch-ids}
use nostr_wot_sdk.Signing.Core.World.{
  ok, message, pure, throw, ◌>>=◌, catch, throw_if, gets, update_core, update_context, note, call,
  finish, run_tracked, track,
}
use nostr_wot_sdk.Signing.Core.Gates.{
  would_be_unbounded, remembered_kind, rule_text, assert_still_active, still_wanted, request_unlock,
  open_with, open_vault, open_vault_for_batch, cooled, needs_prompt, save_rule, remember,
  remember_all,
}
use nostr_wot_sdk.Signing.Core.Execute.{
  count_words_from, count_words, as_callback, as_vault, derive, pick_pq_keys, refuse_locked,
  with_pq_keys, attestation_event, build_attestation, sign_template, execute, execute_pq, perform,
  with_key, use_key, sign_locally, accept, checked_answer, ask_remote, read_relays, execute_for,
}
use nostr_wot_sdk.Signing.Core.Run.{
  use_account, resolve_account, refuse_unusable, read_stored, consult_grants, prepare_attestation,
  prepare, open_for_key, save_scope, confirm, approve, authenticate, admit_rule, clearance,
  conclude, run,
}
use nostr_wot_sdk.Signing.Core.Handle.{
  to_signer_error, entry_for, record_entry, record_outcome, run_recorded, refuse_recorded,
  handle_validated, handle_if, handle, handle_self_if, handle_self,
}
use nostr_wot_sdk.Signing.Core.Batch.{
  BatchRequest, ItemRun, signed, consult_rules, refuse_batch, open_for_attestations, yield_to_host,
  prepare_item, prepare_items, present_batch, remember_batch, decide_batch, ask_batch, clear_batch,
  stop_before, signed_item, failed_item, sign_item, refuse_items, sign_unless, sign_items,
  run_batch, record_item, record_runs, run_recorded_batch, record_refusals, refuse_whole,
  handle_validated_batch, handle_batch_if, handle_batch,
}

program : Unit {0}
unfolding needs_pq_keys check_rule permission_origin permission_rule params_method text_beq int_beq
    show_int decimal lookup create pure throw ◌>>=◌ catch throw_if gets update_core update_context
    note call finish run_tracked track would_be_unbounded remembered_kind rule_text
    assert_still_active still_wanted request_unlock open_with open_vault open_vault_for_batch cooled
    needs_prompt save_rule remember remember_all count_words_from count_words as_callback as_vault
    derive pick_pq_keys refuse_locked with_pq_keys attestation_event build_attestation sign_template
    execute execute_pq perform with_key use_key sign_locally accept checked_answer ask_remote
    read_relays execute_for use_account resolve_account refuse_unusable read_stored consult_grants
    prepare_attestation prepare open_for_key save_scope confirm approve authenticate admit_rule
    clearance conclude run to_signer_error entry_for record_entry record_outcome run_recorded
    refuse_recorded handle_validated handle_if handle handle_self_if handle_self consult_rules
    refuse_batch open_for_attestations yield_to_host prepare_item prepare_items present_batch
    remember_batch decide_batch ask_batch clear_batch stop_before signed_item failed_item sign_item
    refuse_items sign_unless sign_items run_batch record_item record_runs run_recorded_batch
    record_refusals refuse_whole handle_validated_batch handle_batch_if handle_batch
program = tt

abbrev allowing : Ports (Unit {0})
allowing = record host { check = λ k m kind id c e. (ok Decision.allow, (c, e)) }

abbrev two_notes : BatchRequest
two_notes = record {
  id = text "b1";
  origin = request.origin;
  items =
      record { id = text "i1"; params = sign_event template }
      ∷ record { id = text "i2"; params = sign_event template }
      ∷ [];
}

handle_validated_batch-Reread_example :
    Reread (handle_validated_batch allowing two_notes start).1.log
handle_validated_batch-Reread_example = handle_validated_batch-Reread allowing two_notes start refl

abbrev two_runs : List ItemRun
two_runs =
    record {
      id = text "i1";
      params = plain (sign_event template);
      outcome = signed (message (text "done"));
    }
    ∷ record {
      id = text "i2";
      params = plain (sign_event template);
      outcome = signed (message (text "done"));
    }
    ∷ []

both_signed : (handle_validated_batch allowing two_notes start).0 ≡ ok two_runs
unfolding program
both_signed = refl

handle_validated_batch-ids_example : run_ids two_runs ≡ ids_of two_notes.items
handle_validated_batch-ids_example =
    handle_validated_batch-ids allowing two_notes start two_runs both_signed

-- A dispose forgets the revocations, so a batch that is executing is no longer stopped by one.
dispose_forgets :
    (core : Core) (before : ℕ) (origin_key : Text)
    → is_revoked_since before origin_key (dispose core).revocations ≡ false
unfolding dispose is_revoked_since
dispose_forgets core before origin_key = refl
