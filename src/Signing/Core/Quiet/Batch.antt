-- ===== src/Signing/Core/Quiet/Batch.antt =====
-- The rules of Quiet for what a batch of core.ts does around its signatures.
use nostr_wot_sdk.Prelude.{ℕ, Bool, true, false, Option, none, some, List, [], ◌∷◌, Text, text_eq}
use nostr_wot_sdk.Permissions.Host.{Consent}
use nostr_wot_sdk.Signing.Queue.{Code}
use nostr_wot_sdk.Signing.Requests.{
  SafeAccount, ValidatedParams, sign_pq_attestation, PreparedParams, Asked,
}
use nostr_wot_sdk.Signing.Core.World.{ActivityEntry, Port, Event, Failure, ApprovalDecision}
use nostr_wot_sdk.Signing.Core.Ports.{Ports}
use nostr_wot_sdk.Signing.Core.Handle.{record_entry}
use nostr_wot_sdk.Signing.Core.Batch.{
  BatchItem, BatchRequest, ItemRun, consult_rules, refuse_batch, open_for_attestations,
  yield_to_host, prepare_item, prepare_items, present_batch, remember_batch, decide_batch,
  ask_batch, clear_batch, stop_before, failed_item, record_item, record_runs, record_refusals,
  refuse_whole,
}
use nostr_wot_sdk.Signing.Core.Quiet.{
  Stable, Keeps, keeps_rules, Keeps-note, Keeps-pure, Keeps-bind,
}
use nostr_wot_sdk.Signing.Core.Quiet.Gates.{gate_rules}
use nostr_wot_sdk.Signing.Core.Quiet.Authenticate.{authentication_rules}
use nostr_wot_sdk.Signing.Core.Quiet.Execute.{Keeps-build_attestation}
use nostr_wot_sdk.Signing.Core.Quiet.Run.{Keeps-resolve_account}

module _ {E : Type 0} (p : Ports E) {P : List Event → Type 0} (s : Stable P) where
  Keeps-consult_rules :
      (k : Text) (a : SafeAccount) (texts : List Text) (items : List BatchItem)
      → Keeps P (consult_rules p k a texts items)
  unfolding consult_rules
  Keeps-consult_rules k a texts [] = Keeps-pure []
  Keeps-consult_rules k a texts (item ∷ items) =
      search (keeps_rules, authentication_rules, λ (x : List Text). Keeps-consult_rules k a x items)
        depth 14

  pub Keeps-refuse_batch :
      (a : SafeAccount) (items : List BatchItem) → Keeps P (refuse_batch p a items)
  unfolding refuse_batch
  Keeps-refuse_batch a items = search (keeps_rules) depth 14

  pub Keeps-open_for_attestations :
      (batch : BatchRequest) (a : SafeAccount) → Keeps P (open_for_attestations p batch a)
  unfolding open_for_attestations
  Keeps-open_for_attestations batch a = search (keeps_rules, gate_rules) depth 14

  pub Keeps-yield_to_host : (b : Bool) → Keeps P (yield_to_host p b)
  unfolding yield_to_host
  Keeps-yield_to_host true = search (keeps_rules) depth 14
  Keeps-yield_to_host false = search (keeps_rules) depth 14

  pub Keeps-prepare_item :
      (a : SafeAccount) (prepared : List PreparedParams) (params : ValidatedParams)
      → Keeps P (prepare_item p a prepared params)
  unfolding prepare_item
  Keeps-prepare_item a prepared sign_pq_attestation =
      search (keeps_rules, Keeps-yield_to_host, Keeps-build_attestation) depth 14
  Keeps-prepare_item a prepared _ = search (keeps_rules) depth 14

  Keeps-prepare_items :
      (a : SafeAccount) (prepared : List PreparedParams) (items : List BatchItem)
      → Keeps P (prepare_items p a prepared items)
  unfolding prepare_items
  Keeps-prepare_items a prepared [] = Keeps-pure prepared
  Keeps-prepare_items a prepared (item ∷ items) =
      search
        (
          keeps_rules,
          Keeps-prepare_item,
          λ (x : List PreparedParams). Keeps-prepare_items a x items,
        )
        depth 14

  pub Keeps-present_batch :
      (port : Option (Text → List PreparedParams → SafeAccount → Port E ApprovalDecision))
      (batch : BatchRequest) (a : SafeAccount) (prepared : List PreparedParams)
      → Keeps P (present_batch p port batch a prepared)
  unfolding present_batch
  Keeps-present_batch none batch a prepared = search (keeps_rules) depth 14
  Keeps-present_batch (some port) batch a prepared = search (keeps_rules, Keeps-note) depth 14

  pub Keeps-remember_batch :
      (batch : BatchRequest) (a : SafeAccount) (asked : List Asked) (out : ApprovalDecision)
      (d : Consent)
      → Keeps P (remember_batch p batch a asked out d)
  unfolding remember_batch
  Keeps-remember_batch batch a asked out d = search (keeps_rules, gate_rules) depth 14

  pub Keeps-decide_batch :
      (batch : BatchRequest) (a : SafeAccount) (asked : List Asked) (out : ApprovalDecision)
      → Keeps P (decide_batch p batch a asked out)
  unfolding decide_batch
  Keeps-decide_batch batch a asked out =
      search (keeps_rules, gate_rules, Keeps-remember_batch) depth 14

  pub Keeps-ask_batch :
      (batch : BatchRequest) (a : SafeAccount) (prepared : List PreparedParams) (asked : List Asked)
      → Keeps P (ask_batch p batch a prepared asked)
  unfolding ask_batch
  Keeps-ask_batch batch a prepared [] = search (keeps_rules) depth 14
  Keeps-ask_batch batch a prepared (rule ∷ rules) =
      search (keeps_rules, Keeps-present_batch, Keeps-decide_batch) depth 14

  pub Keeps-clear_batch : (batch : BatchRequest) → Keeps P (clear_batch p batch)
  unfolding clear_batch
  Keeps-clear_batch batch =
      search
        (
          keeps_rules, gate_rules, Keeps-resolve_account, Keeps-consult_rules, Keeps-refuse_batch,
          Keeps-open_for_attestations, Keeps-prepare_items, Keeps-ask_batch,
        )
        depth 30

  pub Keeps-stop_before :
      (b : Bool) (a : SafeAccount) (k : Text) (n : ℕ) → Keeps P (stop_before p b a k n)
  unfolding stop_before
  Keeps-stop_before true a k n = search (keeps_rules, gate_rules) depth 14
  Keeps-stop_before false a k n = search (keeps_rules, gate_rules, Keeps-yield_to_host) depth 14

  pub Keeps-failed_item :
      (item : BatchItem) (prep : PreparedParams) (f : Failure) → Keeps P (failed_item p item prep f)
  unfolding failed_item
  Keeps-failed_item item prep f = search (keeps_rules) depth 14

  Keeps-record_entry : (entry : ActivityEntry) → Keeps P (record_entry p entry)
  unfolding record_entry
  Keeps-record_entry entry = search (keeps_rules, Keeps-note) depth 14

  pub Keeps-record_item :
      (batch : BatchRequest) (k : Text) (prep : PreparedParams) (d : Consent)
      (stopped : Option Code)
      → Keeps P (record_item p batch k prep d stopped)
  unfolding record_item
  Keeps-record_item batch k prep d stopped = search (keeps_rules, Keeps-record_entry) depth 14

  pub Keeps-record_runs :
      (batch : BatchRequest) (runs : List ItemRun) → Keeps P (record_runs p batch runs)
  unfolding record_runs
  Keeps-record_runs batch [] = Keeps-pure tt
  Keeps-record_runs batch (r ∷ runs) =
      Keeps-bind _ _ (Keeps-record_item batch _ _ _ _) λ _. Keeps-record_runs batch runs

  Keeps-record_refusals :
      (batch : BatchRequest) (items : List BatchItem) (prepared : List PreparedParams) (code : Code)
      → Keeps P (record_refusals p batch items prepared code)
  unfolding record_refusals
  Keeps-record_refusals batch [] prepared code = Keeps-pure tt
  Keeps-record_refusals batch (item ∷ items) [] code =
      Keeps-bind _ _ (Keeps-record_item batch _ _ _ _)
        λ _. Keeps-record_refusals batch items [] code
  Keeps-record_refusals batch (item ∷ items) (x ∷ prepared) code =
      Keeps-bind _ _ (Keeps-record_item batch _ _ _ _)
        λ _. Keeps-record_refusals batch items prepared code

  pub Keeps-refuse_whole : (batch : BatchRequest) (f : Failure) → Keeps P (refuse_whole p batch f)
  unfolding refuse_whole
  Keeps-refuse_whole batch f = search (keeps_rules, Keeps-record_refusals) depth 14
