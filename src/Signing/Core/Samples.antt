-- ===== src/Signing/Core/Samples.antt =====
-- A host for the tests of core.ts: its user allows everything, and one event to sign.
use nostr_wot_sdk.Prelude.{true, false, none, some, [], text, pos}
use nostr_wot_sdk.Permissions.Key.{ask}
use nostr_wot_sdk.Signing.Requests.{SignerRequest, SafeAccount, EventTemplate, web}
use nostr_wot_sdk.Signing.Core.{create}
use nostr_wot_sdk.Signing.Core.World.{World, ApprovalDecision, ok, err, other, message, pipeline}
use nostr_wot_sdk.Signing.Core.Ports.{Ports}

abbrev pub alice : SafeAccount
alice = record { id = text "a1"; is_nip46 = false; pubkey = text "alice"; read_only = false }

abbrev pub yes_to_all : ApprovalDecision
yes_to_all = record {
  allow = true;
  authentication_scope = none;
  remember = false;
  remember_kind = none;
}

abbrev pub template : EventTemplate
template = record { kind = pos 1; content = text "hi"; tags = []; created_at = none; pubkey = none }

abbrev pub host : Ports (Unit {0})
host = record {
  now = λ e. 5000;
  is_locked = λ e. false;
  active_account = λ c e. (ok (some alice), (c, e));
  check = λ k m kind id c e. (ok ask, (c, e));
  save = λ k m kind d id c e. (ok tt, (c, e));
  present = λ r shown a context c e. (ok yes_to_all, (c, e));
  present_batch = none;
  yield_to_host = λ c e. (ok tt, (c, e));
  request_unlock = none;
  request_unlock_batch = none;
  remote = none;
  get_relays = none;
  activity = λ entry c e. (ok tt, (c, e));
  privkey = λ id c e. (ok (text "secret"), (c, e));
  privkey_after = λ id c e. (ok tt, (c, e));
  public_key = λ key c e. (ok (text "alice"), (c, e));
  key_call = λ key pq work c e. (ok (message (text "done")), (c, e));
  has_imported_pq_keys = λ e id. false;
  has_mnemonic = λ e id. false;
  imported_pq_keys = λ id c e. (err other, (c, e));
  mnemonic = λ id c e. (err other, (c, e));
  derive_pq_keys = λ a phrase c e. (err other, (c, e));
  attestation_tags = λ pubkey keys c e. (err other, (c, e));
  verify_event = λ event. true;
  grants = none;
  requester_for = none;
  origin_for = none;
  assert_allowed = none;
  legacy_login_origins = [];
  remember_for = [];
  self_requesters = [];
}

abbrev pub request : SignerRequest
request = record {
  id = text "r1";
  origin = record {
    kind = web;
    identifier = text "https://x.example";
    display_name = none;
    icon = none;
  };
  received_at = 0;
}

abbrev pub start : World (Unit {0})
start = record {
  core = create;
  env = tt;
  context = record { account = none; phase = pipeline; prepared = none; authentication = none };
  log = [];
}
