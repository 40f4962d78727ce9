-- ===== src/Signing/Core/Quiet/Run.antt =====
-- The rules of Quiet for `#run` of core.ts up to the key's use.
use nostr_wot_sdk.Prelude.{ℕ, Bool, Option, none, some, List, text_eq}
use nostr_wot_sdk.Permissions.Key.{Decision}
use nostr_wot_sdk.Permissions.Grants.{AuthenticationScope}
use nostr_wot_sdk.Signing.Requests.{
  SignerRequest, SafeAccount, ValidatedParams, sign_pq_attestation, PreparedParams,
}
use nostr_wot_sdk.Signing.Core.World.{Event, AuthenticationRun}
use nostr_wot_sdk.Signing.Core.Ports.{Ports, GrantsPort}
use nostr_wot_sdk.Signing.Core.Run.{
  use_account, resolve_account, refuse_unusable, read_stored, consult_grants, prepare_attestation,
  prepare, open_for_key, save_scope, confirm, approve, authenticate, admit_rule, clearance, run,
}
use nostr_wot_sdk.Signing.Core.Quiet.{Stable, Keeps, keeps_rules, Keeps-note}
use nostr_wot_sdk.Signing.Core.Quiet.Gates.{gate_rules}
use nostr_wot_sdk.Signing.Core.Quiet.Authenticate.{authentication_rules}
use nostr_wot_sdk.Signing.Core.Quiet.Prompt.{prompt_rules}
use nostr_wot_sdk.Signing.Core.Quiet.Execute.{Keeps-build_attestation}

module _ {E : Type 0} (p : Ports E) {P : List Event → Type 0} (s : Stable P) where
  pub Keeps-use_account : (oa : Option SafeAccount) → Keeps P (use_account p oa)
  unfolding use_account
  Keeps-use_account none = search (keeps_rules) depth 14
  Keeps-use_account (some a) = search (keeps_rules) depth 14

  pub Keeps-resolve_account : Keeps P (resolve_account p)
  unfolding resolve_account
  Keeps-resolve_account = search (keeps_rules, Keeps-note, Keeps-use_account) depth 14

  pub Keeps-refuse_unusable :
      (a : SafeAccount) (params : ValidatedParams) → Keeps P (refuse_unusable p a params)
  unfolding refuse_unusable
  Keeps-refuse_unusable a params = search (keeps_rules) depth 14

  pub Keeps-read_stored :
      (og : Option (GrantsPort E)) (a : SafeAccount) (run : AuthenticationRun)
      → Keeps P (read_stored p og a run)
  unfolding read_stored
  Keeps-read_stored none a run = search (keeps_rules, authentication_rules, prompt_rules) depth 14
  Keeps-read_stored (some g) a run =
      search (keeps_rules, authentication_rules, prompt_rules) depth 14

  pub Keeps-consult_grants :
      (a : SafeAccount) (o : Option AuthenticationRun) → Keeps P (consult_grants p a o)
  unfolding consult_grants
  Keeps-consult_grants a none = search (keeps_rules, prompt_rules) depth 14
  Keeps-consult_grants a (some run) = search (keeps_rules, Keeps-read_stored, prompt_rules) depth 14

  pub Keeps-prepare_attestation :
      (req : SignerRequest) (a : SafeAccount) → Keeps P (prepare_attestation p req a)
  unfolding prepare_attestation
  Keeps-prepare_attestation req a =
      search (keeps_rules, gate_rules, Keeps-build_attestation) depth 14

  pub Keeps-prepare :
      (req : SignerRequest) (params : ValidatedParams) (a : SafeAccount)
      → Keeps P (prepare p req params a)
  unfolding prepare
  Keeps-prepare req sign_pq_attestation a = search (keeps_rules, Keeps-prepare_attestation) depth 14
  Keeps-prepare req _ a = search (keeps_rules) depth 14

  pub Keeps-open_for_key :
      (req : SignerRequest) (params : ValidatedParams) (prep : PreparedParams) (a : SafeAccount)
      → Keeps P (open_for_key p req params prep a)
  unfolding open_for_key
  Keeps-open_for_key req params prep a = search (keeps_rules, gate_rules) depth 14

  pub Keeps-save_scope :
      (a : SafeAccount) (o : Option AuthenticationRun) (os : Option AuthenticationScope)
      → Keeps P (save_scope p a o os)
  unfolding save_scope
  Keeps-save_scope a (some run) (some sc) = search (authentication_rules)
  Keeps-save_scope a none os = search (keeps_rules)
  Keeps-save_scope a (some run) none = search (keeps_rules)

  pub Keeps-confirm :
      (req : SignerRequest) (params : ValidatedParams) (a : SafeAccount)
      (o : Option AuthenticationRun) (n : ℕ)
      → Keeps P (confirm p req params a o n)
  unfolding confirm
  Keeps-confirm req params a o n =
      search (keeps_rules, gate_rules, authentication_rules, Keeps-save_scope) depth 14

  pub Keeps-approve :
      (req : SignerRequest) (params : ValidatedParams) (a : SafeAccount) (d : Decision)
      (o : Option AuthenticationRun)
      → Keeps P (approve p req params a d o)
  unfolding approve
  Keeps-approve req params a d o =
      search (keeps_rules, Keeps-consult_grants, Keeps-prepare, prompt_rules) depth 14

  pub Keeps-authenticate :
      (req : SignerRequest) (params : ValidatedParams) (a : SafeAccount) (b : Bool)
      → Keeps P (authenticate p req params a b)
  unfolding authenticate
  Keeps-authenticate req params a b =
      search (keeps_rules, authentication_rules, prompt_rules) depth 14

  pub Keeps-admit_rule :
      (req : SignerRequest) (params : ValidatedParams) (a : SafeAccount)
      → Keeps P (admit_rule p req params a)
  unfolding admit_rule
  Keeps-admit_rule req params a = search (keeps_rules, authentication_rules) depth 14

  pub Keeps-clearance :
      (req : SignerRequest) (params : ValidatedParams) (b : Bool) (n : ℕ)
      → Keeps P (clearance p req params b n)
  unfolding clearance
  Keeps-clearance req params b n =
      search
        (
          keeps_rules, Keeps-resolve_account, Keeps-admit_rule, Keeps-refuse_unusable,
          Keeps-authenticate, Keeps-approve, Keeps-open_for_key, Keeps-confirm,
        )
        depth 30
