-- ===== src/Signing/Core/Quiet/Prompt.antt =====
-- The rules of Quiet for the prompt of core.ts.
use nostr_wot_sdk.Prelude.{Bool, true, false, Option, none, some, List, Text, text_eq}
use nostr_wot_sdk.Permissions.Key.{Decision}
use nostr_wot_sdk.Signing.Requests.{
  SignerRequest, SignerMethod, SafeAccount, ValidatedParams, PreparedParams,
}
use nostr_wot_sdk.Signing.Core.World.{Event, ApprovalDecision, AuthenticationRun}
use nostr_wot_sdk.Signing.Core.Ports.{Ports}
use nostr_wot_sdk.Signing.Core.Prompt.{
  set_authentication, must_ask, present, remember_rejection, reject_run, take_scope, cool_down,
  accept_run, decide, ask_user, ask_if,
}
use nostr_wot_sdk.Signing.Core.Quiet.{Stable, Keeps, keeps_rules, Keeps-note}
use nostr_wot_sdk.Signing.Core.Quiet.Gates.{gate_rules}
use nostr_wot_sdk.Signing.Core.Quiet.Authenticate.{authentication_rules}

module _ {E : Type 0} (p : Ports E) {P : List Event → Type 0} (s : Stable P) where
  pub Keeps-set_authentication : (o : Option AuthenticationRun) → Keeps P (set_authentication p o)
  unfolding set_authentication
  Keeps-set_authentication o = search (keeps_rules) depth 14

  pub Keeps-must_ask :
      (d : Decision) (params : ValidatedParams) (k : Text) (a : SafeAccount)
      (o : Option AuthenticationRun)
      → Keeps P (must_ask p d params k a o)
  unfolding must_ask
  Keeps-must_ask d params k a none = search (keeps_rules, gate_rules) depth 14
  Keeps-must_ask d params k a (some run) = search (keeps_rules, gate_rules) depth 14

  pub Keeps-present :
      (req : SignerRequest) (prep : PreparedParams) (a : SafeAccount) (o : Option AuthenticationRun)
      → Keeps P (present p req prep a o)
  unfolding present
  Keeps-present req prep a o = search (keeps_rules, Keeps-note) depth 14

  pub Keeps-remember_rejection :
      (req : SignerRequest) (params : ValidatedParams) (a : SafeAccount)
      (o : Option AuthenticationRun) (out : ApprovalDecision)
      → Keeps P (remember_rejection p req params a o out)
  unfolding remember_rejection
  Keeps-remember_rejection req params a none out =
      search (keeps_rules, gate_rules, authentication_rules) depth 14
  Keeps-remember_rejection req params a (some run) out =
      search (keeps_rules, gate_rules, authentication_rules) depth 14

  pub Keeps-reject_run :
      (req : SignerRequest) (params : ValidatedParams) (a : SafeAccount)
      (o : Option AuthenticationRun) (out : ApprovalDecision)
      → Keeps P (reject_run p req params a o out)
  unfolding reject_run
  Keeps-reject_run req params a o out = search (keeps_rules, Keeps-remember_rejection) depth 14

  pub Keeps-take_scope :
      (o : Option AuthenticationRun) (out : ApprovalDecision) → Keeps P (take_scope p o out)
  unfolding take_scope
  Keeps-take_scope none out = search (keeps_rules) depth 14
  Keeps-take_scope (some run) out = search (keeps_rules, Keeps-set_authentication) depth 14

  pub Keeps-cool_down :
      (m : SignerMethod) (k : Text) (a : SafeAccount) → Keeps P (cool_down p m k a)
  unfolding cool_down
  Keeps-cool_down SignerMethod.get_public_key k a = search (keeps_rules) depth 14
  Keeps-cool_down _ k a = search (keeps_rules) depth 14

  pub Keeps-accept_run :
      (req : SignerRequest) (params : ValidatedParams) (a : SafeAccount)
      (o : Option AuthenticationRun) (out : ApprovalDecision)
      → Keeps P (accept_run p req params a o out)
  unfolding accept_run
  Keeps-accept_run req params a o out =
      search (keeps_rules, gate_rules, Keeps-take_scope, Keeps-cool_down) depth 14

  pub Keeps-decide :
      (req : SignerRequest) (params : ValidatedParams) (a : SafeAccount)
      (o : Option AuthenticationRun) (out : ApprovalDecision)
      → Keeps P (decide p req params a o out)
  unfolding decide
  Keeps-decide req params a o out =
      search (keeps_rules, Keeps-accept_run, Keeps-reject_run) depth 14

  pub Keeps-ask_user :
      (req : SignerRequest) (params : ValidatedParams) (prep : PreparedParams) (a : SafeAccount)
      (o : Option AuthenticationRun)
      → Keeps P (ask_user p req params prep a o)
  unfolding ask_user
  Keeps-ask_user req params prep a o = search (keeps_rules, Keeps-present, Keeps-decide) depth 14

  pub Keeps-ask_if :
      (b : Bool) (req : SignerRequest) (params : ValidatedParams) (prep : PreparedParams)
      (a : SafeAccount) (o : Option AuthenticationRun)
      → Keeps P (ask_if p b req params prep a o)
  unfolding ask_if
  Keeps-ask_if true req params prep a o = search (keeps_rules, Keeps-ask_user) depth 14
  Keeps-ask_if false req params prep a o = search (keeps_rules) depth 14

pub ruleset prompt_rules = (Keeps-set_authentication, Keeps-must_ask, Keeps-ask_if)
