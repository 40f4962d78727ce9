-- ===== src/Signing/Core/Quiet/Gates.antt =====
-- The rules of Quiet for the gates of core.ts.
use nostr_wot_sdk.Prelude.{ℕ, Bool, Option, none, some, List, [], ◌∷◌, Text}
use nostr_wot_sdk.Permissions.Key.{Kind}
use nostr_wot_sdk.Permissions.Host.{Consent}
use nostr_wot_sdk.Signing.Requests.{SafeAccount, SignerMethod, Asked}
use nostr_wot_sdk.Signing.Core.{Cooldown}
use nostr_wot_sdk.Signing.Core.World.{Event, Port}
use nostr_wot_sdk.Signing.Core.Ports.{Ports}
use nostr_wot_sdk.Signing.Core.Gates.{
  assert_still_active, still_wanted, request_unlock, open_with, open_vault, open_vault_for_batch,
  cooled, needs_prompt, save_rule, remember, remember_all,
}
use nostr_wot_sdk.Signing.Core.Quiet.{Stable, Keeps, keeps_rules, Keeps-note}

module _ {E : Type 0} (p : Ports E) {P : List Event → Type 0} (s : Stable P) where
  pub Keeps-assert_still_active : (a : SafeAccount) → Keeps P (assert_still_active p a)
  unfolding assert_still_active
  Keeps-assert_still_active a = search (keeps_rules, Keeps-note) depth 14

  pub Keeps-still_wanted : (a : SafeAccount) (k : Text) (n : ℕ) → Keeps P (still_wanted p a k n)
  unfolding still_wanted
  Keeps-still_wanted a k n = search (keeps_rules, Keeps-note) depth 14

  pub Keeps-request_unlock :
      (port : Option (Text → SafeAccount → Port E (Unit {0}))) (id k : Text) (a : SafeAccount)
      → Keeps P (request_unlock p port id k a)
  unfolding request_unlock
  Keeps-request_unlock none id k a = search (keeps_rules) depth 14
  Keeps-request_unlock (some port) id k a = search (keeps_rules, Keeps-note) depth 14

  pub Keeps-open_with :
      (port : Option (Text → SafeAccount → Port E (Unit {0}))) (id k : Text) (a : SafeAccount)
      → Keeps P (open_with p port id k a)
  unfolding open_with
  Keeps-open_with port id k a = search (keeps_rules, Keeps-request_unlock) depth 14

  pub Keeps-open_vault : (id k : Text) (a : SafeAccount) → Keeps P (open_vault p id k a)
  unfolding open_vault
  Keeps-open_vault id k a = Keeps-open_with p.request_unlock id k a

  pub Keeps-open_vault_for_batch :
      (id k : Text) (a : SafeAccount) → Keeps P (open_vault_for_batch p id k a)
  unfolding open_vault_for_batch
  Keeps-open_vault_for_batch id k a = Keeps-open_with p.request_unlock_batch id k a

  Keeps-cooled :
      (c : Option Cooldown) (k : Text) (a : SafeAccount) (n : ℕ) → Keeps P (cooled p c k a n)
  unfolding cooled
  Keeps-cooled none k a n = search (keeps_rules) depth 14
  Keeps-cooled (some c) k a n = search (keeps_rules) depth 14

  pub Keeps-needs_prompt :
      (m : SignerMethod) (r : Bool) (k : Text) (a : SafeAccount) → Keeps P (needs_prompt p m r k a)
  unfolding needs_prompt
  Keeps-needs_prompt SignerMethod.get_public_key r k a = search (keeps_rules, Keeps-cooled) depth 14
  Keeps-needs_prompt _ r k a = search (keeps_rules) depth 14

  Keeps-save_rule :
      (k : Text) (m : SignerMethod) (kind : Kind) (d : Consent) (a : SafeAccount)
      → Keeps P (save_rule p k m kind d a)
  unfolding save_rule
  Keeps-save_rule k m kind d a = search (keeps_rules, Keeps-note) depth 14

  pub Keeps-remember :
      (k : Text) (r : Asked) (b : Option Bool) (d : Consent) (a : SafeAccount)
      → Keeps P (remember p k r b d a)
  unfolding remember
  Keeps-remember k r b d a = search (keeps_rules, Keeps-save_rule) depth 14

  pub Keeps-remember_all :
      (saved : List Text) (k : Text) (rs : List Asked) (b : Option Bool) (d : Consent)
      (a : SafeAccount)
      → Keeps P (remember_all p saved k rs b d a)
  unfolding remember_all
  Keeps-remember_all saved k [] b d a = search (keeps_rules) depth 14
  Keeps-remember_all saved k (r ∷ rs) b d a =
      search (keeps_rules, Keeps-save_rule, λ (x : List Text). Keeps-remember_all x k rs b d a)
        depth 14

pub ruleset gate_rules = (
  Keeps-assert_still_active, Keeps-still_wanted, Keeps-open_vault, Keeps-open_vault_for_batch,
  Keeps-needs_prompt, Keeps-remember, Keeps-remember_all,
)
