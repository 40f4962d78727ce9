-- ===== src/Signing/Core/Quiet.antt =====
-- Rules for what an action of the signer core leaves true of the log, one for each way to build an
-- action, and the actions that do not use the key.
pub mod Gates
pub mod Execute
pub mod Prompt
pub mod Run
pub mod Batch
pub mod Authenticate
use nostr_wot_sdk.Prelude.{
  ◌≡◌, refl, Bool, true, false, if◌then◌else◌, Option, none, some, List, ◌∷◌, Option-cases, inl,
  inr,
}
use nostr_wot_sdk.Signing.Queue.{Code, PendingEntry}
use nostr_wot_sdk.Signing.Queue
use nostr_wot_sdk.Signing.Core.{Core}
use nostr_wot_sdk.Signing.Core.World.{
  World, M, Port, Event, Result, Failure, RunContext, key_used, remote_used, pure, throw, continue,
  recover, ◌>>=◌, ◌>>◌, catch, throw_if, gets, update_core, update_context, note, call, finish,
  run_tracked, track,
}

abbrev pub is_use : Event → Bool
is_use (key_used account params) = true
is_use (remote_used account params) = true
is_use _ = false

-- A statement on the log that no event but a use of the key can break.
pub record Stable (P : List Event → Type 0) : Type 0 where
  pub grow : (e : Event) (log : List Event) → is_use e ≡ false → P log → P (e ∷ log)

pub Stable-and : {P Q : List Event → Type 0} → Stable P → Stable Q → Stable (λ l. P l × Q l)
Stable-and s t = record { grow = λ e l quiet h. (s.grow e l quiet h.0, t.grow e l quiet h.1) }

pub Stable-fact : (X : Type 0) → Stable (λ _. X)
Stable-fact X = record { grow = λ e l quiet h. h }

pub record Keeps {E : Type 0} (P : List Event → Type 0) {A : Type 0} (m : M E A) : Type 0 where
  pub at : (w : World E) → P w.log → P (m w).1.log

log-track :
    {E A : Type 0} (entry : PendingEntry) (port : Port E A) (w : World E)
    → (track entry port w).1.log ≡ w.log
unfolding track run_tracked finish
log-track entry port w = elim (Option-cases (Queue.refusal w.core.queue entry)) [
  | inl admitted ↦ rw (admitted, track)
  | inr (code, refused) ↦ rw (refused, track)
]

module _ {E : Type 0} {P : List Event → Type 0} where
  pub Keeps-pure : {A : Type 0} (a : A) → Keeps P (pure {E = E} a)
  unfolding pure
  Keeps-pure a = record { at = λ w h. h }

  pub Keeps-throw : {A : Type 0} (f : Failure) → Keeps P (throw {E = E} {A = A} f)
  unfolding throw
  Keeps-throw f = record { at = λ w h. h }

  pub Keeps-throw_if : (b : Bool) (code : Code) → Keeps P (throw_if {E = E} b code)
  unfolding throw_if
  Keeps-throw_if true code = record { at = λ w h. h }
  Keeps-throw_if false code = record { at = λ w h. h }

  pub Keeps-gets : {A : Type 0} (f : World E → A) → Keeps P (gets f)
  unfolding gets
  Keeps-gets f = record { at = λ w h. h }

  pub Keeps-update_core : (f : Core → Core) → Keeps P (update_core {E = E} f)
  unfolding update_core
  Keeps-update_core f = record { at = λ w h. h }

  pub Keeps-update_context : (f : RunContext → RunContext) → Keeps P (update_context {E = E} f)
  unfolding update_context
  Keeps-update_context f = record { at = λ w h. h }

  pub Keeps-call : {A : Type 0} (port : Port E A) → Keeps P (call port)
  unfolding call
  Keeps-call port = record { at = λ w h. h }

  pub Keeps-note : (s : Stable P) (e : Event) → is_use e ≡ false → Keeps P (note {E = E} e)
  unfolding note
  Keeps-note s e quiet = record { at = λ w h. s.grow e w.log quiet h }

  pub Keeps-track :
      {A : Type 0} (entry : PendingEntry) (port : Port E A) → Keeps P (track entry port)
  Keeps-track entry port = record { at = λ w h. rw (log-track entry port w) h }

  pub Keeps-if :
      {A : Type 0} (b : Bool) (m n : M E A) → Keeps P m → Keeps P n → Keeps P (if b then m else n)
  Keeps-if true m n km kn = km
  Keeps-if false m n km kn = kn

  continue_keeps :
      {A B : Type 0} (r : Result A) (f : A → M E B) (w : World E)
      → ((a : A) → Keeps P (f a))
      → P w.log
      → P (continue r f w).1.log
  continue_keeps (Result.ok a) f w kf h = (kf a).at w h
  continue_keeps (Result.err e) f w kf h = h

  pub Keeps-bind :
      {A B : Type 0} (m : M E A) (f : A → M E B)
      → Keeps P m
      → ((a : A) → Keeps P (f a))
      → Keeps P (m >>= f)
  unfolding ◌>>=◌
  Keeps-bind m f km kf = record { at = λ w h. continue_keeps (m w).0 f (m w).1 kf (km.at w h) }

  recover_keeps :
      {A : Type 0} (r : Result A) (f : Failure → M E A) (w : World E)
      → ((e : Failure) → Keeps P (f e))
      → P w.log
      → P (recover r f w).1.log
  recover_keeps (Result.ok a) f w kf h = h
  recover_keeps (Result.err e) f w kf h = (kf e).at w h

  pub Keeps-catch :
      {A : Type 0} (m : M E A) (f : Failure → M E A)
      → Keeps P m
      → ((e : Failure) → Keeps P (f e))
      → Keeps P (catch m f)
  unfolding catch
  Keeps-catch m f km kf = record { at = λ w h. recover_keeps (m w).0 f (m w).1 kf (km.at w h) }

pub ruleset keeps_rules = (
  Keeps-pure, Keeps-throw, Keeps-throw_if, Keeps-gets, Keeps-update_core, Keeps-update_context,
  Keeps-call, Keeps-track, Keeps-if, Keeps-bind, Keeps-catch,
)
