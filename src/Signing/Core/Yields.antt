-- ===== src/Signing/Core/Yields.antt =====
-- What holds of the log once an action returns (`Yields`), and once it has ended either way (`Leads`).
use nostr_wot_sdk.Prelude.{◌≡◌, refl, Bool, true, false, if◌then◌else◌, List, ◌∷◌, subst}
use nostr_wot_sdk.Signing.Queue.{Code}
use nostr_wot_sdk.Signing.Core.World.{
  World, M, Event, Result, ok, err, Failure, pure, throw, continue, recover, ◌>>=◌, catch, throw_if,
  note,
}
use nostr_wot_sdk.Signing.Core.Quiet.{Keeps}

ok_injective : {A : Type 0} {a b : A} → ok a ≡ ok b → a ≡ b
ok_injective e = cc

pub record Yields {E A : Type 0} (P : List Event → Type 0) (m : M E A) (Q : A → List Event → Type 0)
    : Type 0 where
  pub at : (w : World E) → P w.log → (a : A) → (m w).0 ≡ ok a → Q a (m w).1.log

pub record Leads {E A : Type 0} (P : List Event → Type 0) (m : M E A) (Q : List Event → Type 0)
    : Type 0 where
  pub at : (w : World E) → P w.log → Q (m w).1.log

module _ {E A : Type 0} where
  pub Keeps-any : (m : M E A) → Keeps (λ _. Unit {0}) m
  Keeps-any m = record { at = λ w h. tt }

  pub Yields-and :
      {F : List Event → Type 0} {m : M E A} {Q : A → List Event → Type 0}
      → Keeps F m
      → Yields (λ _. Unit {0}) m Q
      → Yields F m (λ a l. F l × Q a l)
  Yields-and k y = record { at = λ w h a e. (k.at w h, y.at w tt a e) }

module _ {E A : Type 0} {P : List Event → Type 0} where
  pub Yields-pure :
      {Q : A → List Event → Type 0} (a : A)
      → ((l : List Event) → P l → Q a l)
      → Yields P (pure {E = E} a) Q
  unfolding pure
  Yields-pure {Q} a k = record {
    at = λ w h b e. subst (λ (x : A). Q x w.log) (ok_injective e) (k w.log h);
  }

  pub Yields-throw :
      {Q : A → List Event → Type 0} (f : Failure) → Yields P (throw {E = E} {A = A} f) Q
  unfolding throw
  Yields-throw f = record { at = λ w h a e. absurd (cc) }

  pub Yields-keep : {m : M E A} → Keeps P m → Yields P m (λ _. P)
  Yields-keep k = record { at = λ w h a e. k.at w h }

  -- What the action keeps stands beside what it yields.
  pub Yields-frame :
      {F : List Event → Type 0} {m : M E A} {Q : A → List Event → Type 0}
      → Keeps F m
      → Yields P m Q
      → Yields (λ l. F l × P l) m (λ a l. F l × Q a l)
  Yields-frame k y = record { at = λ w h a e. (k.at w h.0, y.at w h.1 a e) }

  -- A fact that is not about the log may stand before the action.
  pub Yields-given :
      {X : Type 0} {m : M E A} {Q : A → List Event → Type 0}
      → (X → Yields P m Q)
      → Yields (λ l. P l × X) m Q
  Yields-given k = record { at = λ w h a e. (k (h.1)).at w (h.0) a e }

  pub Yields-pre :
      {R : List Event → Type 0} {m : M E A} {Q : A → List Event → Type 0}
      → ((l : List Event) → R l → P l)
      → Yields P m Q
      → Yields R m Q
  Yields-pre k y = record { at = λ w h a e. y.at w (k w.log h) a e }

  pub Yields-post :
      {m : M E A} {Q R : A → List Event → Type 0}
      → Yields P m Q
      → ((a : A) (l : List Event) → Q a l → R a l)
      → Yields P m R
  Yields-post {m} y k = record { at = λ w h a e. k a (m w).1.log (y.at w h a e) }

module _ {E : Type 0} {P : List Event → Type 0} where
  pub Yields-throw_if :
      (b : Bool) (code : Code) → Yields P (throw_if {E = E} b code) (λ _ l. (b ≡ false) × P l)
  unfolding throw_if
  Yields-throw_if true code = record { at = λ w h a e. absurd (cc) }
  Yields-throw_if false code = record { at = λ w h a e. (refl, h) }

  pub Yields-note :
      {Q : List Event → Type 0} (e : Event)
      → ((l : List Event) → P l → Q (e ∷ l))
      → Yields P (note {E = E} e) (λ _. Q)
  unfolding note
  Yields-note e k = record { at = λ w h a q. k w.log h }

  pub Yields-if :
      {A : Type 0} {Q : A → List Event → Type 0} (b : Bool) (m n : M E A)
      → (b ≡ true → Yields P m Q)
      → (b ≡ false → Yields P n Q)
      → Yields P (if b then m else n) Q
  Yields-if true m n km kn = km refl
  Yields-if false m n km kn = kn refl

module _ {E A B : Type 0} where
  continue_yields :
      {Q : A → List Event → Type 0} {R : B → List Event → Type 0} (f : A → M E B)
      → ((a : A) → Yields (Q a) (f a) R)
      → (r : Result A) (w : World E) → ((a : A) → r ≡ ok a → Q a w.log)
      → (b : B) → (continue r f w).0 ≡ ok b
      → R b (continue r f w).1.log
  continue_yields f kf (ok a) w h b e = (kf a).at w (h a refl) b e
  continue_yields f kf (err x) w h b e = absurd (cc)

  pub Yields-bind :
      {P : List Event → Type 0} {Q : A → List Event → Type 0} {R : B → List Event → Type 0}
      {m : M E A} {f : A → M E B}
      → Yields P m Q
      → ((a : A) → Yields (Q a) (f a) R)
      → Yields P (m >>= f) R
  unfolding ◌>>=◌
  Yields-bind {m} {f} y kf = record {
    at = λ w h b e. continue_yields f kf (m w).0 (m w).1 (λ a q. y.at w h a q) b e;
  }

  -- A first action of which only what it keeps matters.
  pub Yields-then :
      {P : List Event → Type 0} {R : B → List Event → Type 0} {m : M E A} {f : A → M E B}
      → Keeps P m
      → ((a : A) → Yields P (f a) R)
      → Yields P (m >>= f) R
  Yields-then k kf = Yields-bind (Yields-keep k) kf

module _ {E A : Type 0} {P : List Event → Type 0} {Q : A → List Event → Type 0} where
  -- An action that needs nothing of the log.
  pub Yields-any : {m : M E A} → Yields (λ _. Unit {0}) m Q → Yields P m Q
  Yields-any y = record { at = λ w h a e. y.at w tt a e }

module _ {E A : Type 0} {Q : A → List Event → Type 0} where
  recover_yields :
      (f : Failure → M E A)
      → ((x : Failure) → Yields (λ _. Unit {0}) (f x) Q)
      → (r : Result A) (w : World E) → ((a : A) → r ≡ ok a → Q a w.log)
      → (b : A) → (recover r f w).0 ≡ ok b
      → Q b (recover r f w).1.log
  recover_yields f kf (ok a) w h b e = h b e
  recover_yields f kf (err x) w h b e = (kf x).at w tt b e

  pub Yields-catch :
      {P : List Event → Type 0} {m : M E A} {f : Failure → M E A}
      → Yields P m Q
      → ((x : Failure) → Yields (λ _. Unit {0}) (f x) Q)
      → Yields P (catch m f) Q
  unfolding catch
  Yields-catch {m} {f} y kf = record {
    at = λ w h b e. recover_yields f kf (m w).0 (m w).1 (λ a q. y.at w h a q) b e;
  }

module _ {E A B : Type 0} {Q : List Event → Type 0} where
  continue_leads :
      {R : A → List Event → Type 0} (f : A → M E B)
      → ((a : A) → Leads (R a) (f a) Q)
      → (r : Result A) (w : World E) → ((a : A) → r ≡ ok a → R a w.log)
      → Q w.log
      → Q (continue r f w).1.log
  continue_leads f kf (ok a) w h q = (kf a).at w (h a refl)
  continue_leads f kf (err x) w h q = q

  -- The first action leaves `Q`, and what it yields is what the second one needs.
  pub Leads-bind :
      {P : List Event → Type 0} {R : A → List Event → Type 0} {m : M E A} {f : A → M E B}
      → Leads P m Q
      → Yields P m R
      → ((a : A) → Leads (R a) (f a) Q)
      → Leads P (m >>= f) Q
  unfolding ◌>>=◌
  Leads-bind {m} {f} l y kf = record {
    at = λ w h. continue_leads f kf (m w).0 (m w).1 (λ a q. y.at w h a q) (l.at w h);
  }

module _ {E A : Type 0} {Q : List Event → Type 0} where
  pub Leads-keep :
      {P : List Event → Type 0} {m : M E A}
      → ((l : List Event) → P l → Q l)
      → Keeps Q m
      → Leads P m Q
  Leads-keep k keep = record { at = λ w h. keep.at w (k w.log h) }

  pub Leads-pre :
      {P R : List Event → Type 0} {m : M E A}
      → ((l : List Event) → R l → P l)
      → Leads P m Q
      → Leads R m Q
  Leads-pre k lead = record { at = λ w h. lead.at w (k w.log h) }

  pub Yields-of_leads : {P : List Event → Type 0} {m : M E A} → Leads P m Q → Yields P m (λ _. Q)
  Yields-of_leads lead = record { at = λ w h a e. lead.at w h }

  pub Leads-if :
      {P : List Event → Type 0} (b : Bool) {m n : M E A}
      → Leads P m Q
      → Leads P n Q
      → Leads P (if b then m else n) Q
  Leads-if true km kn = km
  Leads-if false km kn = kn

  recover_leads :
      (f : Failure → M E A)
      → ((x : Failure) → Keeps Q (f x))
      → (r : Result A) (w : World E) → Q w.log
      → Q (recover r f w).1.log
  recover_leads f kf (ok a) w h = h
  recover_leads f kf (err x) w h = (kf x).at w h

  pub Leads-catch :
      {P : List Event → Type 0} {m : M E A} {f : Failure → M E A}
      → Leads P m Q
      → ((x : Failure) → Keeps Q (f x))
      → Leads P (catch m f) Q
  unfolding catch
  Leads-catch {m} {f} l kf = record { at = λ w h. recover_leads f kf (m w).0 (m w).1 (l.at w h) }
