-- ===== src/Signing/Core/Batch/Rereads.antt =====
-- The readings of the active account around the signatures of a batch in core.ts.
use nostr_wot_sdk.Prelude.{
  ◌≡◌, refl, Bool, true, false, not, ℕ, Option, none, some, List, [], ◌∷◌, Text, arith,
}
use nostr_wot_sdk.Signing.Queue.{Code, account_switched}
use nostr_wot_sdk.Signing.Requests.{SafeAccount, PreparedParams}
use nostr_wot_sdk.Signing.Core.World.{
  World, M, Event, active_account, shown, unlocked, key_used, note,
}
use nostr_wot_sdk.Signing.Core.Ports.{Ports}
use nostr_wot_sdk.Signing.Core.Gates.{assert_still_active, still_wanted, is_same_account}
use nostr_wot_sdk.Signing.Core.Execute.{with_key, use_key, sign_locally}
use nostr_wot_sdk.Signing.Core.Batch.{
  BatchRequest, BatchItem, ItemRun, yield_to_host, clear_batch, stop_before, signed_item, sign_item,
  sign_unless, refusals_of, sign_items, run_batch, run_recorded_batch, handle_validated_batch,
}
use nostr_wot_sdk.Signing.Core.Quiet.{
  Stable, is_use, Keeps, Keeps-bind, Keeps-catch, Keeps-call, Keeps-gets, Keeps-pure,
  Keeps-throw_if, Keeps-update_context,
}
use nostr_wot_sdk.Signing.Core.Quiet.Gates.{Keeps-still_wanted}
use nostr_wot_sdk.Signing.Core.Quiet.Execute.{Keeps-as_callback, Keeps-as_vault, Keeps-perform}
use nostr_wot_sdk.Signing.Core.Quiet.Batch.{
  Keeps-clear_batch, Keeps-stop_before, Keeps-failed_item, Keeps-record_runs, Keeps-refuse_whole,
}
use nostr_wot_sdk.Signing.Core.Yields.{
  Yields, Leads, Leads-bind, Leads-keep, Leads-catch, Leads-pre, Yields-of_leads, Yields-bind,
  Yields-keep, Yields-note, Yields-pure, Yields-post, Yields-pre, Yields-and, Yields-then,
  Yields-throw_if, Keeps-any,
}

-- The last answer on the active account is this account, and no prompt, unlock or use came after it.
abbrev pub just_read : SafeAccount → List Event → Bool
just_read account [] = false
just_read account (active_account current ∷ log) = is_same_account current account
just_read account (shown _ _ _ _ ∷ log) = false
just_read account (unlocked _ ∷ log) = false
just_read account (key_used _ _ ∷ log) = false
just_read account (_ ∷ log) = just_read account log

-- Each use of a key stands right on such an answer.
abbrev pub Reread : List Event → Type 0
Reread [] = Unit {0}
Reread (key_used account prepared ∷ log) = (just_read account log ≡ true) × Reread log
Reread (_ ∷ log) = Reread log

Reread-grow : (e : Event) (log : List Event) → is_use e ≡ false → Reread log → Reread (e ∷ log)
Reread-grow (key_used a p) log quiet h = absurd (cc)
Reread-grow _ log quiet h = h

Reread-Stable : Stable Reread
Reread-Stable = record { grow = Reread-grow }

module _ {E : Type 0} (p : Ports E) (account : SafeAccount) where
  abbrev Ready : List Event → Type 0
  Ready l = (just_read account l ≡ true) × Reread l

  assert-just_read :
      Yields (λ _. Unit {0}) (assert_still_active p account) (λ _ l. just_read account l ≡ true)
  unfolding assert_still_active
  assert-just_read = Yields-bind (Yields-keep (Keeps-any _)) λ current.
      Yields-bind
        (Yields-note {Q = λ l. just_read account l ≡ is_same_account current account}
          (active_account current) (λ l h. refl))
        λ _.
          Yields-post (Yields-throw_if (not (is_same_account current account)) account_switched)
            (λ _ l h. ground (arith, h.0, h.1))

  wanted-just_read :
      (k : Text) (n : ℕ)
      → Yields
          (λ _. Unit {0})
          (still_wanted p account k n)
          (λ o l. o ≡ none → just_read account l ≡ true)
  unfolding still_wanted
  wanted-just_read k n = Yields-bind (Yields-keep (Keeps-any _)) λ current.
      Yields-bind
        (Yields-note {Q = λ l. just_read account l ≡ is_same_account current account}
          (active_account current) (λ l h. refl))
        λ _.
          Yields-bind (Yields-keep (Keeps-gets _))
            λ core. Yields-pure _ (λ l h wanted. ground (arith, h, wanted))

  Keeps-yield : {P : List Event → Type 0} (b : Bool) → Keeps P (yield_to_host p b)
  unfolding yield_to_host
  Keeps-yield true = Keeps-call _
  Keeps-yield false = Keeps-pure tt

  stop_before-just_read :
      (first : Bool) (k : Text) (n : ℕ)
      → Yields
          (λ l. Reread l × (first ≡ true → just_read account l ≡ true))
          (stop_before p first account k n)
          (λ o l. Reread l × (o ≡ none → just_read account l ≡ true))
  unfolding stop_before
  stop_before-just_read true k n = Yields-pure none (λ l h. (h.0, λ _. h.1 refl))
  stop_before-just_read false k n =
      Yields-pre (λ l h. h.0)
        (Yields-bind
          (Yields-and (Keeps-still_wanted p Reread-Stable account k n) (wanted-just_read k n))
          λ o. Yields-then (Keeps-yield _) λ _. Yields-pure o (λ l h. h))

  with_key-Reread :
      (prepared : PreparedParams) (key : Text)
      → Leads Ready (with_key p account prepared key) Reread
  unfolding with_key note
  with_key-Reread prepared key =
      Leads-bind (Leads-keep (λ l h. h.1) (Keeps-call _)) (Yields-keep (Keeps-call _)) λ _.
        Leads-bind (Leads-keep (λ l h. h.1) (Keeps-throw_if _ _)) (Yields-keep (Keeps-throw_if _ _))
          λ _.
            Leads-bind (record { at = λ w h. h })
              (Yields-note (key_used account prepared) (λ l h. h))
              λ _.
                Leads-keep (λ l h. h)
                  (Keeps-catch _ _ (Keeps-perform p Reread-Stable account prepared key)
                    (λ f. Keeps-as_callback p Reread-Stable f))

  sign_locally-Reread :
      (prepared : PreparedParams) → Leads Ready (sign_locally p account prepared) Reread
  unfolding sign_locally use_key
  sign_locally-Reread prepared =
      Leads-catch
        (Leads-bind (Leads-keep (λ l h. h.1) (Keeps-call _)) (Yields-keep (Keeps-call _)) (λ key.
          Leads-bind (with_key-Reread prepared key) (Yields-of_leads (with_key-Reread prepared key))
            λ reply. Leads-keep (λ l h. h) (Keeps-bind _ _ (Keeps-call _) λ _. Keeps-pure reply)))
        (λ f. Keeps-as_vault p Reread-Stable f)

  signed_item-Reread :
      (item : BatchItem) (prepared : PreparedParams)
      → Leads Ready (signed_item p account item prepared) Reread
  unfolding signed_item
  signed_item-Reread item prepared =
      Leads-bind (sign_locally-Reread prepared) (Yields-of_leads (sign_locally-Reread prepared))
        (λ reply. Leads-keep (λ l h. h) (Keeps-pure _))

  sign_item-Reread :
      (item : BatchItem) (prepared : PreparedParams)
      → Leads Ready (sign_item p account item prepared) Reread
  unfolding sign_item
  sign_item-Reread item prepared =
      Leads-catch (signed_item-Reread item prepared)
        (λ f. Keeps-failed_item p Reread-Stable item prepared f)

  sign_unless-Reread :
      (stopped : Option Code) (item : BatchItem) (prepared : PreparedParams)
      (refusals : List ItemRun) (rest : M E (List ItemRun))
      → Keeps Reread rest
      → Leads
          (λ l. Reread l × (stopped ≡ none → just_read account l ≡ true))
          (sign_unless p stopped account item prepared refusals rest)
          Reread
  unfolding sign_unless
  sign_unless-Reread (some code) item prepared refusals rest k =
      Leads-keep (λ l h. h.0) (Keeps-pure _)
  sign_unless-Reread none item prepared refusals rest k =
      Leads-pre (λ l h. (h.1 refl, h.0))
        (Leads-bind (sign_item-Reread item prepared)
          (Yields-of_leads (sign_item-Reread item prepared))
          λ run. Leads-keep (λ l h. h) (Keeps-bind _ _ k λ runs. Keeps-pure _))

  sign_items-Reread :
      (first : Bool) (k : Text) (n : ℕ) (items : List BatchItem) (prepared : List PreparedParams)
      → Leads
          (λ l. Reread l × (first ≡ true → just_read account l ≡ true))
          (sign_items p first account k n items prepared)
          Reread
  unfolding sign_items
  sign_items-Reread first k n [] prepared = Leads-keep (λ l h. h.0) (Keeps-pure [])
  sign_items-Reread first k n (item ∷ items) [] = Leads-keep (λ l h. h.0) (Keeps-pure [])
  sign_items-Reread first k n (item ∷ items) (x ∷ prepared) =
      let rest =
        Leads-pre (λ l h. (h, λ e. absurd (cc))) (sign_items-Reread false k n items prepared) in
      Leads-bind (Leads-keep (λ l h. h.0) (Keeps-stop_before p Reread-Stable first account k n))
        (stop_before-just_read first k n)
        λ stopped.
          sign_unless-Reread stopped item x (refusals_of p stopped items prepared) _
            (record { at = rest.at })

module _ {E : Type 0} (p : Ports E) (batch : BatchRequest) where
  clear_batch-just_read :
      Yields (λ _. Unit {0}) (clear_batch p batch) (λ c l. just_read c.0 l ≡ true)
  unfolding clear_batch
  clear_batch-just_read = Yields-then (Keeps-any _) λ account. Yields-then (Keeps-any _) λ asked.
      Yields-then (Keeps-any _) λ _. Yields-then (Keeps-any _) λ _. Yields-then (Keeps-any _) λ _.
        Yields-then (Keeps-any _) λ prepared. Yields-then (Keeps-any _) λ _.
          Yields-then (Keeps-any _)
            λ _. Yields-bind (assert-just_read p account) λ _. Yields-pure _ (λ l h. h)

  run_batch-Reread : Leads Reread (run_batch p batch) Reread
  unfolding run_batch
  run_batch-Reread =
      Leads-bind (Leads-keep (λ l h. h) (Keeps-clear_batch p Reread-Stable batch))
        (Yields-and (Keeps-clear_batch p Reread-Stable batch) (clear_batch-just_read))
        λ cleared.
          Leads-bind (Leads-keep (λ l h. h.0) (Keeps-update_context _))
            (Yields-keep (Keeps-update_context _))
            λ _.
              Leads-bind (Leads-keep (λ l h. h.0) (Keeps-gets _)) (Yields-keep (Keeps-gets _)) λ n.
                Leads-pre (λ l h. (h.0, λ _. h.1))
                  (sign_items-Reread p cleared.0 true _ n batch.items cleared.1)

  handle-Reread : Keeps Reread (handle_validated_batch p batch)
  unfolding handle_validated_batch run_recorded_batch
  handle-Reread = Keeps-bind _ _ (Keeps-update_context _) λ _.
      Keeps-catch _ _
        (Keeps-bind _ _ (record { at = run_batch-Reread.at })
          λ runs.
            Keeps-bind _ _ (Keeps-record_runs p Reread-Stable batch runs) λ _. Keeps-pure runs)
        (λ f. Keeps-refuse_whole p Reread-Stable batch f)

  -- From an empty log on, whatever the ports answer and change and whether the batch returns or throws,
  -- each use of a key comes after an answer of the active account that is the account of the use, and no
  -- prompt, unlock or other use of a key lies between the two.
  pub handle_validated_batch-Reread :
      (w : World E) → w.log ≡ [] → Reread (handle_validated_batch p batch w).1.log
  handle_validated_batch-Reread w fresh = handle-Reread.at w (rw fresh tt)
