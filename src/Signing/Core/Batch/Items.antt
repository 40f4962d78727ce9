-- ===== src/Signing/Core/Batch/Items.antt =====
-- The outcomes of a batch in core.ts, item by item.
use nostr_wot_sdk.Prelude.{
  ◌≡◌, refl, ap, ◌∙◌, Bool, true, false, ℕ, ◌+◌, Option, none, some, List, [], ◌∷◌, ◌++◌, Text,
  arith, length, length-append,
}
use nostr_wot_sdk.Signing.Queue.{Code}
use nostr_wot_sdk.Signing.Requests.{SafeAccount, PreparedParams}
use nostr_wot_sdk.Signing.Core.World.{World, M, ok}
use nostr_wot_sdk.Signing.Core.Ports.{Ports}
use nostr_wot_sdk.Signing.Core.Batch.{
  BatchRequest, BatchItem, ItemRun, prepare_items, clear_batch, signed_item, failed_item, sign_item,
  refuse_items, sign_unless, refusals_of, sign_items, run_batch, run_recorded_batch, refuse_whole,
  handle_validated_batch,
}
use nostr_wot_sdk.Signing.Core.Quiet.{Keeps}
use nostr_wot_sdk.Signing.Core.Yields.{
  Yields-and, Yields, Yields-bind, Yields-pure, Yields-post, Yields-pre, Yields-then, Yields-throw,
  Yields-catch, Keeps-any, Yields-given,
}

abbrev pub ids_of : List BatchItem → List Text
ids_of [] = []
ids_of (item ∷ items) = item.id ∷ ids_of items

abbrev pub run_ids : List ItemRun → List Text
run_ids [] = []
run_ids (r ∷ runs) = r.id ∷ run_ids runs

fact : {E A X : Type 0} (m : M E A) → Keeps (λ _. X) m
fact m = record { at = λ w h. h }

module _ {E : Type 0} (p : Ports E) where
  refuse_items-ids :
      (code : Code) (items : List BatchItem) (prepared : List PreparedParams)
      → length prepared ≡ length items
      → run_ids (refuse_items p code items prepared) ≡ ids_of items
  unfolding refuse_items
  refuse_items-ids code [] prepared e = refl
  refuse_items-ids code (item ∷ items) [] e = absurd (omega (arith, e))
  refuse_items-ids code (item ∷ items) (x ∷ prepared) e =
      ap (λ (t : List Text). item.id ∷ t) (refuse_items-ids code items prepared (omega (arith, e)))

  prepare_items-length :
      (account : SafeAccount) (prepared : List PreparedParams) (items : List BatchItem)
      → Yields
          (λ _. Unit {0})
          (prepare_items p account prepared items)
          (λ r _. length r ≡ length prepared + length items)
  unfolding prepare_items
  prepare_items-length account prepared [] = Yields-pure prepared (λ l h. omega arith)
  prepare_items-length account prepared (item ∷ items) = Yields-then (Keeps-any _) λ x.
      Yields-then (Keeps-any _) λ _.
        Yields-post (prepare_items-length account (prepared ++ x ∷ []) items)
          (λ r l h. omega (arith, h, length-append prepared (x ∷ [])))

  clear_batch-length :
      (batch : BatchRequest)
      → Yields (λ _. Unit {0}) (clear_batch p batch) (λ c _. length c.1 ≡ length batch.items)
  unfolding clear_batch
  clear_batch-length batch = Yields-then (Keeps-any _) λ account. Yields-then (Keeps-any _) λ asked.
      Yields-then (Keeps-any _) λ _. Yields-then (Keeps-any _) λ _. Yields-then (Keeps-any _) λ _.
        Yields-bind (prepare_items-length account [] batch.items) λ prepared.
          Yields-then (fact _) λ _.
            Yields-then (fact _)
              λ _. Yields-then (fact _) λ _. Yields-pure _ (λ l h. omega (arith, h))

  sign_item-id :
      (account : SafeAccount) (item : BatchItem) (x : PreparedParams)
      → Yields (λ _. Unit {0}) (sign_item p account item x) (λ r _. r.id ≡ item.id)
  unfolding sign_item signed_item failed_item
  sign_item-id account item x =
      Yields-catch (Yields-then (Keeps-any _) λ reply. Yields-pure _ (λ l h. refl))
        (λ f. Yields-then (Keeps-any _) λ locked. Yields-pure _ (λ l h. refl))

  sign_unless-ids :
      (account : SafeAccount) (items : List BatchItem) (prepared : List PreparedParams)
      (stopped : Option Code) (item : BatchItem) (x : PreparedParams) (rest : M E (List ItemRun))
      → length prepared ≡ length items
      → Yields (λ _. Unit {0}) rest (λ runs _. run_ids runs ≡ ids_of items)
      → Yields
          (λ _. Unit {0})
          (sign_unless p stopped account item x (refusals_of p stopped items prepared) rest)
          (λ runs _. run_ids runs ≡ item.id ∷ ids_of items)
  unfolding sign_unless
  sign_unless-ids account items prepared (some code) item x rest e y =
      Yields-pure _
        (λ l h. ap (λ (t : List Text). item.id ∷ t) (refuse_items-ids code items prepared e))
  sign_unless-ids account items prepared none item x rest e y =
      Yields-bind (sign_item-id account item x) λ r. Yields-bind (Yields-and (fact rest) y) λ runs.
        Yields-pure _
          (λ l h. ap (λ (t : Text). t ∷ run_ids runs) h.0 ∙ ap (λ (t : List Text). item.id ∷ t) h.1)

  sign_items-ids :
      (first : Bool) (account : SafeAccount) (k : Text) (n : ℕ) (items : List BatchItem)
      (prepared : List PreparedParams)
      → length prepared ≡ length items
      → Yields
          (λ _. Unit {0})
          (sign_items p first account k n items prepared)
          (λ runs _. run_ids runs ≡ ids_of items)
  unfolding sign_items
  sign_items-ids first account k n [] prepared e = Yields-pure [] (λ l h. refl)
  sign_items-ids first account k n (item ∷ items) [] e = absurd (omega (arith, e))
  sign_items-ids first account k n (item ∷ items) (x ∷ prepared) e =
      Yields-then (Keeps-any _) λ stopped.
        sign_unless-ids account items prepared stopped item x _ (omega (arith, e))
          (sign_items-ids false account k n items prepared (omega (arith, e)))

  run_batch-ids :
      (batch : BatchRequest)
      → Yields (λ _. Unit {0}) (run_batch p batch) (λ runs _. run_ids runs ≡ ids_of batch.items)
  unfolding run_batch
  run_batch-ids batch = Yields-bind (clear_batch-length batch) λ c. Yields-then (fact _) λ _.
      Yields-then (fact _) λ n.
        Yields-pre (λ l h. (tt, h)) (Yields-given (sign_items-ids true c.0 _ n batch.items c.1))

  handle_batch-yields_ids :
      (batch : BatchRequest)
      → Yields
          (λ _. Unit {0})
          (handle_validated_batch p batch)
          (λ runs _. run_ids runs ≡ ids_of batch.items)
  unfolding handle_validated_batch run_recorded_batch refuse_whole
  handle_batch-yields_ids batch = Yields-then (Keeps-any _) λ _.
      Yields-catch
        (Yields-bind (run_batch-ids batch)
          λ runs. Yields-then (fact _) λ _. Yields-pure runs (λ l h. h))
        (λ f.
          Yields-then (Keeps-any _)
            λ _. Yields-then (Keeps-any _) λ _. Yields-then (Keeps-any _) λ _. Yields-throw _)

  -- Where a batch returns, it has one outcome for each of its items, under the item's id and in the order
  -- of the items.
  pub handle_validated_batch-ids :
      (batch : BatchRequest) (w : World E) (runs : List ItemRun)
      → (handle_validated_batch p batch w).0 ≡ ok runs
      → run_ids runs ≡ ids_of batch.items
  handle_validated_batch-ids batch w runs e = (handle_batch-yields_ids batch).at w tt runs e
