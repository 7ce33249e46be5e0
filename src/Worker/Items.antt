-- ===== src/Worker/Items.antt =====
-- What a batch of the outbox completes (internal/worker/worker.go).
use webhookery.Common.{
  ℕ, String, Bool, true, false, if◌then◌else◌, List, [], ◌∷◌, ◌++◌, map, some, Result, ok, err, ◌≡◌,
  ap, ◌∙◌, sym,
}
use mathlib.Core.List.{append_assoc, append-nil}
use webhookery.Common.Effects.{chain}
use webhookery.Worker.{
  RunError, deferred, context_canceled, deadline_exceeded, other, OutboxItem, Outbox,
}
use webhookery.Worker.Run.{finish_item, process_item, process_items, run_outbox}

-- The outbox as the list of the identifiers that were completed, for a processor whose answer for
-- each item is given.
abbrev pub answering :
    List OutboxItem → (OutboxItem → Result RunError (Unit {0})) → Outbox (List String)
answering claimed answer = record {
  claim_outbox = λ limit log. (ok claimed, log);
  process_outbox = some (λ item log. (answer item, log));
  complete_outbox = λ id log. (ok tt, log ++ id ∷ []);
}

-- What the processor answered for the items, in their order.
abbrev pub answered :
    (OutboxItem → Result RunError (Unit {0}))
    → List OutboxItem
    → List (OutboxItem × Result RunError (Unit {0}))
answered answer items = map (λ item. (item, answer item)) items

-- An error that ends the batch; a deferred item does not.
abbrev pub stops_batch : Result RunError (Unit {0}) → Bool
stops_batch (ok value) = false
stops_batch (err deferred) = false
stops_batch (err _) = true

-- The answers in front of the first one that ends the batch.
unfoldable pub reached :
    List (OutboxItem × Result RunError (Unit {0})) → List (OutboxItem × Result RunError (Unit {0}))
reached [] = []
reached ((item, a) ∷ rest) = if stops_batch a then [] else (item, a) ∷ reached rest

-- The error that ends the batch, if there is one.
unfoldable pub batch_error :
    List (OutboxItem × Result RunError (Unit {0})) → Result RunError (Unit {0})
batch_error [] = ok tt
batch_error ((item, a) ∷ rest) = if stops_batch a then a else batch_error rest

-- The identifiers of the items whose processing succeeded.
unfoldable pub done_ids : List (OutboxItem × Result RunError (Unit {0})) → List String
done_ids [] = []
done_ids ((item, ok value) ∷ rest) = item.id ∷ done_ids rest
done_ids ((item, err error) ∷ rest) = done_ids rest

module _ (answer : OutboxItem → Result RunError (Unit {0})) (claimed : List OutboxItem) where
  abbrev pub store : Outbox (List String)
  store = answering claimed answer

  Ends : List OutboxItem → List String → Result RunError (Unit {0}) × List String → Type 0
  Ends items log outcome =
      outcome
      ≡ (batch_error (answered answer items), log ++ done_ids (reached (answered answer items)))

  item_lem :
      (item : OutboxItem) (items : List OutboxItem) (log : List String)
      (a : Result RunError (Unit {0}))
      → ((l : List String) → Ends items l (process_items store items l))
      → chain (finish_item store item (a, log)) (λ ignored. process_items store items) ≡ (
        batch_error ((item, a) ∷ answered answer items),
        log ++ done_ids (reached ((item, a) ∷ answered answer items)),
      )
  unfolding Ends chain finish_item batch_error reached done_ids
  item_lem item items log (ok value) ih =
      ih (log ++ item.id ∷ [])
      ∙ ap (λ l. (batch_error (answered answer items), l)) (append_assoc log (item.id ∷ []) _)
  item_lem item items log (err deferred) ih = ih log
  item_lem item items log (err context_canceled) ih =
      ap (λ l. (err context_canceled, l)) (sym (append-nil log))
  item_lem item items log (err deadline_exceeded) ih =
      ap (λ l. (err deadline_exceeded, l)) (sym (append-nil log))
  item_lem item items log (err (other text)) ih =
      ap (λ l. (err (other text), l)) (sym (append-nil log))

  batch_lem :
      (items : List OutboxItem) (log : List String) → Ends items log (process_items store items log)
  unfolding Ends process_items process_item
  batch_lem [] log =
      unfold batch_error reached done_ids in ap (λ l. (ok tt, l)) (sym (append-nil log))
  batch_lem (item ∷ items) log = item_lem item items log (answer item) (batch_lem items)

  -- A batch of the outbox completes exactly the items that the processor ended without an error,
  -- among those in front of the first one with an error that is not a deferral, once each and in the
  -- order of the claim. It ends with that error, or well when there is none.
  pub run_outbox_completed :
      (limit : ℕ) (log : List String)
      → run_outbox store limit log ≡ (
        batch_error (answered answer claimed),
        log ++ done_ids (reached (answered answer claimed)),
      )
  unfolding run_outbox chain Ends
  run_outbox_completed limit log = batch_lem claimed log
