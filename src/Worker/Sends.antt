-- ===== src/Worker/Sends.antt =====
-- What a delivery phase sends and records (internal/worker/worker.go).
use mathlib.Core.List.{append_assoc}
use webhookery.Common.{ℕ, List, [], ◌∷◌, ◌++◌, Option, ok, ◌≡◌, sym, ap, ◌∙◌}
use mathlib.Core.List.{append-nil}
use webhookery.Common.Effects.{chain}
use webhookery.Worker.{RunError, Sender}
use webhookery.Worker.Run.{attempt, attempt_all, run_sender}

-- The calls that a phase makes on its store and its client.
pub data Call (Item Answer : Type 0) : Type 0 where
  claimed_up_to : ℕ → Call Item Answer
  sent : Item → Call Item Answer
  noted : Item → Answer → Option RunError → Call Item Answer

module _ {Item Answer : Type 0} (send : Item → Answer × Option RunError) (claimed : List Item) where
  -- The store and the client as the list of the calls, over a client whose answers are given.
  abbrev pub recorder : Sender (List (Call Item Answer)) Item Answer
  recorder = record {
    claim = λ limit log. (ok claimed, log ++ Call.claimed_up_to limit ∷ []);
    deliver = λ item log. (send item, log ++ Call.sent item ∷ []);
    record_attempt = λ item answer error log. (ok tt, log ++ Call.noted item answer error ∷ []);
  }

  abbrev pub sent_and_noted : List Item → List (Call Item Answer)
  sent_and_noted [] = []
  sent_and_noted (item ∷ items) =
      Call.sent item ∷ Call.noted item (send item).0 (send item).1 ∷ sent_and_noted items

  attempts_lem :
      (items : List Item) (log : List (Call Item Answer))
      → attempt_all recorder items log ≡ (ok tt, log ++ sent_and_noted items)
  unfolding attempt_all attempt chain
  attempts_lem [] log = ap (λ l. (ok tt, l)) (sym (append-nil log))
  attempts_lem (item ∷ items) log =
      attempts_lem items _
      ∙ ap (λ l. (ok tt, l))
          (append_assoc (log ++ Call.sent item ∷ []) (Call.noted item _ _ ∷ []) _
            ∙ append_assoc log (Call.sent item ∷ []) _)

  -- When the store takes every record, a delivery phase claims once and then, for each claimed item
  -- in the order of the claim, sends it exactly once and next records it exactly once, with its own
  -- answer and error; failed deliveries do not stop it.
  pub run_sender_records :
      (limit : ℕ) (log : List (Call Item Answer))
      → run_sender recorder limit log
        ≡ (ok tt, log ++ Call.claimed_up_to limit ∷ sent_and_noted claimed)
  unfolding run_sender chain
  run_sender_records limit log =
      attempts_lem claimed _
      ∙ ap (λ l. (ok tt, l)) (append_assoc log (Call.claimed_up_to limit ∷ []) _)
