-- ===== src/Worker/Run.antt =====
-- `RunOnceReport` and the phases that it runs (internal/worker/worker.go).
use webhookery.Common.{
  ℕ, suc, Bool, true, false, List, [], ◌∷◌, ◌++◌, Option, none, some, Result, ok, err,
  if◌then◌else◌,
}
use webhookery.Common.Effects.{Effect, ◌>>=◌, ◌>>◌, done}
use webhookery.Common.Int.{ℤ, pos}
use webhookery.Worker.{
  RunError, deferred, context_canceled, deadline_exceeded, OutboxItem, Phase, PhaseResult, Outbox,
  Sender, Worker,
}

-- `stopAfterPhase`
unfoldable pub stop_after_phase : Option RunError → Bool
stop_after_phase (some context_canceled) = true
stop_after_phase (some deadline_exceeded) = true
stop_after_phase _ = false

abbrev pub error_of : Result RunError (Unit {0}) → Option RunError
error_of (ok value) = none
error_of (err error) = some error

-- A phase and what it does.
abbrev pub Plan : Type 0 → Type 0
Plan State = List (Phase × Effect State RunError (Unit {0}))

abbrev pub batch_size : ℤ → ℕ
batch_size (pos (suc n)) = suc n
batch_size _ = 10

-- The errors that `RunReport.Err` joins, with their phases.
unfoldable pub report_errors : List PhaseResult → List (Phase × RunError)
report_errors [] = []
report_errors (r ∷ results) = elim r.error [
  | none ↦ report_errors results
  | some error ↦ (r.phase, error) ∷ report_errors results
]

module _ {State : Type 0} where
  -- What happens to an item of the outbox once it is processed.
  unfoldable pub finish_item :
      Outbox State
      → OutboxItem
      → Result RunError (Unit {0}) × State
      → Result RunError (Unit {0}) × State
  finish_item store item (err deferred, s) = (ok tt, s)
  finish_item store item (err error, s) = (err error, s)
  finish_item store item (ok value, s) = store.complete_outbox item.id s

  unfoldable pub process_item : Outbox State → OutboxItem → Effect State RunError (Unit {0})
  process_item store item s = elim store.process_outbox [
    | none ↦ store.complete_outbox item.id s
    | some process ↦ finish_item store item (process item s)
  ]

  unfoldable pub process_items : Outbox State → List OutboxItem → Effect State RunError (Unit {0})
  process_items store [] = done tt
  process_items store (item ∷ items) = process_item store item >> process_items store items

  unfoldable pub run_outbox : Outbox State → ℕ → Effect State RunError (Unit {0})
  run_outbox store limit = store.claim_outbox limit >>= process_items store

  module _ {Item Answer : Type 0} where
    unfoldable pub attempt : Sender State Item Answer → Item → Effect State RunError (Unit {0})
    attempt sender item s =
        let answered = sender.deliver item s in
        sender.record_attempt item answered.0.0 answered.0.1 answered.1

    unfoldable pub attempt_all :
        Sender State Item Answer → List Item → Effect State RunError (Unit {0})
    attempt_all sender [] = done tt
    attempt_all sender (item ∷ items) = attempt sender item >> attempt_all sender items

    -- `runDeliveries` and `runNotificationDeliveries`
    unfoldable pub run_sender : Sender State Item Answer → ℕ → Effect State RunError (Unit {0})
    run_sender sender limit = sender.claim limit >>= attempt_all sender

  -- The report of the phases, which ends at the first one that a canceled context stops.
  unfoldable pub run_phases : Plan State → State → List PhaseResult × State
  run_phases [] s = ([], s)
  run_phases ((phase, work) ∷ plan) s =
      let ran = work s in
      let result : PhaseResult = record { phase = phase; error = error_of ran.0 } in
      let rest = run_phases plan ran.1 in
      if stop_after_phase (error_of ran.0) then (result ∷ [], ran.1) else (result ∷ rest.0, rest.1)

  unfoldable pub if_given :
      {Store : Type 0}
      → Phase
      → Option Store
      → (Store → Effect State RunError (Unit {0}))
      → Plan State
  if_given phase none work = []
  if_given phase (some store) work = (phase, work store) ∷ []

  -- The phases in the order of `RunOnceReport`.
  unfoldable pub plan_of :
      {Signal SignalAnswer : Type 0} → Worker State Signal SignalAnswer → Plan State
  plan_of w =
      let limit = batch_size w.limit in
      (Phase.outbox, run_outbox w.outbox_store limit)
        ∷ if_given Phase.delivery w.deliveries (λ sender. run_sender sender limit)
      ++ if_given Phase.retention w.apply_retention_policies (λ apply. apply limit)
      ++ if_given Phase.metrics w.refresh_metrics_rollups (λ refresh. refresh limit)
      ++ if_given Phase.alerts w.evaluate_alert_rules (λ evaluate. evaluate limit)
      ++ if_given Phase.audit_chain_backfill w.backfill_audit_chain (λ backfill. backfill limit)
      ++ if_given Phase.notification w.notifications (λ sender. run_sender sender limit)
      ++ if_given Phase.siem w.siem_deliveries
          (λ sender. w.enqueue_siem limit >> run_sender sender limit)

  unfoldable pub run_once_report :
      {Signal SignalAnswer : Type 0}
      → Worker State Signal SignalAnswer
      → State
      → List PhaseResult × State
  run_once_report w = run_phases (plan_of w)
