-- ===== src/Worker/Phases.antt =====
-- Which phases a run reports (internal/worker/worker.go).
use mathlib.Core.List.{map-append}
use webhookery.Common.{
  true, false, List, [], ◌∷◌, ◌++◌, map, Option, none, some, ◌≡◌, refl, ap, ◌⊎◌, inl, inr, ◌∙◌,
  subst, Bool-cases,
}
use webhookery.Common.Effects.{Effect, ◌>>◌}
use webhookery.Worker.{RunError, context_canceled, deadline_exceeded, Phase, PhaseResult, Worker}
use webhookery.Worker.Run.{
  stop_after_phase, error_of, Plan, batch_size, run_sender, run_phases, if_given, plan_of,
  run_once_report,
}

-- A phase whose context was canceled or expired.
abbrev pub Stopped : Option RunError → Type 0
Stopped error = (error ≡ some context_canceled) ⊎ (error ≡ some deadline_exceeded)

abbrev pub given : {Store : Type 0} → Phase → Option Store → List Phase
given phase none = []
given phase (some store) = phase ∷ []

-- The phases of a worker, by the stores it has.
abbrev pub expected_phases :
    {State Signal SignalAnswer : Type 0} → Worker State Signal SignalAnswer → List Phase
expected_phases w =
    Phase.outbox ∷ given Phase.delivery w.deliveries
    ++ given Phase.retention w.apply_retention_policies
    ++ given Phase.metrics w.refresh_metrics_rollups
    ++ given Phase.alerts w.evaluate_alert_rules
    ++ given Phase.audit_chain_backfill w.backfill_audit_chain
    ++ given Phase.notification w.notifications
    ++ given Phase.siem w.siem_deliveries

-- The results are of the phases, one each in their order, up to and with the first one that was
-- canceled or expired, or to the end.
abbrev pub IsReport : List Phase → List PhaseResult → Type 0
IsReport [] results = results ≡ []
IsReport (phase ∷ phases) [] = ⊥
IsReport (phase ∷ phases) (r ∷ results) =
    (r.phase ≡ phase)
    × (Stopped r.error × (results ≡ []) ⊎ (¬ Stopped r.error) × IsReport phases results)

stop→Stopped : (error : Option RunError) → stop_after_phase error ≡ true → Stopped error
unfolding stop_after_phase
stop→Stopped (some RunError.context_canceled) h = inl refl
stop→Stopped (some RunError.deadline_exceeded) h = inr refl
stop→Stopped (some RunError.deferred) h = cc
stop→Stopped (some (RunError.other text)) h = cc
stop→Stopped none h = cc

go→not-Stopped : (error : Option RunError) → stop_after_phase error ≡ false → ¬ Stopped error
unfolding stop_after_phase
go→not-Stopped error goes (inl same) = let goes_on = rw same at goes in cc
go→not-Stopped error goes (inr same) = let goes_on = rw same at goes in cc

abbrev phases_of : {State : Type 0} → Plan State → List Phase
phases_of plan = map (λ p. p.0) plan

run_phases-IsReport :
    {State : Type 0} (plan : Plan State) (s : State)
    → IsReport (phases_of plan) (run_phases plan s).0
unfolding run_phases
run_phases-IsReport [] s = refl
run_phases-IsReport ((phase, work) ∷ plan) s =
    elim (Bool-cases (stop_after_phase (error_of (work s).0))) [
      | inl stops ↦ rw stops (refl, inl (stop→Stopped _ stops, refl))
      | inr goes ↦ rw goes (refl, inr (go→not-Stopped _ goes, run_phases-IsReport plan (work s).1))
    ]

last-phases :
    {State Store : Type 0} (phase : Phase) (store : Option Store)
    (work : Store → Effect State RunError (Unit {0}))
    → phases_of (if_given phase store work) ≡ given phase store
unfolding if_given
last-phases phase none work = refl
last-phases phase (some store) work = refl

append-phases :
    {State Store : Type 0} (before : Plan State) {phases : List Phase} (phase : Phase)
    (store : Option Store) (work : Store → Effect State RunError (Unit {0}))
    → phases_of before ≡ phases
    → phases_of (before ++ if_given phase store work) ≡ phases ++ given phase store
append-phases before phase store work h =
    map-append (λ p. p.0) before (if_given phase store work)
    ∙ rw (h, last-phases phase store work) refl

plan_of-phases :
    {State Signal SignalAnswer : Type 0} (w : Worker State Signal SignalAnswer)
    → phases_of (plan_of w) ≡ expected_phases w
unfolding plan_of
plan_of-phases {State} w =
    let limit = batch_size w.limit in
    let delivery_on =
      last-phases {State = State} Phase.delivery w.deliveries (λ sender. run_sender sender limit) in
    let retention_on =
      append-phases _ Phase.retention w.apply_retention_policies (λ apply. apply limit)
        delivery_on in
    let metrics_on =
      append-phases _ Phase.metrics w.refresh_metrics_rollups (λ refresh. refresh limit)
        retention_on in
    let alerts_on =
      append-phases _ Phase.alerts w.evaluate_alert_rules (λ evaluate. evaluate limit) metrics_on in
    let chained_on =
      append-phases _ Phase.audit_chain_backfill w.backfill_audit_chain (λ backfill. backfill limit)
        alerts_on in
    let notification_on =
      append-phases _ Phase.notification w.notifications (λ sender. run_sender sender limit)
        chained_on in
    let siem_on =
      append-phases _ Phase.siem w.siem_deliveries
        (λ sender. w.enqueue_siem limit >> run_sender sender limit) notification_on in
    ap (λ phases. Phase.outbox ∷ phases) siem_on

-- A run reports the outbox phase, then the phases whose stores the worker has, in the order delivery,
-- retention, metrics, alerts, audit chain backfill, notification, SIEM; each once. It ends after the
-- first phase whose error is a canceled or expired context, and leaves out no phase otherwise.
pub run_once_report-IsReport :
    {State Signal SignalAnswer : Type 0} (w : Worker State Signal SignalAnswer) (s : State)
    → IsReport (expected_phases w) (run_once_report w s).0
unfolding run_once_report
run_once_report-IsReport w s =
    subst (λ phases. IsReport phases (run_phases (plan_of w) s).0) (plan_of-phases w)
      (run_phases-IsReport (plan_of w) s)
