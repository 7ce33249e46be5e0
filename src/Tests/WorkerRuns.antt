-- ===== src/Tests/WorkerRuns.antt =====
-- Runs of internal/worker/worker.go.
use webhookery.Common.{
  ℕ, String, List, [], ◌∷◌, ◌++◌, Option, none, some, Result, ok, err, ◌≡◌, refl, if◌then◌else◌,
  ◌==◌, string_eq, nat_eq,
}
use webhookery.Common.Effects.{chain}
use webhookery.Common.Int.{pos}
use webhookery.Deliveries.{DeliveryItem, DeliveryResult}
use webhookery.Worker.{
  RunError, deferred, context_canceled, other, OutboxItem, Phase, Sender, Worker,
}
use webhookery.Worker.Run.{
  stop_after_phase, finish_item, process_item, process_items, run_outbox, run_phases, plan_of,
  run_once_report, if_given, report_errors, run_sender,
}
use webhookery.Worker.Phases.{IsReport, run_once_report-IsReport}
use webhookery.Worker.Sends.{Call, recorder, run_sender_records}
use webhookery.Worker.Items.{answering, reached, batch_error, done_ids, run_outbox_completed}

abbrev outbox_item : String → OutboxItem
outbox_item id = record {
  id = id;
  tenant_id = "ten_1";
  kind = "route_event";
  resource_id = "evt_1";
}

abbrev batch : List OutboxItem
batch =
    outbox_item "a"
    ∷ outbox_item "later"
    ∷ outbox_item "b"
    ∷ outbox_item "broken"
    ∷ outbox_item "c"
    ∷ []

abbrev answer : OutboxItem → Result RunError (Unit {0})
answer item =
    if item.id == "later"
    then err deferred
    else if item.id == "broken"
    then err (other "store")
    else ok tt

run_outbox_completed_example :
    run_outbox (answering batch answer) 10 [] ≡ (err (other "store"), "a" ∷ "b" ∷ [])
unfolding batch_error done_ids reached
run_outbox_completed_example = run_outbox_completed answer batch 10 []

abbrev sender : Sender (List String) DeliveryItem DeliveryResult
sender = record {
  claim = λ limit log. (err context_canceled, log);
  deliver = λ item log.
      ((record { status_code = 200; response_body = []; failure_class = "" }, none), log);
  record_attempt = λ item result error log. (ok tt, log ++ item.id ∷ []);
}

abbrev worker : Worker (List String) DeliveryItem DeliveryResult
worker = record {
  outbox_store = answering batch answer;
  deliveries = some sender;
  notifications = none;
  enqueue_siem = λ limit log. (ok tt, log);
  siem_deliveries = none;
  apply_retention_policies = some (λ limit log. (ok tt, log));
  refresh_metrics_rollups = none;
  evaluate_alert_rules = none;
  backfill_audit_chain = none;
  limit = pos 0;
}

run_once_report-IsReport_example :
    IsReport (Phase.outbox ∷ Phase.delivery ∷ Phase.retention ∷ []) (run_once_report worker []).0
run_once_report-IsReport_example = run_once_report-IsReport worker []

-- The canceled delivery phase is the last one.
stopped_run :
    report_errors (run_once_report worker []).0
    ≡ (Phase.outbox, other "store") ∷ (Phase.delivery, context_canceled) ∷ []
unfolding run_once_report run_phases plan_of if_given run_outbox process_items process_item
    finish_item chain run_sender stop_after_phase report_errors
stopped_run = refl

abbrev send : ℕ → String × Option RunError
send n = if n == 7 then ("", some (other "refused")) else ("ok", none)

run_sender_records_example : run_sender (recorder send (3 ∷ 7 ∷ [])) 10 [] ≡ (
  ok tt,
  Call.claimed_up_to 10
      ∷ Call.sent 3
      ∷ Call.noted 3 "ok" none
      ∷ Call.sent 7
      ∷ Call.noted 7 "" (some (other "refused"))
      ∷ [],
)
run_sender_records_example = run_sender_records send (3 ∷ 7 ∷ []) 10 []
