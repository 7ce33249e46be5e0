-- ===== src/Replay/Reach.antt =====
-- Replay jobs over all histories of requests, approvals, state changes and worker runs
-- (internal/adapters/postgres/store.go).
use webhookery.Common.{
  ℕ, String, true, false, not, ◌&&◌, [], string_eq, some, ◌≡◌, ◌∙◌, sym, subst, inl, inr, refl,
  arith, eq_iff, Bool-cases, some-eq, ok, ok-eq, err-ok,
}
use webhookery.Replay.{ReplayRequest, ReplayJob, ReplayTables, is_future}
use webhookery.Replay.Jobs.{
  is_job, find_job, insert_job, job_row, insert_replay, settled, StateChange, make_change,
  start_replay_job, complete_replay_job,
}
use webhookery.Replay.Governed.{Cleared, Ran, has_item, Governed, IsGoverned}
use webhookery.Replay.Approved.{
  has_item-other, make_change-IsGoverned, start_replay_job-IsGoverned,
  complete_replay_job-IsGoverned,
}

-- A history of the store. New jobs have fresh ids. The worker starts and completes a job on an outbox
-- item for it. The other tables may change in any way.
pub data Reached : ReplayTables → Type 0 where
  empty : (t : ReplayTables) → t.jobs ≡ [] → Reached t
  inserted :
      (id : String) (now : ℕ) (tenant_id actor_id : String) (req : ReplayRequest)
      {t after : ReplayTables}
      → Reached t
      → has_item tenant_id id t.outbox ≡ false
      → insert_replay id now tenant_id actor_id req t ≡ ok after
      → Reached after
  changed :
      (change : StateChange) (tenant_id id actor_id : String) (now : ℕ) {t after : ReplayTables}
      → Reached t
      → make_change change tenant_id id actor_id now t ≡ ok after
      → Reached after
  started :
      (tenant_id id : String) {t : ReplayTables}
      → Reached t
      → has_item tenant_id id t.outbox ≡ true
      → Reached (start_replay_job tenant_id id t).1
  completed :
      (tenant_id id : String) (processed_items : ℕ) {t : ReplayTables}
      → Reached t
      → has_item tenant_id id t.outbox ≡ true
      → Reached (complete_replay_job tenant_id id processed_items t)
  reconfigured :
      (after : ReplayTables) {t : ReplayTables}
      → Reached t
      → after.jobs ≡ t.jobs
      → after.outbox ≡ t.outbox
      → Reached after

-- A new job that needs approval waits for it, and has no item.
waiting-Governed :
    (j : ReplayJob) (t : ReplayTables)
    → ((j.approval_required ≡ true) → j.state ≡ "pending_approval")
    → has_item j.tenant_id j.id t.outbox ≡ false
    → Governed (has_item j.tenant_id j.id (insert_job j t).outbox) j
unfolding insert_job
waiting-Governed j t waits fresh = elim (Bool-cases j.approval_required) [
  | inr free ↦ (λ queued. inl free, λ ran. inl free)
  | inl needed ↦ (
    λ queued. let never = rw needed at queued in absurd (cc (never, fresh)),
    λ ran. elim ran [
      | inl running ↦
          let clash = (eq_iff "pending_approval" "running").1 (sym (waits needed) ∙ running) in
          cc clash
      | inr done ↦
          let clash = (eq_iff "pending_approval" "completed").1 (sym (waits needed) ∙ done) in
          cc clash
    ],
  )
]

has_item-insert_job :
    (j : ReplayJob) (t : ReplayTables) (other key : String)
    → is_job other key j ≡ false
    → has_item other key (insert_job j t).outbox ≡ has_item other key t.outbox
unfolding insert_job is_job
has_item-insert_job j t other key differs = elim (Bool-cases j.approval_required) [
  | inl needed ↦ rw needed refl
  | inr free ↦ rw free (
      has_item-other j.tenant_id j.id other key t.outbox (
        ground (
          arith,
          eq_iff other j.tenant_id,
          eq_iff key j.id,
          eq_iff j.tenant_id other,
          eq_iff j.id key,
        )))
]

is_job-key :
    (tenant_id id : String) (j : ReplayJob)
    → is_job tenant_id id j ≡ true
    → (j.tenant_id ≡ tenant_id) × (j.id ≡ id)
unfolding is_job
is_job-key tenant_id id j h =
    ((eq_iff j.tenant_id tenant_id).0 (ground arith), (eq_iff j.id id).0 (ground arith))

insert_job-IsGoverned :
    (j : ReplayJob) (t : ReplayTables)
    → ((j.approval_required ≡ true) → j.state ≡ "pending_approval")
    → has_item j.tenant_id j.id t.outbox ≡ false
    → IsGoverned t
    → IsGoverned (insert_job j t)
unfolding insert_job find_job
insert_job-IsGoverned j t waits fresh governed = λ other key k under.
    elim (Bool-cases (is_job other key j)) [
      | inr differs ↦
          let before = governed other key k (rw differs at under) in
          subst (λ queued. Governed queued k) (sym (has_item-insert_job j t other key differs))
            before
      | inl same ↦
          let outbox = (insert_job j t).outbox in
          let (tenant, name) = is_job-key other key j same in
          subst (Governed (has_item other key outbox)) (some-eq (rw same at under)) (
            subst (λ s. Governed (has_item s key outbox) j) tenant
              (subst (λ s. Governed (has_item j.tenant_id s outbox) j) name
                (waiting-Governed j t waits fresh)))
    ]

insert_replay-IsGoverned :
    (id : String) (now : ℕ) (tenant_id actor_id : String) (req : ReplayRequest) (t : ReplayTables)
    {after : ReplayTables}
    → has_item tenant_id id t.outbox ≡ false
    → insert_replay id now tenant_id actor_id req t ≡ ok after
    → IsGoverned t
    → IsGoverned after
unfolding insert_replay job_row
insert_replay-IsGoverned id now tenant_id actor_id req t {after} fresh h governed =
    let stored = settled now tenant_id req t in
    elim (Bool-cases (stored.require_approval && not (is_future now stored.approval_expires_at))) [
      | inl late ↦ absurd (err-ok (rw late at h))
      | inr timely ↦ subst IsGoverned (ok-eq (rw timely at h)) (
          insert_job-IsGoverned (job_row id tenant_id actor_id stored) t (λ needed. rw needed refl)
            fresh governed)
    ]

Reached-IsGoverned : {t : ReplayTables} → Reached t → IsGoverned t
unfolding find_job
Reached-IsGoverned (Reached.empty t none_yet) =
    λ tenant_id id j under. absurd (let never = rw none_yet at under in cc never)
Reached-IsGoverned (Reached.inserted id now tenant_id actor_id req {t} before fresh h) =
    insert_replay-IsGoverned id now tenant_id actor_id req t fresh h (Reached-IsGoverned before)
Reached-IsGoverned (Reached.changed change tenant_id id actor_id now {t} before h) =
    make_change-IsGoverned change tenant_id id actor_id now t h (Reached-IsGoverned before)
Reached-IsGoverned (Reached.started tenant_id id {t} before queued) =
    start_replay_job-IsGoverned tenant_id id t queued (Reached-IsGoverned before)
Reached-IsGoverned (Reached.completed tenant_id id processed_items {t} before queued) =
    complete_replay_job-IsGoverned tenant_id id processed_items t queued (Reached-IsGoverned before)
Reached-IsGoverned (Reached.reconfigured after {t} before jobs outbox) = λ tenant_id id j under.
    let old = Reached-IsGoverned before tenant_id id j (rw jobs at under) in rw outbox old

-- After any history of replay requests, approvals, pauses, resumptions, cancellations and worker
-- runs, a job that is running or completed either needed no approval, by its request or by a policy,
-- or was approved by somebody other than its creator, before its approval window ended. The history
-- gives new jobs fresh ids, and the worker starts and completes jobs on their outbox items only.
pub Reached-Cleared :
    {t : ReplayTables} (tenant_id id : String) (j : ReplayJob)
    → Reached t
    → find_job tenant_id id t.jobs ≡ some j
    → Ran j
    → Cleared j
Reached-Cleared tenant_id id j reached under ran =
    (Reached-IsGoverned reached tenant_id id j under).1 ran
