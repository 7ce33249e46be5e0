-- ===== src/Replay/Approved.antt =====
-- Four eyes on replay jobs (internal/adapters/postgres/store.go).
use webhookery.Common.{
  ℕ, ◌<◌, String, true, false, ◌&&◌, List, ◌∷◌, ◌==◌, string_eq, Option, none, some, ◌≡◌, sym,
  subst, inl, inr, refl, arith, eq_iff, Option-cases, ok, ok-eq, err-ok,
}
use webhookery.Replay.{ReplayJob, ReplayItem, ReplayTables, is_future}
use webhookery.Replay.Jobs.{
  update_job, with_jobs, item_for, awaits, approved, approve_replay_job, StateChange, approve,
  pause, resume, cancel, make_change, is_scheduled, in_state, start_replay_job, is_open,
  completed_with, complete_replay_job,
}
use webhookery.Replay.Governed.{
  Cleared, has_item, IsGoverned, update_job-IsGoverned, with_jobs-IsGoverned,
  update_replay_state-IsGoverned,
}

pub is_future-some :
    (now : ℕ) (o : Option ℕ)
    → is_future now o ≡ true
    → (until : ℕ) × (o ≡ some until) × (now < until)
unfolding is_future
is_future-some now none h = cc
is_future-some now (some until) h = (until, refl, ground arith)

awaits-Cleared :
    (actor_id : String) (now : ℕ) (j : ReplayJob)
    → awaits actor_id now j ≡ true
    → Cleared (approved actor_id now j)
unfolding awaits approved
awaits-Cleared actor_id now j h =
    let (until, ends, before) = is_future-some now j.approval_expires_at (ground arith) in
    inr (
      now,
      until,
      refl,
      ends,
      before,
      λ same. let self = (eq_iff j.created_by actor_id).1 (sym same) in ground arith,
    )

-- An item for one key is an item for no other.
pub has_item-other :
    (tenant_id id other key : String) (outbox : List ReplayItem)
    → (other == tenant_id && key == id) ≡ false
    → has_item other key (item_for tenant_id id ∷ outbox) ≡ has_item other key outbox
unfolding has_item
has_item-other tenant_id id other key outbox differs =
    ground (arith, eq_iff other tenant_id, eq_iff key id, eq_iff tenant_id other, eq_iff id key)

approve_replay_job-IsGoverned :
    (tenant_id id actor_id : String) (now : ℕ) (t : ReplayTables) {after : ReplayTables}
    → approve_replay_job tenant_id id actor_id now t ≡ ok after
    → IsGoverned t
    → IsGoverned after
unfolding approve_replay_job with_jobs approved
approve_replay_job-IsGoverned tenant_id id actor_id now t {after} h governed =
    elim (Option-cases
      (update_job (awaits actor_id now) (approved actor_id now) tenant_id id t.jobs)) [
        | inl nothing ↦ absurd (err-ok (rw (nothing, with_jobs) at h))
        | inr (jobs, updated) ↦ subst IsGoverned (ok-eq (rw (updated, with_jobs) at h)) (
            update_job-IsGoverned (awaits actor_id now) (approved actor_id now) tenant_id id t jobs
              (item_for tenant_id id ∷ t.outbox) (λ j. (refl, refl)) updated
              (λ other key differs. has_item-other tenant_id id other key t.outbox differs)
              (λ j passes before. (
                λ queued. awaits-Cleared actor_id now j passes,
                λ ran. awaits-Cleared actor_id now j passes,
              ))
              governed)
      ]

pub make_change-IsGoverned :
    (change : StateChange) (tenant_id id actor_id : String) (now : ℕ) (t : ReplayTables)
    {after : ReplayTables}
    → make_change change tenant_id id actor_id now t ≡ ok after
    → IsGoverned t
    → IsGoverned after
unfolding make_change
make_change-IsGoverned approve tenant_id id actor_id now t h governed =
    approve_replay_job-IsGoverned tenant_id id actor_id now t h governed
make_change-IsGoverned pause tenant_id id actor_id now t h governed =
    update_replay_state-IsGoverned tenant_id id "paused" t refl refl h governed
make_change-IsGoverned resume tenant_id id actor_id now t h governed =
    update_replay_state-IsGoverned tenant_id id "scheduled" t refl refl h governed
make_change-IsGoverned cancel tenant_id id actor_id now t h governed =
    update_replay_state-IsGoverned tenant_id id "canceled" t refl refl h governed

pub start_replay_job-IsGoverned :
    (tenant_id id : String) (t : ReplayTables)
    → has_item tenant_id id t.outbox ≡ true
    → IsGoverned t
    → IsGoverned (start_replay_job tenant_id id t).1
unfolding start_replay_job in_state
start_replay_job-IsGoverned tenant_id id t queued governed =
    with_jobs-IsGoverned is_scheduled (in_state "running") tenant_id id t _ (λ j. (refl, refl))
      (λ j passes before. (λ q. before.0 q, λ ran. before.0 queued)) refl governed

pub complete_replay_job-IsGoverned :
    (tenant_id id : String) (processed_items : ℕ) (t : ReplayTables)
    → has_item tenant_id id t.outbox ≡ true
    → IsGoverned t
    → IsGoverned (complete_replay_job tenant_id id processed_items t)
unfolding complete_replay_job completed_with
complete_replay_job-IsGoverned tenant_id id processed_items t queued governed =
    with_jobs-IsGoverned is_open (completed_with processed_items) tenant_id id t _
      (λ j. (refl, refl)) (λ j passes before. (λ q. before.0 q, λ ran. before.0 queued)) refl
      governed
