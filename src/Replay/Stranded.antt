-- ===== src/Replay/Stranded.antt =====
-- A job that waits for approval and is paused and resumed (updateReplayState and ApproveReplayJob in
-- internal/adapters/postgres/store.go).
use webhookery.Common.{
  ℕ, String, Bool, true, false, List, [], ◌∷◌, string_eq, none, some, ◌≡◌, ◌∙◌, sym, subst, ap, inl,
  inr, refl, Bool-cases, some-eq, ok, err,
}
use webhookery.Replay.{ReplayJob, ReplayTables, not_found}
use webhookery.Replay.Jobs.{
  is_job, find_job, behind, update_job, with_jobs, awaits, approved, approve_replay_job,
  state_guard, in_state, update_replay_state, approve, pause, resume, make_change,
}
use webhookery.Replay.Keys.{update_job-Updated}
use webhookery.Replay.Governed.{has_item}

update_job-found :
    (test : ReplayJob → Bool) (change : ReplayJob → ReplayJob) (tenant_id id : String)
    (jobs : List ReplayJob) {j : ReplayJob}
    → find_job tenant_id id jobs ≡ some j
    → test j ≡ true
    → (after : List ReplayJob) × (update_job test change tenant_id id jobs ≡ some after)
unfolding find_job update_job behind
update_job-found test change tenant_id id [] h passes = cc
update_job-found test change tenant_id id (k ∷ rest) {j} h passes =
    elim (Bool-cases (is_job tenant_id id k)) [
      | inl hit ↦
          let own = subst (λ x. test x ≡ true) (sym (some-eq (rw hit at h))) passes in
          (change k ∷ rest, rw (hit, own) refl)
      | inr miss ↦
          let (later, updated) =
            update_job-found test change tenant_id id rest (rw miss at h) passes in
          (k ∷ later, rw (miss, updated) refl)
    ]

update_job-refused :
    (test : ReplayJob → Bool) (change : ReplayJob → ReplayJob) (tenant_id id : String)
    (jobs : List ReplayJob) {j : ReplayJob}
    → find_job tenant_id id jobs ≡ some j
    → test j ≡ false
    → update_job test change tenant_id id jobs ≡ none
unfolding find_job update_job behind
update_job-refused test change tenant_id id [] h fails = refl
update_job-refused test change tenant_id id (k ∷ rest) {j} h fails =
    elim (Bool-cases (is_job tenant_id id k)) [
      | inl hit ↦
          let own = subst (λ x. test x ≡ false) (sym (some-eq (rw hit at h))) fails in
          rw (hit, own) refl
      | inr miss ↦
          let nothing = update_job-refused test change tenant_id id rest (rw miss at h) fails in
          rw (miss, nothing) refl
    ]

-- A job that the guard lets through is found in the new state, with the outbox as before.
update_replay_state-found :
    (tenant_id id state : String) (t : ReplayTables) (j : ReplayJob)
    → find_job tenant_id id t.jobs ≡ some j
    → state_guard state j ≡ true
    → (after : ReplayTables) × (update_replay_state tenant_id id state t ≡ ok after)
      × (find_job tenant_id id after.jobs ≡ some (in_state state j))
      × (after.outbox ≡ t.outbox)
unfolding update_replay_state with_jobs in_state
update_replay_state-found tenant_id id state t j found passes =
    let (jobs, updated) =
      update_job-found (state_guard state) (in_state state) tenant_id id t.jobs found passes in
    let (k, here, kept, changed, others) =
      update_job-Updated (state_guard state) (in_state state) tenant_id id t.jobs
        (λ x. (refl, refl)) updated in
    let same = some-eq (sym here ∙ found) in
    (
      record t { jobs = jobs },
      rw (updated, with_jobs) refl,
      changed ∙ ap (λ x. some (in_state state x)) same,
      refl,
    )

guards :
    (j : ReplayJob)
    → j.state ≡ "pending_approval"
    → (state_guard "paused" j ≡ true) × (state_guard "scheduled" (in_state "paused" j) ≡ true)
unfolding state_guard in_state
guards j h = (rw h refl, refl)

-- A job that waits for approval can be paused and resumed, by anyone who may write replays. It is then
-- called scheduled, although nobody approved it; it still has no outbox item, so that no worker runs
-- it, and no approval is accepted from anyone at any time.
pub make_change_stranded :
    (t : ReplayTables) (tenant_id id actor_id : String) (now : ℕ) (j : ReplayJob)
    → find_job tenant_id id t.jobs ≡ some j
    → j.state ≡ "pending_approval"
    → has_item tenant_id id t.outbox ≡ false
    → (paused resumed : ReplayTables) × (make_change pause tenant_id id actor_id now t ≡ ok paused)
      × (make_change resume tenant_id id actor_id now paused ≡ ok resumed)
      × (find_job tenant_id id resumed.jobs ≡ some (in_state "scheduled" j))
      × (has_item tenant_id id resumed.outbox ≡ false)
      × ((approver : String) (at : ℕ)
          → make_change approve tenant_id id approver at resumed ≡ err not_found)
unfolding make_change approve_replay_job with_jobs in_state awaits
make_change_stranded t tenant_id id actor_id now j found waits unqueued =
    let (may_pause, may_resume) = guards j waits in
    let (paused, held, held_at, held_items) =
      update_replay_state-found tenant_id id "paused" t j found may_pause in
    let (resumed, freed, freed_at, freed_items) =
      update_replay_state-found tenant_id id "scheduled" paused (in_state "paused" j) held_at
        may_resume in
    (
      paused,
      resumed,
      held,
      freed,
      freed_at,
      rw (freed_items, held_items) unqueued,
      λ approver at.
          let nothing =
            update_job-refused (awaits approver at) (approved approver at) tenant_id id resumed.jobs
              freed_at refl in
          rw (nothing, with_jobs) refl,
    )
