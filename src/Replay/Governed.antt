-- ===== src/Replay/Governed.antt =====
-- When a replay job may run, and what keeps it so (internal/adapters/postgres/store.go).
use webhookery.Common.{
  ℕ, ◌<◌, String, Bool, true, false, ◌&&◌, ◌||◌, List, [], ◌∷◌, ◌==◌, string_eq, Option, none, some,
  ◌≡◌, ◌≢◌, ◌⊎◌, ◌∙◌, sym, subst, inl, inr, refl, arith, eq_iff, Bool-cases, Option-cases, some-eq,
  ok, ok-eq, err-ok,
}
use webhookery.Replay.{ReplayJob, ReplayItem, ReplayTables}
use webhookery.Replay.Jobs.{
  find_job, update_job, with_jobs, state_guard, in_state, update_replay_state, jobs_or,
}
use webhookery.Replay.Keys.{KeepsKey, update_job-Updated}

-- The job needs no approval, or somebody else than its creator gave it within the window.
abbrev pub Cleared : ReplayJob → Type 0
Cleared j =
    (j.approval_required ≡ false)
    ⊎ ((at until : ℕ) × (j.approved_at ≡ some at)
        × (j.approval_expires_at ≡ some until)
        × (at < until)
        × (j.approved_by ≢ j.created_by))

abbrev pub Ran : ReplayJob → Type 0
Ran j = (j.state ≡ "running") ⊎ (j.state ≡ "completed")

-- The worker holds an item for the job.
unfoldable pub has_item : String → String → List ReplayItem → Bool
has_item tenant_id id [] = false
has_item tenant_id id (i ∷ rest) =
    (i.tenant_id == tenant_id && i.resource_id == id) || has_item tenant_id id rest

abbrev pub Governed : Bool → ReplayJob → Type 0
Governed queued j = ((queued ≡ true) → Cleared j) × (Ran j → Cleared j)

abbrev pub IsGoverned : ReplayTables → Type 0
IsGoverned t =
    (tenant_id id : String) (j : ReplayJob)
    → find_job tenant_id id t.jobs ≡ some j
    → Governed (has_item tenant_id id t.outbox) j

-- An update of one job keeps the tables governed if it keeps that job governed.
pub update_job-IsGoverned :
    (test : ReplayJob → Bool) (change : ReplayJob → ReplayJob) (tenant_id id : String)
    (t : ReplayTables) (jobs : List ReplayJob) (outbox : List ReplayItem)
    → KeepsKey change
    → update_job test change tenant_id id t.jobs ≡ some jobs
    → ((other key : String)
        → (other == tenant_id && key == id) ≡ false
        → has_item other key outbox ≡ has_item other key t.outbox)
    → ((j : ReplayJob)
        → test j ≡ true
        → Governed (has_item tenant_id id t.outbox) j
        → Governed (has_item tenant_id id outbox) (change j))
    → IsGoverned t
    → IsGoverned (record t { jobs = jobs; outbox = outbox })
update_job-IsGoverned test change tenant_id id t jobs outbox keeps updated others own governed =
    let (j, found, passes, changed, elsewhere) =
      update_job-Updated test change tenant_id id t.jobs keeps updated in
    λ other key k under. elim (Bool-cases (other == tenant_id && key == id)) [
      | inr differs ↦
          let before = governed other key k (sym (elsewhere other key differs) ∙ under) in
          rw (others other key differs) before
      | inl same ↦
          let tenant = (eq_iff other tenant_id).0 (ground arith) in
          let name = (eq_iff key id).0 (ground arith) in
          let row = some-eq (sym changed ∙ rw (tenant, name) at under) in
          rw (tenant, name)
            (subst (Governed (has_item tenant_id id outbox)) row
              (own j passes (governed tenant_id id j found)))
    ]

-- A statement with a WHERE clause on the key that leaves the outbox alone.
pub with_jobs-IsGoverned :
    (test : ReplayJob → Bool) (change : ReplayJob → ReplayJob) (tenant_id id : String)
    (t : ReplayTables) (jobs : Option (List ReplayJob))
    → KeepsKey change
    → ((j : ReplayJob)
        → test j ≡ true
        → Governed (has_item tenant_id id t.outbox) j
        → Governed (has_item tenant_id id t.outbox) (change j))
    → update_job test change tenant_id id t.jobs ≡ jobs
    → IsGoverned t
    → IsGoverned (record t { jobs = jobs_or t.jobs jobs })
unfolding jobs_or
with_jobs-IsGoverned test change tenant_id id t none keeps own updated governed = governed
with_jobs-IsGoverned test change tenant_id id t (some jobs) keeps own updated governed =
    update_job-IsGoverned test change tenant_id id t jobs t.outbox keeps updated
      (λ other key differs. refl) own governed

-- A job that an operator holds back or frees is not one that ran.
not-Ran :
    (j : ReplayJob) (state : String)
    → (state == "running") ≡ false
    → (state == "completed") ≡ false
    → Ran (in_state state j)
    → ⊥
unfolding in_state
not-Ran j state a b ran = elim ran [
  | inl running ↦ let clash = (eq_iff state "running").1 running in cc (clash, a)
  | inr completed ↦ let clash = (eq_iff state "completed").1 completed in cc (clash, b)
]

pub update_replay_state-IsGoverned :
    (tenant_id id state : String) (t : ReplayTables) {after : ReplayTables}
    → (state == "running") ≡ false
    → (state == "completed") ≡ false
    → update_replay_state tenant_id id state t ≡ ok after
    → IsGoverned t
    → IsGoverned after
unfolding update_replay_state with_jobs in_state
update_replay_state-IsGoverned tenant_id id state t {after} a b h governed =
    elim (Option-cases (update_job (state_guard state) (in_state state) tenant_id id t.jobs)) [
      | inl nothing ↦ absurd (err-ok (rw (nothing, with_jobs) at h))
      | inr (jobs, updated) ↦ subst IsGoverned (ok-eq (rw (updated, with_jobs) at h)) (
          update_job-IsGoverned (state_guard state) (in_state state) tenant_id id t jobs t.outbox
            (λ j. (refl, refl)) updated (λ other key differs. refl)
            (λ j passes before.
              (λ queued. before.0 queued, λ ran. absurd (not-Ran j state a b ran)))
            governed)
    ]
