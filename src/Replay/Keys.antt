-- ===== src/Replay/Keys.antt =====
-- UPDATE by the primary key of replay_jobs (internal/adapters/postgres/store.go): what is found under
-- each key afterwards.
use webhookery.Common.{
  String, Bool, true, false, ◌&&◌, List, [], ◌∷◌, ◌==◌, string_eq, some, ◌≡◌, ◌∙◌, subst, inl, inr,
  refl, arith, eq_iff, Bool-cases, Option-cases, some-eq,
}
use webhookery.Replay.{ReplayJob}
use webhookery.Replay.Jobs.{is_job, find_job, behind, update_job}

-- A change that leaves the key alone.
abbrev pub KeepsKey : (ReplayJob → ReplayJob) → Type 0
KeepsKey change = (j : ReplayJob) → ((change j).tenant_id ≡ j.tenant_id) × ((change j).id ≡ j.id)

-- Which row was updated, and that no other key is affected.
abbrev pub Updated :
    (ReplayJob → Bool)
    → (ReplayJob → ReplayJob)
    → String
    → String
    → List ReplayJob
    → List ReplayJob
    → Type 0
Updated test change tenant_id id before after =
    (j : ReplayJob) × (find_job tenant_id id before ≡ some j)
    × (test j ≡ true)
    × (find_job tenant_id id after ≡ some (change j))
    × ((other key : String)
        → (other == tenant_id && key == id) ≡ false
        → find_job other key after ≡ find_job other key before)

is_job-same :
    (tenant_id id other key : String) (j : ReplayJob)
    → is_job tenant_id id j ≡ true
    → (other == tenant_id && key == id) ≡ false
    → is_job other key j ≡ false
unfolding is_job
is_job-same tenant_id id other key j h differs = ground (
  arith,
  eq_iff j.tenant_id tenant_id,
  eq_iff j.id id,
  eq_iff j.tenant_id other,
  eq_iff j.id key,
  eq_iff other tenant_id,
  eq_iff key id,
)

is_job-change :
    (change : ReplayJob → ReplayJob) (tenant_id id : String) (j : ReplayJob)
    → KeepsKey change
    → is_job tenant_id id (change j) ≡ is_job tenant_id id j
unfolding is_job
is_job-change change tenant_id id j keeps = let (tenant, own) = keeps j in rw (tenant, own) refl

Updated-here :
    (test : ReplayJob → Bool) (change : ReplayJob → ReplayJob) (tenant_id id : String)
    (j : ReplayJob) (rest : List ReplayJob)
    → KeepsKey change
    → is_job tenant_id id j ≡ true
    → test j ≡ true
    → Updated test change tenant_id id (j ∷ rest) (change j ∷ rest)
unfolding find_job
Updated-here test change tenant_id id j rest keeps hit passes = (
  j,
  rw hit refl,
  passes,
  rw (is_job-change change tenant_id id j keeps ∙ hit) refl,
  λ other key differs.
      let misses = is_job-same tenant_id id other key j hit differs in
      rw (misses, is_job-change change other key j keeps ∙ misses) refl,
)

Updated-there :
    (test : ReplayJob → Bool) (change : ReplayJob → ReplayJob) (tenant_id id : String)
    (j : ReplayJob) (rest later : List ReplayJob)
    → is_job tenant_id id j ≡ false
    → Updated test change tenant_id id rest later
    → Updated test change tenant_id id (j ∷ rest) (j ∷ later)
unfolding find_job
Updated-there test change tenant_id id j rest later miss (k, found, passes, changed, others) = (
  k,
  rw miss found,
  passes,
  rw miss changed,
  λ other key differs. elim (Bool-cases (is_job other key j)) [
    | inl same ↦ rw same refl
    | inr next ↦ rw next (others other key differs)
  ],
)

pub update_job-Updated :
    (test : ReplayJob → Bool) (change : ReplayJob → ReplayJob) (tenant_id id : String)
    (jobs : List ReplayJob) {after : List ReplayJob}
    → KeepsKey change
    → update_job test change tenant_id id jobs ≡ some after
    → Updated test change tenant_id id jobs after
unfolding update_job behind
update_job-Updated test change tenant_id id [] keeps h = cc
update_job-Updated test change tenant_id id (j ∷ rest) {after} keeps h =
    elim (Bool-cases (is_job tenant_id id j)) [
      | inl hit ↦ elim (Bool-cases (test j)) [
        | inr fails ↦ let never = rw (hit, fails) at h in cc never
        | inl passes ↦
            subst (Updated test change tenant_id id (j ∷ rest)) (some-eq (rw (hit, passes) at h))
              (Updated-here test change tenant_id id j rest keeps hit passes)
      ]
      | inr miss ↦ elim (Option-cases (update_job test change tenant_id id rest)) [
        | inl nothing ↦ let never = rw (miss, nothing) at h in cc never
        | inr (later, found) ↦
            subst (Updated test change tenant_id id (j ∷ rest)) (some-eq (rw (miss, found) at h)) (
              Updated-there test change tenant_id id j rest later miss
                (update_job-Updated test change tenant_id id rest keeps found))
      ]
    ]
