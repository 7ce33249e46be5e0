-- ===== src/Replay/Pending.antt =====
-- Which new replay jobs wait for an approval (CreateReplay in internal/adapters/postgres/store.go).
use webhookery.Common.{
  ℕ, ◌<◌, String, true, false, not, ◌&&◌, ◌∷◌, string_eq, Option, none, some, ◌≡◌, ◌↔◌, ◌⊎◌, ◌∙◌,
  sym, subst, inl, inr, refl, arith, Bool-cases, ok, ok-eq, err-ok,
}
use webhookery.Replay.{ReplayRequest, ReplayJob, ReplayApprovalPolicy, ReplayTables, is_future}
use webhookery.Replay.Scope.{replay_approval_policy_for_replay}
use webhookery.Replay.Requested.{HasKeys}
use webhookery.Replay.Covered.{replay_approval_policy_for_replay_iff}
use webhookery.Replay.Needs.{NeedsApproval, asked_or_found_iff}
use webhookery.Replay.Approved.{is_future-some}
use webhookery.Replay.Jobs.{
  under_policy, with_defaults, with_window, job_row, item_for, insert_job, settled, insert_replay,
}

under_policy_iff :
    (now : ℕ) (o : Option ReplayApprovalPolicy) (req : ReplayRequest)
    → ((under_policy now o req).require_approval ≡ true)
      ↔ ((req.require_approval ≡ true) ⊎ ((p : ReplayApprovalPolicy) × (o ≡ some p)))
unfolding under_policy
under_policy_iff now none req = (λ h. inl h, λ h. elim h [ inl e ↦ e | inr (p, never) ↦ cc never ])
under_policy_iff now (some p) req = (λ h. inr (p, refl), λ h. refl)

with_window-same :
    (now : ℕ) (req : ReplayRequest) → (with_window now req).require_approval ≡ req.require_approval
unfolding with_window
with_window-same now req = elim (Bool-cases req.require_approval) [
  | inl needed ↦ rw needed refl
  | inr free ↦ rw free refl
]

settled_iff :
    (now : ℕ) (tenant_id : String) (req : ReplayRequest) (t : ReplayTables)
    → HasKeys t
    → ((settled now tenant_id req t).require_approval ≡ true) ↔ NeedsApproval t tenant_id req
unfolding settled with_defaults
settled_iff now tenant_id req t keys =
    let policy = replay_approval_policy_for_replay t tenant_id (with_defaults req) in
    let window = with_window-same now (under_policy now policy (with_defaults req)) in
    let under = under_policy_iff now policy (with_defaults req) in
    let covered = replay_approval_policy_for_replay_iff t tenant_id (with_defaults req) in
    (
      λ h. (asked_or_found_iff t tenant_id req keys).0 (elim (under.0 (sym window ∙ h)) [
        | inl asked ↦ inl asked
        | inr found ↦ inr (covered.0 found)
      ]),
      λ h.
          window
          ∙ under.1 (elim ((asked_or_found_iff t tenant_id req keys).1 h) [
            | inl asked ↦ inl asked
            | inr c ↦ inr (covered.1 c)
          ]),
    )

abbrev pub Waits : ℕ → ReplayTables → ReplayTables → ReplayJob → Type 0
Waits now t after j =
    (j.state ≡ "pending_approval")
    × (after.outbox ≡ t.outbox)
    × ((until : ℕ) × (j.approval_expires_at ≡ some until) × (now < until))

abbrev pub Goes : ReplayTables → ReplayTables → ReplayJob → Type 0
Goes t after j = (j.state ≡ "scheduled") × (after.outbox ≡ item_for j.tenant_id j.id ∷ t.outbox)

insert_job_cases :
    (id : String) (now : ℕ) (tenant_id actor_id : String) (stored : ReplayRequest)
    (t : ReplayTables)
    → (stored.require_approval && not (is_future now stored.approval_expires_at)) ≡ false
    → ((stored.require_approval ≡ true)
        × Waits now t
            (insert_job (job_row id tenant_id actor_id stored) t)
            (job_row id tenant_id actor_id stored))
      ⊎ ((stored.require_approval ≡ false)
          × Goes t
              (insert_job (job_row id tenant_id actor_id stored) t)
              (job_row id tenant_id actor_id stored))
unfolding insert_job job_row
insert_job_cases id now tenant_id actor_id stored t timely =
    elim (Bool-cases stored.require_approval) [
      | inl needed ↦ inl (
        needed,
        (
          rw needed refl,
          rw needed refl,
          is_future-some now stored.approval_expires_at (ground arith),
        ),
      )
      | inr free ↦ inr (free, (rw free refl, rw free refl))
    ]

-- In tables with their primary keys, a new replay job waits for an approval exactly when the request
-- asks for one, or an active policy that requires it is over the tenant, the source of the request or
-- a route of it. Its routes are the one its delivery went by, the active ones of its source that take
-- the type of its event and, for the original configuration, those that the event's deliveries went
-- by. A job that waits gets no outbox item and a window that ends later than now; any other job is
-- scheduled with an item.
pub insert_replay-Waits :
    (id : String) (now : ℕ) (tenant_id actor_id : String) (req : ReplayRequest) (t : ReplayTables)
    {after : ReplayTables}
    → HasKeys t
    → insert_replay id now tenant_id actor_id req t ≡ ok after
    → (j : ReplayJob) × (after.jobs ≡ j ∷ t.jobs)
      × ((NeedsApproval t tenant_id req × Waits now t after j)
          ⊎ ((NeedsApproval t tenant_id req → ⊥) × Goes t after j))
unfolding insert_replay insert_job
insert_replay-Waits id now tenant_id actor_id req t {after} keys h =
    let stored = settled now tenant_id req t in
    let row = job_row id tenant_id actor_id stored in
    let asks = settled_iff now tenant_id req t keys in
    elim (Bool-cases (stored.require_approval && not (is_future now stored.approval_expires_at))) [
      | inl late ↦ absurd (err-ok (rw late at h))
      | inr timely ↦
          subst
            (λ (x : ReplayTables).
              (j : ReplayJob) × (x.jobs ≡ j ∷ t.jobs)
              × ((NeedsApproval t tenant_id req × Waits now t x j)
                  ⊎ ((NeedsApproval t tenant_id req → ⊥) × Goes t x j)))
            (ok-eq (rw timely at h))
            (
              row,
              refl,
              elim (insert_job_cases id now tenant_id actor_id stored t timely) [
                | inl (needed, waits) ↦ inl (asks.0 needed, waits)
                | inr (free, goes) ↦
                    inr (λ needs. let yes_it = asks.1 needs in cc (yes_it, free), goes)
              ],
            )
    ]
