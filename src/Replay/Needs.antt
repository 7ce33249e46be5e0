-- ===== src/Replay/Needs.antt =====
-- Which replay requests need an approval, as the tables say, and that the store finds the same
-- (replayApprovalPolicyForReplay in internal/adapters/postgres/store.go).
use webhookery.Common.{
  String, true, false, string_eq, ◌≡◌, ◌↔◌, ◌⊎◌, ◌∙◌, sym, inl, inr, Bool-cases, eq_iff, ◌==◌,
}
use webhookery.Replay.{ReplayRequest, ReplayApprovalPolicy, ReplayTables}
use webhookery.Replay.Scope.{replay_scope}
use mathlib.Core.List.{Memᴰ}
use webhookery.Replay.Requested.{HasKeys, RouteOf, SourceOf}
use webhookery.Replay.Collected.{source_iff}
use webhookery.Replay.RouteScope.{route_iff}
use webhookery.Replay.Covered.{IsCovered}
use webhookery.Replay.Jobs.{with_defaults}

module _ (t : ReplayTables) (tenant_id : String) (req : ReplayRequest) where
  -- A policy over a route or the source of the request, or over the whole tenant.
  abbrev pub Governs : ReplayApprovalPolicy → Type 0
  Governs p =
      ((p.scope_type ≡ "route") × RouteOf t tenant_id req p.scope_id)
      ⊎ ((p.scope_type ≡ "source") × SourceOf t tenant_id req p.scope_id)
      ⊎ ((p.scope_type ≡ "tenant") × (p.scope_id ≡ ""))

  -- The request asks for an approval, or an active policy that requires one governs it.
  abbrev pub NeedsApproval : Type 0
  NeedsApproval =
      (req.require_approval ≡ true)
      ⊎ ((p : ReplayApprovalPolicy) × Memᴰ p t.policies
          × (p.tenant_id ≡ tenant_id)
          × (p.state ≡ "active")
          × (p.require_approval ≡ true)
          × Governs p)

  original_iff : ((with_defaults req).config_mode ≡ "original") ↔ (req.config_mode ≡ "original")
  unfolding with_defaults
  original_iff = elim (Bool-cases (req.config_mode == "")) [
    | inl blank ↦
        let empty = (eq_iff req.config_mode "").0 blank in
        rw blank (
          λ h. absurd (apart ((eq_iff "current" "original").1 h)),
          λ h. absurd (apart ((eq_iff "" "original").1 (sym empty ∙ h))),
        )
    | inr named ↦ rw named (λ h. h, λ h. h)
  ]
    where
      apart : false ≡ true → ⊥
      apart h = cc h

  -- The defaults change neither the routes nor the source.
  with_defaults-RouteOf :
      (r : String) → RouteOf t tenant_id (with_defaults req) r ↔ RouteOf t tenant_id req r
  unfolding with_defaults
  with_defaults-RouteOf r = (
    λ route. elim route [
      | inl by_delivery ↦ inl by_delivery
      | inr later ↦ elim later [
        | inl by_source ↦ inr (inl by_source)
        | inr (d, n, mode, there, tenant, event, same, named) ↦
            inr (inr (d, n, original_iff.0 mode, there, tenant, event, same, named))
      ]
    ],
    λ route. elim route [
      | inl by_delivery ↦ inl by_delivery
      | inr later ↦ elim later [
        | inl by_source ↦ inr (inl by_source)
        | inr (d, n, mode, there, tenant, event, same, named) ↦
            inr (inr (d, n, original_iff.1 mode, there, tenant, event, same, named))
      ]
    ],
  )

  -- What the queries find covered is what the tables say.
  pub asked_or_found_iff :
      HasKeys t
      → ((req.require_approval ≡ true)
          ⊎ IsCovered t.policies tenant_id (replay_scope t tenant_id (with_defaults req)))
        ↔ NeedsApproval
  unfolding with_defaults
  asked_or_found_iff keys =
      let routes = route_iff t keys tenant_id (with_defaults req) in
      let sources = source_iff t keys tenant_id (with_defaults req) in
      (
        λ h. elim h [
          | inl asked ↦ inl asked
          | inr (p, listed, (tenant, active, needs, place)) ↦ inr (
            p,
            listed,
            tenant,
            active,
            needs,
            elim place [
              | inl (kind, member) ↦
                  inl (kind, (with_defaults-RouteOf p.scope_id).0 ((routes p.scope_id).0 member))
              | inr rest ↦ elim rest [
                | inl (kind, same, named) ↦
                    inr (inl (kind, (sources p.scope_id).0 (λ e. named (sym same ∙ e), sym same)))
                | inr (kind, same) ↦ inr (inr (kind, same))
              ]
            ],
          )
        ],
        λ h. elim h [
          | inl asked ↦ inl asked
          | inr (p, listed, tenant, active, needs, place) ↦ inr (
            p,
            listed,
            (
              tenant,
              active,
              needs,
              elim place [
                | inl (kind, route) ↦
                    inl (kind, (routes p.scope_id).1 ((with_defaults-RouteOf p.scope_id).1 route))
                | inr rest ↦ elim rest [
                  | inl (kind, source) ↦
                      let (named, same) = (sources p.scope_id).1 source in
                      inr (inl (kind, sym same, λ e. named (sym same ∙ e)))
                  | inr (kind, same) ↦ inr (inr (kind, same))
                ]
              ],
            ),
          )
        ],
      )
