-- ===== src/Replay/Routes.antt =====
-- The rows and columns that the queries of the scope read
-- (replayApprovalPolicyForReplay in internal/adapters/postgres/store.go).
use mathlib.Core.List.{Memᴰ}
use webhookery.Common.{
  String, true, false, ◌&&◌, List, [], ◌∷◌, ◌++◌, ◌==◌, string_eq, ◌≡◌, ◌≢◌, ◌↔◌, ◌⊎◌, inl, inr,
  refl, sym, ap, ◌∙◌, arith, eq_iff, Bool-cases, contains→Memᴰ, Memᴰ→contains,
}
use webhookery.Replay.{DeliveryRow, RouteRow}
use webhookery.Replay.Scope.{named_routes, route_ids, is_route_of}

pub mem-append→ : {x : String} (xs ys : List String) → Memᴰ x (xs ++ ys) → Memᴰ x xs ⊎ Memᴰ x ys
mem-append→ [] ys m = inr m
mem-append→ (y ∷ xs) ys (Memᴰ.head p) = inl (Memᴰ.head p)
mem-append→ (y ∷ xs) ys (Memᴰ.tail m) = elim (mem-append→ xs ys m) [
  | inl here ↦ inl (Memᴰ.tail here)
  | inr there ↦ inr there
]

pub mem-left : {x : String} (xs ys : List String) → Memᴰ x xs → Memᴰ x (xs ++ ys)
mem-left [] ys m = elim m [ ]
mem-left (y ∷ xs) ys (Memᴰ.head p) = Memᴰ.head p
mem-left (y ∷ xs) ys (Memᴰ.tail m) = Memᴰ.tail (mem-left xs ys m)

pub mem-right : {x : String} (xs ys : List String) → Memᴰ x ys → Memᴰ x (xs ++ ys)
mem-right [] ys m = m
mem-right (y ∷ xs) ys m = Memᴰ.tail (mem-right xs ys m)

pub is_blank : (s : String) → (s == "") ≡ true → s ≡ ""
is_blank s h = (eq_iff s "").0 h

pub not_blank : (s : String) → (s == "") ≡ false → s ≢ ""
not_blank s h same = let yes = (eq_iff s "").1 same in cc (yes, h)

pub mem-named_routes :
    {r : String} (rows : List DeliveryRow)
    → Memᴰ r (named_routes rows) ↔ ((d : DeliveryRow) × Memᴰ d rows × (d.route_id ≡ r) × (r ≢ ""))
unfolding named_routes
mem-named_routes [] = (λ m. elim m [ ], λ (d, m, same, named). elim m [ ])
mem-named_routes {r} (d ∷ rows) = (
  λ m. elim (Bool-cases (d.route_id == "")) [
    | inl blank ↦
        let (x, listed, same, named) = (mem-named_routes rows).0 (rw blank at m) in
        (x, Memᴰ.tail listed, same, named)
    | inr named ↦ of_cons (rw named at m) named ((mem-named_routes rows).0)
  ],
  λ (x, m, same, named). elim m [
    | Memᴰ.head p ↦
        let here : d.route_id ≡ r = ap (λ (y : DeliveryRow). y.route_id) (sym p) ∙ same in
        rw (shown d.route_id (λ e. named (sym here ∙ e))) (Memᴰ.head (sym here))
    | Memᴰ.tail n ↦
        let there = (mem-named_routes rows).1 (x, n, same, named) in
        elim (Bool-cases (d.route_id == "")) [
          | inl blank ↦ rw blank there
          | inr full ↦ rw full (Memᴰ.tail there)
        ]
  ],
)
  where
    shown : (s : String) → s ≢ "" → (s == "") ≡ false
    shown s h = elim (Bool-cases (s == "")) [
      | inl blank ↦ absurd (h (is_blank s blank))
      | inr full ↦ full
    ]

    of_cons :
        Memᴰ r (d.route_id ∷ named_routes rows)
        → (d.route_id == "") ≡ false
        → (Memᴰ r (named_routes rows)
            → (x : DeliveryRow) × Memᴰ x rows × (x.route_id ≡ r) × (r ≢ ""))
        → (x : DeliveryRow) × Memᴰ x (d ∷ rows) × (x.route_id ≡ r) × (r ≢ "")
    of_cons (Memᴰ.head p) full rest =
        (d, Memᴰ.head refl, sym p, λ e. not_blank d.route_id full (sym p ∙ e))
    of_cons (Memᴰ.tail n) full rest =
        let (x, listed, same, named) = rest n in (x, Memᴰ.tail listed, same, named)

pub mem-route_ids :
    {r : String} (rows : List RouteRow)
    → Memᴰ r (route_ids rows) ↔ ((row : RouteRow) × Memᴰ row rows × (row.id ≡ r))
unfolding route_ids
mem-route_ids [] = (λ m. elim m [ ], λ (row, m, same). elim m [ ])
mem-route_ids (row ∷ rows) = (
  λ m. elim m [
    | Memᴰ.head p ↦ (row, Memᴰ.head refl, sym p)
    | Memᴰ.tail n ↦ let (x, listed, same) = (mem-route_ids rows).0 n in (x, Memᴰ.tail listed, same)
  ],
  λ (x, m, same). elim m [
    | Memᴰ.head p ↦ Memᴰ.head (sym same ∙ ap (λ (y : RouteRow). y.id) p)
    | Memᴰ.tail n ↦ Memᴰ.tail ((mem-route_ids rows).1 (x, n, same))
  ],
)

pub is_route_of_iff :
    (tenant_id source_id type_name : String) (row : RouteRow)
    → (is_route_of tenant_id source_id type_name row ≡ true) ↔ (
        (row.tenant_id ≡ tenant_id)
        × (row.source_id ≡ source_id)
        × (row.state ≡ "active")
        × Memᴰ type_name row.event_types)
unfolding is_route_of
is_route_of_iff tenant_id source_id type_name row = (
  λ h. (
    (eq_iff row.tenant_id tenant_id).0 (ground arith),
    (eq_iff row.source_id source_id).0 (ground arith),
    (eq_iff row.state "active").0 (ground arith),
    contains→Memᴰ row.event_types type_name (ground arith),
  ),
  λ (tenant, source, active, listed).
      let known = Memᴰ→contains listed in
      ground (
        arith,
        (eq_iff row.tenant_id tenant_id).1 tenant,
        (eq_iff row.source_id source_id).1 source,
        (eq_iff row.state "active").1 active,
      ),
)

pub both_iff : (a b c d : String) → ((a == b && c == d) ≡ true) ↔ ((a ≡ b) × (c ≡ d))
both_iff a b c d = (
  λ h. ((eq_iff a b).0 (ground arith), (eq_iff c d).0 (ground arith)),
  λ (p, q). ground (arith, (eq_iff a b).1 p, (eq_iff c d).1 q),
)
