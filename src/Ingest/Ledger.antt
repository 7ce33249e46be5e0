-- ===== src/Ingest/Ledger.antt =====
-- What the dedupe promises: the first event of a tenant under a key keeps it
-- (internal/adapters/postgres/store_ingest.go).
use mathlib.Core.Path.{fun_ext}
use webhookery.Common.{
  String, Bool, true, false, ◌&&◌, List, [], ◌∷◌, Option, none, some, ◌==◌, string_eq,
  if◌then◌else◌, ◌≡◌, refl, ap, sym, ◌∙◌, eq_iff, and-eq-true, map,
}
use webhookery.Ingest.{CaptureInboundInput, CaptureInboundResult}
use webhookery.Ingest.Tables.{
  Tables, FreshIds, event_keyed, event_row, insert_event, insert_receipt, captured, capture_for,
  capture_inbound,
}

-- The id of the event of a tenant under a key.
abbrev pub Ledger : Type 0
Ledger = String → String → Option String

-- A request for a key, with an id that is fresh.
pub record Claim : Type 0 where
  pub tenant_id : String
  pub key : String
  pub fresh : String

abbrev pub keep_or : Option String → Bool → String → Option String
keep_or (some first) test fresh = some first
keep_or none test fresh = if test then some fresh else none

abbrev pub claim : Claim → Ledger → Ledger
claim c ledger tenant_id key =
    keep_or (ledger tenant_id key) (c.tenant_id == tenant_id && c.key == key) c.fresh

abbrev pub answer_for : String → Option String → String × String
answer_for fresh none = (fresh, "unique")
answer_for fresh (some first) = (first, "duplicate_suppressed")

-- The id that a claim is told, and whether it is the first one.
abbrev pub answer : Claim → Ledger → String × String
answer c ledger = answer_for c.fresh (ledger c.tenant_id c.key)

abbrev pub run_claims : List Claim → Ledger → List (String × String) × Ledger
run_claims [] ledger = ([], ledger)
run_claims (c ∷ cs) ledger =
    let rest = run_claims cs (claim c ledger) in (answer c ledger ∷ rest.0, rest.1)

-- The ledger that the events hold.
abbrev pub view : Tables → Ledger
view t tenant_id key = event_keyed tenant_id key t.events

abbrev pub Capture : Type 0
Capture = FreshIds × CaptureInboundInput

abbrev pub claim_of : Capture → Claim
claim_of (ids, input) = record {
  tenant_id = input.source.tenant_id;
  key = input.event.dedupe_key;
  fresh = ids.event_id;
}

new_key :
    (test : Bool) (o : Option String) (fresh : String)
    → (test ≡ true → o ≡ none)
    → (if test then some fresh else o) ≡ keep_or o test fresh
new_key true none fresh h = refl
new_key true (some first) fresh h = cc (h refl)
new_key false none fresh h = refl
new_key false (some first) fresh h = refl

old_key :
    (test : Bool) (o : Option String) (fresh first : String)
    → (test ≡ true → o ≡ some first)
    → o ≡ keep_or o test fresh
old_key true none fresh first h = cc (h refl)
old_key true (some other) fresh first h = refl
old_key false none fresh first h = refl
old_key false (some other) fresh first h = refl

at_key :
    (input : CaptureInboundInput) (t : Tables) (tenant_id key : String)
    → (input.source.tenant_id == tenant_id && input.event.dedupe_key == key) ≡ true
    → view t tenant_id key ≡ view t input.source.tenant_id input.event.dedupe_key
at_key input t tenant_id key same =
    let (tenant, under) = and-eq-true _ _ same in
    let of_tenant = sym ((eq_iff input.source.tenant_id tenant_id).0 tenant) in
    let of_key = sym ((eq_iff input.event.dedupe_key key).0 under) in
    λ i. view t (of_tenant i) (of_key i)

module _ (lookup_adapter_version : String → String) where
  abbrev pub run_captures : List Capture → Tables → List CaptureInboundResult × Tables
  run_captures [] t = ([], t)
  run_captures ((ids, input) ∷ cs) t =
      let done = capture_inbound lookup_adapter_version ids input t in
      let rest = run_captures cs done.1 in (done.0 ∷ rest.0, rest.1)

  abbrev pub told : CaptureInboundResult → String × String
  told r = (r.event_id, r.dedupe_status)

  answer_lem :
      (ids : FreshIds) (input : CaptureInboundInput) (t : Tables) (o : Option String)
      → told (capture_for lookup_adapter_version ids input t o).0 ≡ answer_for ids.event_id o
  unfolding capture_for captured
  answer_lem ids input t none = refl
  answer_lem ids input t (some first) = refl

  view_lem :
      (ids : FreshIds) (input : CaptureInboundInput) (t : Tables) (o : Option String)
      (tenant_id key : String)
      → event_keyed input.source.tenant_id input.event.dedupe_key t.events ≡ o
      → view (capture_for lookup_adapter_version ids input t o).1 tenant_id key
        ≡ claim (claim_of (ids, input)) (view t) tenant_id key
  unfolding capture_for insert_receipt insert_event event_keyed event_row
  view_lem ids input t none tenant_id key free =
      new_key _ _ _ (λ same. at_key input t tenant_id key same ∙ free)
  view_lem ids input t (some first) tenant_id key taken =
      old_key _ _ _ first (λ same. at_key input t tenant_id key same ∙ taken)

  capture_lem :
      (ids : FreshIds) (input : CaptureInboundInput) (t : Tables)
      → view (capture_inbound lookup_adapter_version ids input t).1
        ≡ claim (claim_of (ids, input)) (view t)
  unfolding capture_inbound
  capture_lem ids input t =
      fun_ext λ tenant_id. fun_ext λ key. view_lem ids input t _ tenant_id key refl

  told_lem :
      (ids : FreshIds) (input : CaptureInboundInput) (t : Tables)
      → told (capture_inbound lookup_adapter_version ids input t).0
        ≡ answer (claim_of (ids, input)) (view t)
  unfolding capture_inbound
  told_lem ids input t = answer_lem ids input t _

  -- A history of captures answers and leaves behind what the same claims do on the ledger of the
  -- events: under each key of a tenant the first event stays, every later capture is told its id and
  -- that it is a duplicate, and no other key changes.
  pub run_captures-run_claims :
      (history : List Capture) (t : Tables)
      → (map told (run_captures history t).0 ≡ (run_claims (map claim_of history) (view t)).0)
        × (view (run_captures history t).1 ≡ (run_claims (map claim_of history) (view t)).1)
  run_captures-run_claims [] t = (refl, refl)
  run_captures-run_claims ((ids, input) ∷ history) t =
      let after = (capture_inbound lookup_adapter_version ids input t).1 in
      let (answers, ledger) = run_captures-run_claims history after in
      let stepped = capture_lem ids input t in
      let head = told_lem ids input t in
      let tail = answers ∙ ap (λ l. (run_claims (map claim_of history) l).0) stepped in
      (λ i. head i ∷ tail i, ledger ∙ ap (λ l. (run_claims (map claim_of history) l).1) stepped)
