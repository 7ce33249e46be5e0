-- ===== src/Ingest/Trust.antt =====
-- Which webhooks are taken for genuine, and what an event that was not keeps from its successors
-- (internal/app/service.go, internal/adapters/postgres/store_ingest.go, internal/app/delivery_fanout.go).
use mathlib.Core.List.{Memᴰ}
use webhookery.Common.{
  ℕ, String, Bool, true, false, not, ◌||◌, ◌&&◌, List, [], ◌∷◌, Option, none, some, ◌==◌, string_eq,
  if◌then◌else◌, ◌≡◌, ◌≢◌, ◌↔◌, refl, inl, inr, Bool-cases, eq_iff, and-eq-true, subst, ap, some-eq,
}
use webhookery.Common.Int.{ℤ}
use webhookery.Fanout.{Event, DeliveryFanoutOptions}
use webhookery.Fanout.Run.{is_routable}
use webhookery.Ingest.{Source, IngestRequest, CaptureInboundInput, canonical_headers}
use webhookery.Ingest.Capture.{Services, adapter_of, secrets_of, verify_any, inbound_of}
use webhookery.Ingest.Ledger.{Capture, run_captures}
use webhookery.Ingest.Tables.{
  Tables, EventRow, FreshIds, event_keyed, event_row, insert_event, insert_receipt, capture_for,
  capture_inbound,
}
use webhookery.Provider.{VerifyInput, VerifyResult}
use webhookery.Provider.Registry.{Adapter, verify}
use webhookery.Provider.Signed.Accepted.{Signed, verify_iff}
use webhookery.Verifier.Valid.{IsSound}

choose_first :
    (test : Bool) (found rest : VerifyResult) → test ≡ true → (if test then found else rest) ≡ found
choose_first true found rest h = refl
choose_first false found rest h = cc

choose_second :
    (test : Bool) (found rest : VerifyResult) → test ≡ false → (if test then found else rest) ≡ rest
choose_second true found rest h = cc
choose_second false found rest h = refl

module _ (s : Services) (sound : IsSound s.codec.primitives) (req : IngestRequest) (now : ℤ) where
  -- What an adapter is asked with one of the secrets.
  abbrev pub input_with : List ℕ → VerifyInput
  input_with secret = record {
    raw_body = req.raw_body;
    headers = canonical_headers req.headers;
    secret = secret;
    now = now;
  }

  abbrev pub SignedBySome : Adapter → List (List ℕ) → Type 0
  SignedBySome adapter secrets =
      (secret : List ℕ) × (Memᴰ secret secrets) × Signed s.codec sound (input_with secret) adapter

  abbrev checked : Adapter → List ℕ → VerifyResult
  checked adapter secret = verify s.codec adapter (input_with secret)

  passes :
      (adapter : Adapter) (secret : List ℕ) (secrets : List (List ℕ)) (last : VerifyResult)
      → (checked adapter secret).verified ≡ true
      → verify_any s adapter req now (secret ∷ secrets) last ≡ checked adapter secret
  unfolding verify_any
  passes adapter secret secrets last good = choose_first _ _ _ good

  fails :
      (adapter : Adapter) (secret : List ℕ) (secrets : List (List ℕ)) (last : VerifyResult)
      → (checked adapter secret).verified ≡ false
      → verify_any s adapter req now (secret ∷ secrets) last
        ≡ verify_any s adapter req now secrets (checked adapter secret)
  unfolding verify_any
  fails adapter secret secrets last bad = choose_second _ _ _ bad

  verify_any_iff :
      (adapter : Adapter) (secrets : List (List ℕ)) (last : VerifyResult)
      → last.verified ≡ false
      → ((verify_any s adapter req now secrets last).verified ≡ true) ↔ SignedBySome adapter secrets
  verify_any_iff adapter [] last refused =
      (λ h. unfold verify_any in cc, λ (secret, m, signed). elim m [ ])
  verify_any_iff adapter (secret ∷ secrets) last refused =
      let first = verify_iff s.codec sound (input_with secret) adapter in
      elim (Bool-cases (verify s.codec adapter (input_with secret)).verified) [
        | inl good ↦
            rw (passes adapter secret secrets last good)
              (λ h. (secret, Memᴰ.head refl, first.0 good), λ signed. good)
        | inr bad ↦
            let rest = verify_any_iff adapter secrets (checked adapter secret) bad in
            rw (fails adapter secret secrets last bad) (
              λ h. let (other, m, signed) = rest.0 h in (other, Memᴰ.tail m, signed),
              λ h. rest.1 (elsewhere first bad h),
            )
      ]
    where
      elsewhere :
          ((verify s.codec adapter (input_with secret)).verified ≡ true)
            ↔ Signed s.codec sound (input_with secret) adapter
          → (verify s.codec adapter (input_with secret)).verified ≡ false
          → SignedBySome adapter (secret ∷ secrets)
          → SignedBySome adapter secrets
      elsewhere first bad (other, Memᴰ.head same, signed) = absurd (
          apart bad
            (first.1 (subst (λ x. Signed s.codec sound (input_with x) adapter) same signed)))
        where
          apart : {t : Bool} → t ≡ false → t ≡ true → ⊥
          apart f t = cc
      elsewhere first bad (other, Memᴰ.tail m, signed) = (other, m, signed)

  -- A webhook is handed to the store as verified exactly when, for one of the source's secrets, it is
  -- signed as the source's adapter asks for; a source without secrets is asked with the empty one.
  -- HMAC returns bytes and base64 decodes what it encodes.
  pub inbound_of-verified :
      (source : Source)
      → ((inbound_of s source req now).verification_ok ≡ true)
        ↔ SignedBySome (adapter_of s source).adapter (secrets_of s source)
  unfolding inbound_of
  inbound_of-verified source =
      verify_any_iff (adapter_of s source).adapter (secrets_of s source) _ refl

-- The event of a tenant under a key.
abbrev pub event_at : String → String → List EventRow → Option EventRow
event_at tenant_id key [] = none
event_at tenant_id key (e ∷ es) =
    if e.tenant_id == tenant_id && e.dedupe_key == key then some e else event_at tenant_id key es

-- The event that the fanout reads.
abbrev pub fanout_event : EventRow → Event
fanout_event e = record {
  source_id = e.source_id;
  type_name = e.type_name;
  verified = e.signature_verified;
  verify_reason = e.verification_reason;
}

event_keyed-event_at :
    (tenant_id key : String) (es : List EventRow) {e : EventRow}
    → event_at tenant_id key es ≡ some e
    → event_keyed tenant_id key es ≡ some e.id
unfolding event_keyed
event_keyed-event_at tenant_id key [] h = cc
event_keyed-event_at tenant_id key (x ∷ es) h =
    elim (Bool-cases (x.tenant_id == tenant_id && x.dedupe_key == key)) [
      | inl here ↦ rw here (ap (λ (y : EventRow). some y.id) (some-eq (rw here at h)))
      | inr there ↦ rw there (event_keyed-event_at tenant_id key es (rw there at h))
    ]

module _ (lookup_adapter_version : String → String) (tenant_id key : String) (e : EventRow) where
  stays_lem :
      (ids : FreshIds) (input : CaptureInboundInput) (t : Tables) (o : Option String)
      → event_keyed input.source.tenant_id input.event.dedupe_key t.events ≡ o
      → event_at tenant_id key t.events ≡ some e
      → event_at tenant_id key (capture_for lookup_adapter_version ids input t o).1.events ≡ some e
  unfolding capture_for insert_receipt insert_event event_row
  stays_lem ids input t (some first) taken h = h
  stays_lem ids input t none free h =
      elim (Bool-cases (input.source.tenant_id == tenant_id && input.event.dedupe_key == key)) [
        | inl same ↦
            let (by_tenant, by_key) = and-eq-true _ _ same in
            let tenant = (eq_iff input.source.tenant_id tenant_id).0 by_tenant in
            let under = (eq_iff input.event.dedupe_key key).0 by_key in
            let taken = event_keyed-event_at tenant_id key t.events h in cc
        | inr other ↦ rw other h
      ]

  run_captures-event_at :
      (history : List Capture) (t : Tables)
      → event_at tenant_id key t.events ≡ some e
      → event_at tenant_id key (run_captures lookup_adapter_version history t).1.events ≡ some e
  run_captures-event_at [] t h = h
  run_captures-event_at ((ids, input) ∷ history) t h =
      run_captures-event_at history (capture_inbound lookup_adapter_version ids input t).1
        (unfold capture_inbound in stays_lem ids input t _ refl h)

  -- Once a webhook is captured without a valid signature, its event stays the one of its key through
  -- every later capture, verified ones included, and it is not routable: whatever the options, as long
  -- as its reason is not that of a reconciliation. A later genuine webhook under the key creates no
  -- delivery.
  pub unverified-event_at :
      (history : List Capture) (t : Tables) (opts : DeliveryFanoutOptions)
      → event_at tenant_id key t.events ≡ some e
      → e.signature_verified ≡ false
      → e.verification_reason ≢ "provider_api_reconciliation"
      → (event_at tenant_id key (run_captures lookup_adapter_version history t).1.events ≡ some e)
        × (is_routable opts (fanout_event e) ≡ false)
  unfolding is_routable
  unverified-event_at history t opts found unverified reason =
      (run_captures-event_at history t found, rw (unverified, other) (both opts.allow_recovered))
    where
      other : (e.verification_reason == "provider_api_reconciliation") ≡ false
      other = elim (Bool-cases (e.verification_reason == "provider_api_reconciliation")) [
        | inl same ↦
            absurd (reason ((eq_iff e.verification_reason "provider_api_reconciliation").0 same))
        | inr apart ↦ apart
      ]

      both : (allow : Bool) → not (true && (not allow || true)) ≡ false
      both true = refl
      both false = refl
