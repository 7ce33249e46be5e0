-- ===== src/Lib.antt =====
-- A verification library for webhookery, a receiver and deliverer of webhooks written in Go.
--
-- The program accepts webhooks over HTTP, captures them, fans events out to endpoints, delivers
-- them with retries, and records an audit event for each change in one hash chain per tenant.
-- What is modelled is the logic between the adapters: values, guards, loops and records. Each
-- file opens with the code it is about; paths are from the root of the repository.
--
-- Retry (internal/retry/retry.go): a `time.Duration` is an integer that wraps at 64 bits.
--   `delay_cap` is delayCap with its doubling loop on the rounds that are left, which is the loop
--   variable counted downwards; `next_delay` is NextDelay over an abstract generator, and
--   `next_deterministic_delay` is NextDeterministicDelay over an abstract SHA-256.
-- Deliveries (internal/adapters/postgres/store.go): `record_delivery_attempt` is
--   RecordDeliveryAttempt, which reads a retry policy and writes the delivery, its endpoint, an
--   attempt and a dead letter, or nothing when PostgreSQL refuses the attempt's row: which bytes it
--   takes for a text, and which tenants and events exist, are the fields of `Database`; Deliveries/Queue.antt has ClaimDueDeliveries, RetryDelivery,
--   CancelDelivery and the update of ReleaseDeadLetter. `Step` is one such operation. Which of
--   the due deliveries a claim takes is an argument: their ranking and the limit are not modelled.
-- Authz (internal/authz/policy.go, internal/app/authorization.go, and actorScopesAllow in
--   internal/app/enterprise_identity.go): `can` is Can, `authorize` is Authorize. The answer of
--   the enterprise store is a parameter, which Access fills.
-- Worker (internal/worker/worker.go): `run_once_report` is RunOnceReport, as the list of its phases
--   and what each does; the stores and clients are records of operations. The outbox phase hands
--   items to Fanout, and the delivery phase claims and records the rows of Deliveries.
-- Fanout (internal/app/delivery_fanout.go): the store is a record of operations on an abstract
--   state, as DeliveryFanoutStore is an interface; `process_outbox` is ProcessOutbox, and the
--   operations have the names of the methods. The deliveries that it asks for are the ones that
--   Deliveries then claims and attempts. An operation returns the state with its result also on an
--   error, because each store call is a transaction of its own.
-- Access (internal/adapters/postgres/enterprise_identity.go and internal/app/enterprise_identity.go):
--   `explain_authorization` is ExplainAuthorization on tables, the store that `authorize` of
--   Authz.Request asks; `authorized` composes the two as the control service does. Admin and Bindings
--   are the calls that create, update and disable access policy rules and role bindings.
-- Replay (internal/app/control.go and internal/adapters/postgres/store.go): `create_replay` and
--   `change_replay_state` are the calls of the control service on replay jobs, `insert_replay`,
--   `approve_replay_job`, `update_replay_state`, `start_replay_job` and `complete_replay_job` the
--   store's. Fanout runs a started job.
-- Provider (internal/provider/provider.go and internal/provider/declarative.go): `verify` is Verify of
--   each adapter; the built-in ones read headers, tokens and bodies, and `declarative_verify` follows a
--   tenant's definition. JSON, base64, HMAC-SHA-256 and RFC 3339 are the fields of `Codec`.
-- Ingest (internal/app/service.go, internal/adapters/postgres/store_ingest.go): `capture` is
--   IngestService.capture, `inbound_of` what it hands to the store, `capture_inbound` CaptureInbound on
--   tables. Ingest/Ledger.antt is the abstract ledger of keys that it implements. The events that it
--   stores, and their outbox items, are what Fanout reads.
-- Policies (internal/app/control.go and internal/adapters/postgres/store.go): `create_retry_policy`
--   is CreateRetryPolicy with validateRetryPolicy and the row that it inserts, which Deliveries reads
--   back as a policy of Retry; Policies/Update.antt has UpdateRetryPolicy and DeleteRetryPolicy.
-- Ssrf (internal/ssrf/ssrf.go and internal/ssrf/transport.go): `blocked_addr` is blockedAddr on
--   addresses as numbers, `validate` is Validate, `dial_context` is DialContext up to the call of the
--   inner dialer. Parsing of URLs and addresses, IDNA and the resolver are fields of `Web`.
--   NormalizedURL is not modelled.
-- Transform (internal/transform/transform.go): documents are trees; `set_at` is parentForSet and
--   the assignment of setValue, on the way down and back up the tree instead of in place.
-- Verifier (pkg/verifier/verifier.go): `verify_timestamped_hmac` is VerifyTimestampedHMAC, with the
--   saturation and the wrap of 64-bit durations. HMAC-SHA-256 and base64 are parameters, as bytes.
-- AuditChain (internal/auditchain/chain.go, the chain functions of
--   internal/adapters/postgres/store.go and verifyAuditChainProof of
--   internal/evidence/bundle.go): `compute_entry` is ComputeEntry, `record_audit_event` is
--   recordAuditEventTx, `backfill_tenant_audit_chain` is backfillTenantAuditChain. The tables of
--   one tenant are the state. SHA-256, the time format and fresh ids are the fields of `Platform`.
--
-- All parts share Common: Go's text functions over code points, errors as
-- values (`Result`), 64-bit integers, decimal numbers and the JSON of a record of texts. Loops
-- over lists are structural recursion, so that no fuel is needed.
--
-- Not modelled: SQL itself (a transaction is one step on the rows that it reads and writes), HTTP
-- handlers and the user interface, configuration, migrations, the command line tools, object
-- storage, and the clients in other languages: they are input and output around this logic. Of the
-- logic itself, normalization of payloads, OIDC logins, SCIM, incidents, schemas, reconciliation and
-- the archives of evidence bundles are left out, and the audit events of the changes in Access and
-- Replay.
pub mod Access
pub mod AuditChain
pub mod Authz
pub mod Common
pub mod Deliveries
pub mod Fanout
pub mod Ingest
pub mod Policies
pub mod Provider
pub mod Replay
pub mod Retry
pub mod Ssrf
pub mod Transform
pub mod Verifier
pub mod Worker
mod Tests
