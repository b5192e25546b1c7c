-- ===== src/Lib.antt =====
-- The recording controller decides whether a call may be recorded, keeps what it decided in
-- PostgreSQL, and has a worker ask Aircall to resume the recording. Several flows share the code, among
-- them an audit flow that never controls a recording, and a control flow behind a kill switch.
--
-- The audit flow: consent-decision-service.mjs takes an event, claims its key in the store of
-- postgres-consent-decision-store.mjs, resolves the lead with consent-resolver.mjs over the lookups of
-- monday-callback-adapter.mjs, classifies the lead's state with consent.mjs and finalizes the decision
-- under its lease. Its ingress is audit-only-receiver.mjs.
-- The control flow: recording-control-policy.mjs authorizes a request, the outbox of
-- postgres-recording-action-store.mjs carries it to a worker, and aircall-recording-client.mjs sends
-- it; aircall-recording-event.mjs normalizes the webhooks that events come from.
-- The two-party flow: a call that needs the consent of two parties is decided when it is answered, and
-- two-party-retention-finalizer.mjs, over the store of postgres-two-party-retention-store.mjs, is to
-- delete its recording and to clear its link.
-- simple-state-recording-runtime.mjs is a controller of its own, which pauses the recordings of calls in
-- states of two parties.
-- legal-ruleset-review.mjs validates the structure of legal-review records; no flow calls it.
--
-- Base             texts as lists of UTF-16 code units, Boolean tests, outcomes that may throw
-- Js               JavaScript values, objects on a heap with property descriptors, and proxies
-- Consent          consent.mjs: normalizeState (States), the ruleset (Rulesets), the classifier
-- ControlPolicy    recording-control-policy.mjs: the copy of plain data (Snapshot) and the tests
-- ConsentResolver  consent-resolver.mjs: one item (Leads) and the resolution of a call
-- ConsentStore     postgres-consent-decision-store.mjs: claim, finalize, release and close
-- DecisionService  consent-decision-service.mjs over any store (Envelope: what it reads), and over
--                  the store of ConsentStore (Durable)
-- ActionStore      postgres-recording-action-store.mjs: claim to prepareDispatch; Requests holds
--                  enqueueApprovedAction and recordDecision, Dispatch the dispatch fence, and History
--                  all of them in any order
-- ActionWorker     recording-action-worker.mjs: one run over any store
-- LegalReview      legal-ruleset-review.mjs, with the times that it reads (Times)
-- AircallClient    aircall-recording-client.mjs
-- Retention        postgres-two-party-retention-store.mjs (Actions: claims and transitions) and
--                  two-party-retention-finalizer.mjs (Requests, Finalizer), and both in any order
--                  (History)
-- AuditReceiver    audit-only-receiver.mjs: its configuration (Config), what becomes of a request and of
--                  its body, down to the decision service (Requests), and its probe (Readiness)
-- MondayAdapter    monday-callback-adapter.mjs: its configuration and items, and the lookups of leads for
--                  ConsentResolver (Lookup)
-- StateRuntime     simple-state-recording-runtime.mjs: its settings and tests, resolveItem (Lookup) and
--                  the handling of an event (Handler)
-- AircallEvent     aircall-recording-event.mjs: the normalization of a webhook body
-- The Examples modules run the code on small inputs.
--
-- A call of a store is one transaction, and so one step; the database's time is its argument, and a
-- Connection or a Weather says where the connection fails, before or after the COMMIT, and an Outside
-- how the calls of one run or one event end. `JSON.parse`, SHA-256, encryption, the random tokens,
-- fetch and the adapters are parameters, and a theorem says what it needs of them, if anything. A proxy
-- is one whose traps throw.
--
-- The copy of plain data runs on fuel, one more than the number of objects on the heap: a path that
-- visits no object twice cannot be longer. All other loops are structural. An ISO time counts
-- milliseconds from the beginning of the year 0.
--
-- Not modelled: the servers of node:http and their sockets, the other receivers, the processes and their
-- environment, the command lines, the migrations, the activation's signature, the older two-party
-- finalizer, the Timberline workers, and the adapter of the Sales Board; of the action
-- store, the decryption of a context, readiness and the parsing of keys.
pub mod Base
pub mod Js
pub mod Consent
pub mod ControlPolicy
pub mod ConsentResolver
pub mod ConsentStore
pub mod DecisionService
pub mod ActionStore
pub mod AircallClient
pub mod LegalReview
pub mod AircallEvent
pub mod ActionWorker
pub mod Retention
pub mod AuditReceiver
pub mod StateRuntime
pub mod MondayAdapter
