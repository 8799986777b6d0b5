-- ===== src/Lib.antt =====
-- Sheeld, an LLM gateway with guardrails: its data plane's core, and the control plane's services.
--
-- A request to the gateway is authenticated by API key against the configuration held in memory,
-- and handed to the processor. The processor finds the organization's source, rewrites the request's
-- messages with the source's input transformers, has the input guards judge it, calls the LLM,
-- rewrites the response with the output transformers, has the output guards judge that, and returns
-- the response or a rejection. Guards and transformers are built from the configuration by registries.
--
-- The control plane keeps the organizations' sources, guardrails and transformers in a database, behind
-- services that check what they are given, query by organization, and redact stored secrets. Its API authenticates a request by its token, limits its rate, has one handler decode it
-- and call one service, and replies with what the service says. The data plane answers the API's queries
-- about its audit log, and prunes it.
--
-- The files, and the code that they are about:
--   Prelude: shared names, Boolean tests, lists, Go strings as lists of bytes, errors as values.
--   Json: the values of encoding/json.
--   Guard, Guard/Engine: internal/shared/guard (guard.go, scope.go, meta.go, engine.go). `run` is
--     `Engine.Run`; Guard/Engine/Schedule has its goroutines as steps that write one slot each.
--   Registry: registry.go of internal/shared/guard and internal/shared/transform.
--   Transform, Transform/Placeholders: internal/shared/transform (transform.go, state.go).
--   Transform/Presidio, Transform/Deanonymize: presidio.go and deanonymize.go there.
--   Llm, Llm/Codec, Llm/Response: internal/shared/llm/types.go. Llm/Client: client.go.
--   Domain: internal/shared/domain/workspaceconfig.go.
--   BackendConfig, BackendConfig/Apply: internal/dataplane/backendconfig/store.go. The store's atomic
--     pointer is the value `current`; `Apply` returns its error and the store after it.
--   BackendConfig/Poller: internal/dataplane/backendconfig/poller.go.
--   Processor, Processor/Report: internal/dataplane/processor/processor.go. `execute` returns the
--     result and a trace: LLM calls, audit records, alerts, outcome counts.
--   Gateway, Gateway/Split: internal/dataplane/gateway (handler.go, stream.go, auth.go, router.go).
--   RateLimit: internal/shared/middleware/ratelimit.go.
--   AuditStore: internal/dataplane/auditstore/writer.go. AuditStore/Logs: handler.go there, with the queries
--     of internal/dataplane/db/generated/audit_logs.sql.go. AuditStore/Pruner: pruner.go.
--   Alert: internal/dataplane/alert/notifier.go.
--   ControlPlane, ControlPlane/Table, ControlPlane/Queries: internal/controlplane/db (generated, queries,
--     migrations). A table is the list of its rows in the order of their creation.
--   ControlPlane/Redaction, Guardrails, Sources, Transformers: internal/controlplane/service (sanitize.go,
--     guardrail.go, source.go, transformer.go). A method takes the database and returns its result and
--     the database after it. ControlPlane/Accounts: alert.go, and the API keys of auth.go.
--     ControlPlane/Calls has the methods that write as the calls of a client.
--   ControlPlane/Authentication: registration, login and tokens of service/auth.go.
--   ControlPlane/Api: internal/controlplane/api. A handler of the directory handler takes the request and the
--     database and returns its response and the database after it; Api/Handlers has what each does, in
--     terms of the calls. Api/Router: router.go and the directory middleware. Api/Shapes: the bodies of
--     replies.
--   ControlPlane/Builder: internal/controlplane/workspaceconfig/builder.go. Builder/Served puts it together
--     with the data plane's store.
--   Samples and the modules called Tests: concrete values, runs and instances of the theorems.
--
-- State is passed explicitly, a Go map is an association list, and an error is a value. Identifiers
-- (UUIDs) are numbers, and 0 is `uuid.Nil`. Limits of a rate, which Go keeps as floats, are integers of
-- a fixed scale. Where Go wraps an error in more text the model keeps the inner text. The retry loop
-- of the client runs on the number of attempts left, which is the code's own bound. The loop of
-- `splitContent` runs on fuel, one unit per byte: each round cuts off at least one byte, so the fuel
-- suffices, and the bound on the length of each piece would fail if it did not. A sweep of the pruner
-- runs on fuel, one unit per query: every query but the last deletes a full batch, so one unit more than
-- there are full batches of rows suffices.
--
-- Parameters of the model: what a guard's check and a transformer's rewriting return, the network and
-- the context of an LLM call, the hash of an API key, the token buckets of golang.org/x/time/rate, the
-- audit database, what the control plane answers to a poll, what Presidio's services answer, the
-- encryption of a source's key, the digest of a configuration, the random part of a new API key, the
-- database's order of texts, the check of a URL, `strings.ToLower`, the decoding of a request's body and
-- of identifiers and times, bcrypt, golang-jwt, and the exchange of the control plane with the data
-- plane. Not modelled: durations, logs, metrics other than the outcome counter, the delivery of an alert,
-- the matching of paths to routes, the analytics of the audit log, the model catalog, the URL policy, and
-- the built-in guards and the factories of guards and transformers, which match regular expressions or
-- call other services. A query of the control plane fails only for a
-- missing row or a broken constraint; a database that does not answer is left out.
mod Prelude
mod Samples
pub mod Json
pub mod Registry
pub mod Domain
pub mod BackendConfig
pub mod Guard
pub mod Llm
pub mod Transform
pub mod Processor
pub mod Gateway
pub mod RateLimit
pub mod AuditStore
pub mod Alert
pub mod ControlPlane
