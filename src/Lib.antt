-- ===== src/Lib.antt =====
-- Tenara is a platform that builds, deploys and operates web applications. This library models
-- the core of its control plane, the packages under control-plane/internal, and the decisions of
-- its analyzer, its verifier and its controllers, with what makes each of them correct. Paths
-- below are relative to control-plane/internal where they name no other top folder.
--
-- How the parts interact. A document is parsed and validated (appspec); a user whose role allows
-- it (rbac) deploys the app, one deploy at a time (the deploy locks of orchestrator), in the
-- cell of the organization (cells), within the limits of the organization and of the token
-- (limits). The app moves through the states of the orchestrator's table, each move with its
-- audit row; a release that fails is repaired (repair) or rolled back to an earlier revision,
-- and an app that is given up is deleted step by step. Before that, the analyzer renders the
-- document from a source tree and the plan generator shows what would be created; after a deploy
-- the verifier's report decides between RUNNING and DEGRADED, and its diagnosis names the cause
-- of a failure. GitHub deliveries open and close previews, and a mutation with an idempotency
-- key runs once. A request comes in with a token and an organization (auth); its handler (apps)
-- reads and writes the tables of the apps: a spec is stored, a plan is made of it and saved, and
-- its approval moves the deployment to PLANNED and applies the app's manifest to the cluster.
--
-- Files and code:
--   Prelude: Go's maps as lists of entries, `(T, error)` as `Outcome`, Boolean tests, lemmas.
--   Orchestrator/Deploy: orchestrator/deploy_state.go, states, table, Transition. Table and
--     Paths reason on the table and on sequences of moves.
--   Orchestrator/Locks: DeployLocks of deploy_state.go (NewDeployLocks, Acquire, Release).
--   Orchestrator/Lifecycle: orchestrator/lifecycle.go (GuardRestart, GuardStop, GuardStart,
--     ReplicasFor, SuspendRoute).
--   Orchestrator/Rollback: orchestrator/rollback.go (ResolveRollbackTarget, PlanRollback).
--   Orchestrator/Delete: orchestrator/delete_pipeline.go (NextDeleteStep, RetentionPeriod,
--     SoftDeleteUntil, PurgeAllowed, RestoreWindowOpen).
--   Rbac: rbac/rbac.go (Can, IsValidRole).
--   Limits/Bucket (with Limits/Retry on its hint), Limits/Limiter, Limits/Gate: limits/limits.go
--     (tokenBucket.allow, RateLimiter.Allow, BuildGate.TryAcquire and Release).
--   Repair: repair/repair.go (CanTrigger, Loop.Run).
--   Cells: cells/cells.go (Register, Assign, RouteForOrg, TargetForOrg, FleetByCloud,
--     AffectedApps, AssignedOrgs).
--   AppSpec/Spec, AppSpec/Cron: appspec/spec.go (Parse, validate) and appspec/cron.go
--     (ValidateSchedule). Bytes has the functions of strings and strconv that they use.
--   Orchestrator/Plan: orchestrator/plan/generator.go (Generate). Names are sorted by code
--     points.
--   Previews: previews/webhook.go (DecidePRAction, VerifySignature, ReplayGuard.Allow,
--     ServeHTTP).
--   Billing: billing/plan.go (PlanFor), billing/invoice.go (AggregateInvoice),
--     billing/payment.go (CreateCheckout, HandleWebhook, TierStore).
--   Analyzer: analyzer/internal/generator (Generate, buildRouting, buildDatabase).
--   Idempotency: auth/idem.go (idem up to and after the handler, ClaimIdempotency,
--     LoadIdempotentResponse, CompleteIdempotency, CleanupExpiredIdempotency). A table is a
--     function of key and organization, and a row lives as long as the schema's default for
--     expires_at.
--   Drift: controllers/internal/appenv/drift.go (SecurityDrift, MissingNetPols,
--     DetectReplicaDrift).
--   SecurityEvent: securityevent/event.go (Validate).
--   Apps (rows, errors and lookups), Apps/Slug, Apps/Create, Apps/Environments, Apps/Plans,
--     Apps/Releases, Apps/Domains, Apps/Databases: apps/store.go, deployments.go, domains.go and
--     databases.go, a function for each method of Store. Apps/History has them as the steps of a
--     history.
--   Apps/Handlers, Apps/Planning, Apps/Deploying, Apps/Bindings: apps/handlers.go and
--     secrets_handlers.go, a function for each handler, with provision/appenv_obj.go and
--     build_obj.go. Apps/Refusals has them as the calls of one request; Apps/Creation, Approval,
--     PlanToDeploy and Careful reason on them.
--   Kms, Secrets: kms/kms.go and secrets/service.go (SetSecret, ListSecrets, Reveal).
--   Accounts: auth/store.go, with Accounts/Tokens and Accounts/Signups on its tokens and its
--     limit.
--   Accounts/Members: auth/members.go, handler.go (resolveBearer) and apitoken.go
--     (DefaultOrgForUser, ResolveAPIToken).
--   Verifier/Report: verifier/internal/verify (Aggregate, ValidateComplete, StepName).
--   Verifier/Diagnose: verifier/internal/diagnose (Classify).
--
-- State and errors. A record stands for a struct, and an operation on it takes the record and
-- gives the new one beside its result. A mutex makes each operation one step, so that an
-- interleaving of callers is a list of operations. An error is a constructor with what the
-- source formats into it.
--
-- Tables. A table of Postgres is the list of its rows, newest first, and a statement is a
-- function on the tables, with the schema's constraints. An operation of several statements is
-- one step, as if it ran in a transaction: what a race between its statements may do is not
-- modelled, except that ApprovePlan is its SELECT and its UPDATE, between which the writes of
-- other approvals may come. Ids and times that the database generates, and tokens that are
-- drawn, are arguments, so that a theorem holds for all of them. The ids that clients send are
-- parsed into the canonical text of a UUID; the two forms that uuid.Parse accepts and the driver
-- refuses, in braces or after urn:uuid:, are not modelled. A jsonb column keeps the text that
-- its cast gives for the document written, and the cast fails on a text that is no JSON; the
-- snapshot of a plan is read through the column likewise, by the decoder of its expiry. Where an
-- answer repeats the id of an app as the client wrote it, the model has the canonical text. The
-- columns updated_at and last_used_at, which nothing reads, are left out.
--
-- Numbers. An instant is a count of nanoseconds. The token bucket counts in ticks, of which a
-- token has as many as a minute has nanoseconds, so that its arithmetic is exact: the source's
-- float64 is this up to rounding, which is not modelled; likewise an invoice counts minutes and
-- core-hours in millionths. Revision numbers and attempt numbers are natural numbers; the ids of
-- deletion steps and the values of the cron grammar are integers, and a number that does not fit
-- int64 is refused as strconv refuses it.
--
-- Loops. The repair loop runs on fuel, one more than the cap of attempts, which is enough
-- because the gate refuses the round after the cap. All other loops are recursion on the list
-- they range over.
--
-- Texts are lists of code points, which are their bytes if the text is ASCII; other white space
-- of Unicode is not modelled. Host names are ASCII: strings.ToLower and the column of type
-- citext fold other letters too.
--
-- Parameters: the JSON decoder, the cast to jsonb, SHA-256 and HMAC-SHA256 in hexadecimal,
-- strconv.ParseFloat, the hooks of the previews as functions of the number, the patch source,
-- the apply step and the auditor of the repair loop, UUID and address parsing, the AEAD cipher,
-- the JWT parser, the DNS resolver, the order of texts of the database, the encoder of plans
-- with the decoder of their expiry, and the label that marks the objects of the controllers.
--
-- Not modelled: failures of the database, sessions and password hashes, the handlers of
-- registration, login and API tokens, the GitHub login, metering, the query of logs, the table
-- that gates the routes, the boundary of the analyzer, the Kubernetes controllers, the clients
-- of storage and cloud providers, generated code, and the web console.
pub mod Prelude
pub mod Bytes
pub mod Orchestrator
pub mod Rbac
pub mod Limits
pub mod Repair
pub mod Cells
pub mod AppSpec
pub mod Verifier
pub mod Previews
pub mod Billing
pub mod Analyzer
pub mod Apps
pub mod Accounts
pub mod Kms
pub mod Secrets
pub mod Idempotency
pub mod Drift
pub mod SecurityEvent
