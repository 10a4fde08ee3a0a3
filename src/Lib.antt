-- ===== src/Lib.antt =====
-- The guarded core of the Auxify AI platform, modelled from services/core and packages/types.
--
-- Every request of the platform passes through a few decision procedures. The Access_Control decides
-- whether a principal may perform an action; it asks the Policy_Engine and audits each denial. The
-- Model_Router picks a model for a chat request and falls back along a chain of models; which models
-- it may pick is decided by the model gates of the Access_Control, over the catalog of the model
-- registry. The Billing_Guard decides whether an external dependency may be adopted, and audits each
-- block. The Budget_Manager adds up what requests cost, raises alerts, and refuses a request where a cap is
-- reached. The Scheduler fires a workflow at the times of its cadence; the workflow executor runs its steps in order
-- and hands each step the outputs of earlier ones. The Agent_Runtime lets a model call tools, each behind its gates,
-- until it answers or a limit stops it. The Device_Manager lists and ends the sessions of a user.
-- The Cache_Manager keeps the results of searches and scrapes, and lets callers share a computation.
-- The Security_Gateway stands before all of them: it screens each request, and limits the rate of
-- requests for each user, key and address.
--
-- Files and what they model (paths from the repository's root):
--   Prelude            shared tests on numbers and texts, lists, a stable sort, maps with text keys, the UTC
--                      calendar of JavaScript's Date
--   Identity           packages/types/src/identity.ts, models.ts
--   Policy             services/core/src/policy/types.ts, policy-engine.ts, policy-repository.ts
--     Policy/Repository    PolicyEngine.resolve and its reads, over the tenant-scoped selectRows of
--                          services/core/src/repositories/base-repository.ts, sql.ts, errors.ts
--     Policy/Scope, Policy/Grants, Policy/Resolution: proofs on one level, on precedence, on resolve
--   Access             services/core/src/access/types.ts, model-access.ts, access-control.ts
--     Access/Models, Access/Conditions, Access/Stages, Access/Audit, Access/Tenancy: proofs on the
--     gates, each stage, the pipeline, the audit trail, and the pipeline wired to the Policy_Engine
--   Billing            services/core/src/billing-guard/types.ts, billing-guard.ts
--     Billing/Governance: proofs
--   Router             services/core/src/router/types.ts, errors.ts, packages/types/src/providers.ts
--     Router/Permissions   model-permission-resolver.ts
--     Router/AutoMode      hybrid-routing-layer.ts, providers/capabilities.ts; proofs in its children
--     Router/Chain         buildFallbackChain of fallback.ts; proofs in its children
--     Router/Execution     the rest of fallback.ts; proofs in its children
--   Registry           services/core/src/providers/types.ts, model-registry.ts
--     Registry/Providers, Registry/Validity, Registry/Loading, Registry/Availability: proofs
--   Workflow           services/core/src/scheduler/types.ts, workflow-graph.ts, workflow-executor.ts
--     Workflow/Graph       workflow-graph.ts; proofs in its children
--     Workflow/Run         workflow-executor.ts; proofs in its children
--   Agent              services/core/src/agent/types.ts, agent-runtime.ts
--     Agent/Step           executeToolStep
--     Agent/Run            run and finalize; Account, Limits, Report: proofs on one round, the loop, a run
--   Scheduler          services/core/src/scheduler/cadence.ts, the cadences of types.ts
--     Scheduler/Cron       cron expressions; its children: proofs; Scheduler/Due: proofs on due times
--     Scheduler/Ticks      scheduler.ts; Rounds, Keys, Firings, Steps, Slots: proofs on one tick, the map of
--                          schedules, a sequence of ticks, one schedule, and the slots that fire
--   Budget             services/core/src/budget/types.ts, period.ts; Budget/Windows: proofs on the windows
--     Budget/Store         fakes.ts, the in-memory stores
--     Budget/Manager       budget-manager.ts: setBudget, consumed and evaluate; Enforcing has enforce, with
--                          proofs in Verdict, and Recording recordUsage; Setting, Consumption, Reconciling, Crossings, Alerts: proofs
--   Device             services/core/src/device/types.ts, device-manager.ts, fakes.ts, and the session store of
--                      services/core/src/auth/types.ts, fakes.ts; Device/Revoking, Device/Listing: proofs
--   WebCache           services/core/src/web-cache/web-cache-manager.ts, types.ts, and the cache of
--                      services/core/src/storage/memory.ts; WebCache/Waiting, WebCache/Account,
--                      WebCache/Flights: proofs
--   RateLimit          services/core/src/security-gateway/types.ts, rate-limiter.ts
--     RateLimit/Counters, RateLimit/Windows, RateLimit/Recording: proofs
--   Gateway            services/core/src/security-gateway/types.ts, security-gateway.ts
--     Gateway/Stages: the pipeline; Gateway/Endings, Gateway/Admission, Gateway/Reasons, Gateway/Audit: proofs
--     Gateway/Limits: proofs on the pipeline wired to the rate limiter
--   Examples           tests, and each theorem at a concrete input
--
-- How state and effects are written. A class that keeps no state of its own is a function of its
-- ports (a record of functions). A promise that rejects is `none`, and a call returns what it stored
-- or sent next to its result: the audit events of a decision, the models a route called, the outcomes
-- it recorded. The state of a class
-- that keeps one, the rate limiter's counters, the registry's catalog, the Scheduler's map and the budget
-- stores, is passed in and returned.
-- An asynchronous generator is the list of its chunks with the error it ends in, if any. Numbers are
-- natural: costs and prices are whole units of a fixed small fraction of the currency, times are in
-- milliseconds. Where the source subtracts, the model says what a negative result does.
--
-- Bounds and fuel. A loop that goes once through a list is structural recursion on it. The agent's loop
-- has fuel, one round more than the step limit, which is enough because each round but the last adds a
-- step. The search for a cron time has the rounds of the source's loop up to its horizon; the values
-- of a cron range have one round for each number from the first to the last, and a step is at least 1.
-- Array.prototype.sort is an insertion sort, which is stable.
--
-- Not modelled: the reason texts of decisions; the derivation of cache keys; the splitting of a cron expression's text and the reading
-- of its numbers; times before 1970 and times or amounts that are not whole numbers, or negative; ISO texts of
-- instants; a trigger that calls the Scheduler back; the wall clock and the runtime's timers, whose effect
-- on a call (a timeout) is one of the call's possible ends; the regular expressions of the heuristic
-- classifier, which are a parameter; the SQL database, which is the parameter
-- `query` that runs a statement's conditions; the HTTP
-- application, the web client and the other services, which are listed in the manifest.
pub mod Prelude
pub mod Identity
pub mod Policy
pub mod Access
pub mod Billing
pub mod Router
pub mod Registry
pub mod Workflow
pub mod Agent
pub mod Scheduler
pub mod Budget
pub mod Device
pub mod WebCache
pub mod RateLimit
pub mod Gateway
pub mod Examples
