-- ===== src/Lib.antt =====
-- The distributed task platform: jobs are rows in PostgreSQL, their ids wait in Redis lists, workers
-- claim and run them, a scheduler repairs what crashes and lost messages leave behind, an HTTP
-- interface creates, cancels and retries them, and a runtime
-- orders plugins and compiles workflow definitions.
--
-- The parts and the code they model:
--
-- Jobs: the rows, statuses, priorities and queue names (services/*/prisma/schema.prisma,
-- shared/constants/redis.ts).
--
-- Effects: what the services call and do not contain: Prisma, Redis, the clock, Math.random. A
-- handler is a tree of awaited calls (`Prog`); the answer of a call, or its failure, comes from
-- outside. `try_catch` is try/catch, `fire_and_forget` a promise whose failure is only logged.
-- Effects/Interleave is a system of such handlers over one `Store`, served one call at a time in
-- any order; what it asks of a store is that a call changes a row at most as it says. Effects/Lawful
-- has the invariants of those systems, Effects/Single the rules for one handler that runs alone on
-- a store where no call fails (`IsReliable`).
--
-- Worker: services/worker-service/src (worker.ts processOneJob, queue/consumer.ts waitForJob,
-- utils/retry.ts, services/worker.service.ts, progress.service.ts, event.service.ts).
-- Worker/Claim, Worker/Success and Worker/Failure follow one job through processOneJob.
-- Worker/Payload, Worker/Handlers and Worker/Processor are processors/job.processor.ts: what it reads of
-- a payload, the handler of each job type, and processJob. Processor/Quiet, Processor/Guards and
-- Processor/Ssrf are about the requests that it sends, Processor/Progress and Processor/Reported about
-- what it writes to job rows.
--
-- Scheduler: services/scheduler-service/src (retry.service.ts, pending-reconciler.service.ts,
-- recovery.service.ts, worker-monitor.ts, backoff.service.ts, queue.service.ts).
-- Scheduler/Outcomes follows one row through two of the sweeps. Scheduler/Leader is the election
-- (leader-election/leader.service.ts and the loop of scheduler.ts) as a step relation over schedulers
-- that share one key of Redis; Leader/Lease, Leader/Election and Leader/Turns are about it.
--
-- Api: services/api-service/src (services/job.service.ts, repositories/job.repository.ts,
-- controllers/job.controller.ts), with the service in Api/Jobs/Creation and Api/Jobs/Access;
-- Api/Refusals is about the requests that are refused. Api/RateLimit is
-- middleware/rate-limiter.middleware.ts, Api/Auth is middleware/auth.middleware.ts with
-- services/auth.service.ts and controllers/auth.controller.ts, and Api/Webhooks is integration
-- (webhook-dispatcher.service.ts, execution-event.mapper.ts, webhook.client.ts); their child modules
-- are about them.
--
-- Json: the JSON values of payloads and results, with `?.`, `??` and spreads.
--
-- Safety: all of these handlers at work on one table, in any interleaving; Safety/Platform with the
-- repository's own job processor.
--
-- Workflow: runtime/workflow/compilation-service.ts. Workflow/Graph has its two searches,
-- Workflow/Compile the compiler; Workflow/Reachable, Workflow/CycleSearch, Workflow/CycleVerdict and
-- Workflow/Acyclic are about the searches, Workflow/WellFormed, Workflow/Translation and
-- Workflow/Compiled about compile.
--
-- Plugins: runtime/plugins/dag.ts. Plugins/Dag has the class; Plugins/Order, Plugins/Visits and
-- Plugins/Resolved are about the order that it finds. Plugins/Registry is runtime/registry, and
-- Plugins/Manager runtime/plugins/plugin-manager.ts; their child modules are about them.
--
-- Builder: apps/dashboard/src/builder (state/builder-store.ts, commands/node-commands.ts,
-- commands/edge-commands.ts, history/history-manager.ts, commands/clipboard-commands.ts).
-- Builder/Canvas, Builder/Commands and Builder/Clipboard have the code, Builder/Undo is about undo and
-- redo, Builder/Copies about pasted and duplicated nodes, Builder/Deletion about deleted selections.
-- Builder/Validator is validation/builder-validator.ts, and Validator/Wiring what it decides.
--
-- Examples: a store in memory and the theorems at concrete inputs.
--
-- How the code is written down: identifiers are compared only for equality and are numbers; times are
-- milliseconds; JSON values that are only passed on are their text; Math.random() is a number over 2 ^
-- 53 that may be 2 ^ 53, which stands for the rounding of doubles as well; metrics and console output
-- are left out. An awaited database statement is one atomic call, and the completion transaction is
-- one call. A request's calls of the rate limiter are made without those of another request in
-- between.
--
-- Bounds: waitForJob runs for a given number of rounds, since it polls until it is told to stop, and
-- the answer `polling` says that they are used up. findReachable has as many rounds as the tasks have
-- edges, and one more: each round takes one entry off the stack, and each task is expanded once. dfs
-- goes as deep as there are tasks, and one more: each nested call paints a white task. visit goes as
-- deep as there are plugins, and one more: each nested call enters a new plugin. The loop
-- that delivers a webhook makes at most four sends and one more test of its condition.
--
-- Not modelled: the worker's loop around processOneJob, the metrics and health routes, the template and
-- expression engines, the plugins, the rest of the dashboard, and the lab scenarios.
mod Prelude
pub mod Json
pub mod Jobs
pub mod Effects
pub mod Worker
pub mod Scheduler
pub mod Api
pub mod Safety
pub mod Workflow
pub mod Plugins
pub mod Builder
mod Examples
