-- ===== src/Lib.antt =====
-- glsync receives GitLab webhooks, decides to which workflow state an event moves the Jira issues
-- that it names, and lets a worker make the transitions. The parts, and the files that model them:
--
--   Gitlab      internal/gitlab: Signature (ValidateToken), Types (the payload structs, filled by the
--               rules of Json), Parser (Parse and the parsers of the kinds), IssueKey (IssueKeys,
--               IssueKeysFromEvent)
--   Server      internal/server: Webhook (handleGitLab, handleEmojiAward), Admin (listEvents,
--               listFailedJobs, RequireAdminToken), Routes (NewHandler, RequestLogger, the
--               health handlers), Listen (New, Start)
--   Workflow    internal/workflow: Rules (Classify), Transition (Resolver), DueDate (NextWeekday,
--               ParseWeekday, CalculateDueDate)
--   Store       internal/store: Jobs, Events and Audit (the three repositories), Run (how a statement
--               is carried out), Invariant (the constraints of migrations/), Lifecycle (what the
--               statements make of a job), Pool (NewPool)
--   Worker      internal/worker: Processor (process, NewJob), Processor.Run (Run), Processor.Shutdown
--               (its context cancelled), Processor.Queue (its ticks one after the other), Executor,
--               Backoff (nextBackoff), Reconciler (resetStuckJobs), Reconciler.Run (Run)
--   Startup     cmd/glsync/main.go: from the configuration to the wired parts; Life (the goroutines,
--               the signal, and the end)
--   Jira        internal/integration/jira: the interface Transitioner, Types (the responses), Client
--   Config      internal/config: Load, Validate; Durations (UnmarshalYAML)
--   Plugin      plugin/plugin.go; Domain: internal/domain; Errors: the wrapped errors as values
--   Base, Json  shared helpers, and the decoding rules of encoding/json
--
-- The webhook handler stores an event and enqueues jobs for it; the processor dequeues jobs,
-- executes each by the Jira client and records the outcome; the reconciler resets jobs that hang;
-- the admin routes read the tables. All share one `World` (Store): the three tables, the calls made
-- of Jira, the calls made of plugins, and a counter of the process's calls. A program is a function
-- on worlds, and an `Env` answers each numbered call: the clock, new uuids, which rows other
-- transactions have locked, and whether a statement is delivered, is refused, or is carried out with
-- its answer lost. A statement is a function on the tables, which returns `none` where it violates a
-- constraint.
--
-- A string is the list of its code points, and a literal is written `text "…"`. A body of the Jira
-- client is the list of its bytes. A time is a number
-- of nanoseconds since January 1 of year 1, UTC, without the bound of package time at 2^63 seconds, and
-- a location a fixed offset from UTC. Integers
-- that are never negative, such as attempts and limits, are natural numbers; durations are integers,
-- and the arithmetic of `nextBackoff` and the negation of a duration are those of int64.
-- `Base.Numbers.decimal` prints n on fuel n + 1, which is enough, since every digit divides by ten.
-- `Config.Durations.components` has the length of the text as fuel, which
-- `Config.Durations.Fuel.components_enough` shows to be enough, and
-- `Worker.Processor.Queue.work_off` the number of its ticks.
--
-- The loops of the workers and the life of the process are step relations: a step is taken by the
-- loop, by a goroutine, by `main`, by the reconciler, by the signal or by another process, in any
-- order. A goroutine of the processor takes two steps, the execution of its job and all that follows
-- it, so that what others do comes before, between or after them, and not between two statements of
-- the second; an answer to a request and a tick of the reconciler are one step each.
-- `Worker.Processor.poll` runs a batch one job after the other. The context of the workers is
-- cancelled at any point; from then on their statements are refused and their requests to Jira are
-- not sent (Store.within, Worker.Executor.in_context), while audit entries are written in a context
-- of their own (Store.background). Channels and wait groups appear as the conditions under which a
-- step can be taken.
--
-- Not modelled: the scanner of encoding/json (a payload is malformed or a document), the decoding of
-- YAML (a parameter that reads durations by `Config.Durations.unmarshal_yaml`) and the arithmetic of
-- float64 that places the fraction of a duration (a parameter), the router and the rate limiter,
-- flags and logging, the deadlines of contexts, a negative number of attempts in the configuration, the
-- normal form that JSONB gives to a payload, the texts that PostgreSQL refuses in a TEXT or JSONB column
-- (a NUL, invalid UTF-8), the bound of the column `attempts` that counting one more than 2^31 - 1
-- attempts would meet, project keys with letters outside ASCII (`Gitlab.IssueKey.to_upper` and the
-- case folding of the pattern know those of ASCII), and the microseconds to which a TIMESTAMPTZ is rounded.
pub mod Base
pub mod Json
pub mod Errors
pub mod Domain
pub mod Config
pub mod Workflow
pub mod Jira
pub mod Plugin
pub mod Store
pub mod Server
pub mod Worker
pub mod Tests
pub mod Gitlab
pub mod Startup
