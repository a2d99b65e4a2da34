-- ===== src/Worker/Processor.antt =====
-- internal/worker/processor.go: what becomes of one job, and the batches of the poll loop.
pub mod Settle
pub mod Columns
pub mod Marks
pub mod Entries
pub mod Trail
pub mod Keeps
pub mod Holds
pub mod Foreign
pub mod Owned
pub mod Owner
pub mod Lives
pub mod Retries
pub mod Run
pub mod Account
pub mod Drain
pub mod Stops
pub mod Shutdown
pub mod Batches
pub mod Ticks
pub mod Budget
pub mod Queue
pub mod Served
use glsync.Base.{
  ℕ, ◌+◌, add_duration, Text, text, List, [], ◌∷◌, ◌++◌, Bool, Option, none, some, leb, ltb,
  if◌then◌else◌,
}
use glsync.Errors.{ExecError, as_jira_http, is_non_retryable}
use glsync.Domain.{
  Job, jira_transition, pending, AuditDetail, AuditEntry, target_state, failure, non_retryable,
  exhausted,
}
use glsync.Domain.States.{WorkflowState}
use glsync.Plugin.{Registry, JobHandler, job_notice}
use glsync.Store.{World, Env, background, Result}
use glsync.Store
use glsync.Store.Run.{M, pure, ◌>>=◌, ◌>>◌, time_now, new_uuid}
use glsync.Store.Jobs.{dequeue, mark_completed, mark_failed, mark_dead}
use glsync.Store.Audit
use glsync.Worker.Backoff.{next_backoff}
use glsync.Worker.Executor.{Executor, execute}

abbrev drop_result {ℓ} : {A : Type ℓ} → M A → M (Unit {0})
drop_result m w = (tt, (m w).1)

-- `errors.As(err, &jiraErr) && jiraErr.IsNonRetryable()`, with the status code
abbrev fatal_code : ExecError → Option ℕ
fatal_code x = elim (as_jira_http x) [
  | none ↦ none
  | some code ↦ if is_non_retryable code then some code else none
]

module _ (env : Env) where
  -- `worker.NewJob`
  unfoldable pub new_job : Text → Text → WorkflowState → ℕ → M Job
  new_job event_id issue_key state max_attempts = do
    id ← new_uuid env
    next_run_at ← time_now env
    created_at ← time_now env
    pure (record {
      id = id;
      event_id = event_id;
      type = jira_transition;
      status = pending;
      issue_key = issue_key;
      target_state = state;
      payload = text "{}";
      attempts = 0;
      max_attempts = max_attempts;
      last_error = none;
      next_run_at = next_run_at;
      created_at = created_at;
      completed_at = none;
    })

  -- An error of the insert is logged and dropped.
  unfoldable pub write_audit : Job → Text → AuditDetail → M (Unit {0})
  write_audit job action detail = do
    id ← new_uuid env
    created_at ← time_now env
    drop_result (
        Audit.insert (background env) (record {
          id = id;
          event_id = job.event_id;
          job_id = job.id;
          action = action;
          issue_key = job.issue_key;
          detail = detail;
          created_at = created_at;
        }))

-- The loop over `plugin.JobHandlers()`.
unfoldable pub notify : List JobHandler → Job → Option ExecError → M (Unit {0})
notify [] job err w = (tt, w)
notify (h ∷ hs) job err w =
    notify hs job err (record w { notices = w.notices ++ job_notice h.name job err ∷ [] })

module _ (env : Env) (registry : Registry) (exec : Executor) where
  on_success : Job → M (Unit {0})
  on_success job = do
    drop_result (mark_completed env job.id)
    write_audit env job (text "transition_success") (target_state job.target_state)

  on_dead : Job → ExecError → AuditDetail → M (Unit {0})
  on_dead job err detail = do
    drop_result (mark_dead env job.id err)
    write_audit env job (text "job_dead") detail

  on_retry : Job → ExecError → M (Unit {0})
  on_retry job err = do
    now ← time_now env
    drop_result (mark_failed env job.id err (add_duration now (next_backoff job.attempts)))

  -- What follows the audit entry "transition_failed".
  after_failure : Job → ExecError → Option ℕ → M (Unit {0})
  unfolding on_dead on_retry
  after_failure job err (some code) = on_dead job err (non_retryable code)
  after_failure job err none =
      if leb job.max_attempts (job.attempts + 1)
      then on_dead job err exhausted
      else on_retry job err

  unfoldable pub conclude : Job → Option ExecError → M (Unit {0})
  unfolding on_success after_failure
  conclude job none = on_success job
  conclude job (some err) = do
    write_audit env job (text "transition_failed") (failure err (job.attempts + 1))
    after_failure job err (fatal_code err)

  unfoldable pub process : Job → M (Unit {0})
  process job = do
    err ← execute env exec job
    notify registry.job_handlers job err
    conclude job err

  -- The goroutines of a batch, in some order, one after the other.
  unfoldable pub process_all : List Job → M (Unit {0})
  process_all [] w = (tt, w)
  process_all (j ∷ js) w = process_all js (process j w).1

  unfoldable pub process_batch : Result (List Job) → M (Unit {0})
  unfolding process_all
  process_batch (Store.err x) = pure tt
  process_batch (Store.ok jobs) = process_all jobs

  -- One tick of the poll loop.
  unfoldable pub poll : ℕ → M (Unit {0})
  unfolding process_batch
  poll concurrency = do batch ← dequeue env concurrency; process_batch batch
