-- ===== src/Worker/Executor.antt =====
-- internal/worker/executor.go. Package time's location is the parameter `zone`.
pub mod Outcomes
use glsync.Base.{
  Bool, true, false, ℕ, ◌+◌, Float64, one, Text, text, List, [], ◌∷◌, ◌++◌, Option, none, some,
  ◌==◌, insert, if◌then◌else◌,
}
use glsync.Errors.{
  ExecError, JiraError, unknown_job_type, due_date, transition_issue, in_progress_transition,
}
use glsync.Domain.{Job, JobType, jira_transition, other}
use glsync.Domain.States.{WorkflowState, in_progress, code_review, rfqa, done}
use glsync.Config.{InProgressConfig}
use glsync.Workflow.Transition.{Resolver, resolve_transition_id}
use glsync.Workflow.DueDate.{Zone, day_of, calculate_due_date}
use glsync.Workflow.DueDate
use glsync.Jira.{
  FieldValue, number, date, FieldMap, JiraCall, transition, transition_with_fields, story_points,
  Points, Transitioner,
}
use glsync.Jira
use glsync.Store.{World, Env}
use glsync.Store.Run.{M, pure, ◌>>=◌, ◌>>◌, time_now}

pub record Executor : Type 0 where
  pub jira : Transitioner
  pub resolver : Resolver
  pub in_progress : InProgressConfig
  pub zone : Zone

-- net/http sends no request whose context is cancelled.
abbrev pub unreachable : Transitioner
unreachable = record {
  transition_issue = λ n key id. some JiraError.execute;
  transition_issue_with_fields = λ n key id fields. some JiraError.execute;
  update_issue_fields = λ n key fields. some JiraError.execute;
  get_issue_status = λ n key. Jira.Status.err JiraError.execute;
  get_story_points = λ n key field. Points.err JiraError.execute;
  get_transitions = λ n key. Jira.Transitions.err JiraError.execute;
}

-- The executor in a context that may be cancelled.
abbrev pub in_context : Bool → Executor → Executor
in_context true e = record e { jira = unreachable }
in_context false e = e

-- A call of the Jira client is numbered like every other call, and recorded.
abbrev record_call : JiraCall → World → World
record_call c w = record w { step = w.step + 1; jira_calls = w.jira_calls ++ c ∷ [] }

module _ (env : Env) (e : Executor) where
  call_transition : Text → Text → M (Option JiraError)
  call_transition key id w =
      (e.jira.transition_issue w.step key id, record_call (transition key id) w)

  call_transition_with_fields : Text → Text → FieldMap → M (Option JiraError)
  call_transition_with_fields key id fields w = (
    e.jira.transition_issue_with_fields w.step key id fields,
    record_call (transition_with_fields key id fields) w,
  )

  call_story_points : Text → Text → M Points
  call_story_points key field w =
      (e.jira.get_story_points w.step key field, record_call (story_points key field) w)

  abbrev wrap : (JiraError → ExecError) → Option JiraError → Option ExecError
  wrap f none = none
  wrap f (some x) = some (f x)

  -- An error of `GetStoryPoints` leaves the default.
  abbrev points_or_one : Points → Float64
  points_or_one (Points.ok sp) = sp
  points_or_one (Points.err x) = one

  read_points : Job → M Float64
  unfolding call_story_points
  read_points job =
      if e.in_progress.due_date_strategy == text "story_points"
      then (do
        p ← call_story_points job.issue_key e.in_progress.story_points_field
        pure (points_or_one p))
      else pure one

  -- The map literal `fields`: a later entry replaces an earlier one of the same key.
  unfoldable pub date_fields : Float64 → ℕ → ℕ → FieldMap
  date_fields sp today due = insert e.in_progress.due_date_field (date (day_of e.zone due)) (
      insert e.in_progress.start_date_field (date (day_of e.zone today))
        (insert e.in_progress.story_points_field (number sp) []))

  send_in_progress : Job → Float64 → ℕ → DueDate.Result ℕ → M (Option ExecError)
  unfolding call_transition_with_fields date_fields
  send_in_progress job sp today (DueDate.err x) = pure (some (due_date x))
  send_in_progress job sp today (DueDate.ok due) = do
    r ←
        call_transition_with_fields job.issue_key e.in_progress.transition_id
          (date_fields sp today due)
    pure (wrap (in_progress_transition job.issue_key) r)

  unfoldable pub execute_in_progress_transition : Job → M (Option ExecError)
  unfolding read_points send_in_progress
  execute_in_progress_transition job =
      if e.in_progress.transition_id == text "" then pure none else do
        sp ← read_points job
        today ← time_now env
        send_in_progress job sp today (
            calculate_due_date e.zone e.in_progress.due_date_strategy
              e.in_progress.sprint_end_weekday sp today)

  -- A state with no configured transition is skipped without an error.
  send_transition : Job → Option Text → M (Option ExecError)
  unfolding call_transition
  send_transition job none = pure none
  send_transition job (some id) = do
    r ← call_transition job.issue_key id
    pure (wrap (transition_issue job.issue_key job.target_state id) r)

  execute_jira_transition : WorkflowState → Job → M (Option ExecError)
  unfolding execute_in_progress_transition send_transition
  execute_jira_transition in_progress job = execute_in_progress_transition job
  execute_jira_transition state job = send_transition job (resolve_transition_id e.resolver state)

  dispatch : JobType → Job → M (Option ExecError)
  unfolding execute_jira_transition
  dispatch jira_transition job = execute_jira_transition job.target_state job
  dispatch (other t) job = pure (some (unknown_job_type t))

  unfoldable pub execute : Job → M (Option ExecError)
  unfolding dispatch
  execute job = dispatch job.type job
