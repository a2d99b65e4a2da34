-- ===== src/Errors.antt =====
-- The errors of a job's execution, as values: the program wraps them with `fmt.Errorf`, and looks
-- for a `JiraHTTPError` among them with `errors.As`.
use glsync.Base.{ℕ, Text, Bool, Option, none, some, eqb, ◌||◌}
use glsync.Domain.States.{WorkflowState}

-- internal/workflow/duedate.go
pub data DueDateError : Type 0 where
  unknown_weekday unknown_strategy : Text → DueDateError

-- internal/integration/jira: `http` is JiraHTTPError, the others are wrapped library errors.
pub data JiraError : Type 0 where
  marshal create execute decode : JiraError
  http : ℕ → Text → JiraError

-- internal/worker/executor.go
pub data ExecError : Type 0 where
  unknown_job_type : Text → ExecError
  due_date : DueDateError → ExecError
  transition_issue : Text → WorkflowState → Text → JiraError → ExecError
  in_progress_transition : Text → JiraError → ExecError

-- `JiraHTTPError.IsNonRetryable`
unfoldable pub is_non_retryable : ℕ → Bool
is_non_retryable code = eqb code 400 || eqb code 404 || eqb code 405 || eqb code 409 || eqb code 422

http_code : JiraError → Option ℕ
http_code (http code body) = some code
http_code _ = none

-- `errors.As(err, &jiraErr)`: the status code of the wrapped JiraHTTPError
unfoldable pub as_jira_http : ExecError → Option ℕ
unfolding http_code
as_jira_http (transition_issue key state id e) = http_code e
as_jira_http (in_progress_transition key e) = http_code e
as_jira_http _ = none
