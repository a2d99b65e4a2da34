-- ===== src/Tests/Fixtures.antt =====
-- The surroundings, tables and payloads that the runs share.
use glsync.Base.{ℕ, ◌+◌, pos, Text, text, [], ◌∷◌, Bool, Option, none}
use glsync.Json.{str, int, obj, Fields, end, field, Payload, document}
use glsync.Errors.{JiraError, http}
use glsync.Domain.{Job, jira_transition, JobStatus, pending, push}
use glsync.Domain.States.{done}
use glsync.Config.{defaults}
use glsync.Plugin.{EventHandler, Registry}
use glsync.Jira
use glsync.Jira.{Transitioner}
use glsync.Store.{EventRow, JobRow, Db, World, Env, delivered, empty}
use glsync.Workflow.DueDate.{utc}
use glsync.Worker.Executor.{Executor}
use glsync.Server.Webhook.{Request, read, Handler}

-- Every call is answered; its number is its time and its uuid.
abbrev pub env : Env
env = record {
  now = λ n. 1000 + n;
  uuid = λ n. n ∷ [];
  fault = λ _. delivered;
  detached = λ _. delivered;
  locked = λ _. [];
}

abbrev pub world_of : Db → World
world_of db = record { db = db; step = 0; jira_calls = []; notices = [] }

abbrev pub start : World
start = world_of empty

-- A plugin whose handler always fails.
abbrev pub failing_plugin : EventHandler
failing_plugin = record { name = text "audit"; succeeds = λ _ _. Bool.false }

abbrev pub handler : Handler
handler = record {
  webhook_secret = text "s3cret";
  workflow = defaults.workflow;
  max_attempts = 5;
  event_handlers = failing_plugin ∷ [];
}

abbrev pub push_fields : Fields
push_fields = field (text "object_kind") (str (text "push")) (
    field (text "ref") (str (text "refs/heads/feature/RIS-7"))
      (field (text "before") (str []) (field (text "project_id") (int (pos 3)) end)))

abbrev pub push_payload : Payload
push_payload = document (obj push_fields)

abbrev pub delivery : Request
delivery = record { token = text "s3cret"; body = read push_payload }

abbrev pub event_row : EventRow
event_row = record {
  id = text "e1";
  idempotency_key = text "push:3:feature/RIS-7:";
  event_type = push;
  issue_keys = text "RIS-7" ∷ [];
  source_branch = text "feature/RIS-7";
  target_branch = [];
  mr_title = [];
  mr_iid = pos 0;
  project_id = pos 3;
  author_email = [];
  raw_payload = push_payload;
  received_at = 5;
}

abbrev pub job_of : Text → JobStatus → ℕ → Job
job_of id status next_run_at = record {
  id = id;
  event_id = text "e1";
  type = jira_transition;
  status = status;
  issue_key = text "RIS-7";
  target_state = done;
  payload = text "{}";
  attempts = 0;
  max_attempts = 5;
  last_error = none;
  next_run_at = next_run_at;
  created_at = 5;
  completed_at = none;
}

abbrev pub idle_row : Text → ℕ → JobRow
idle_row id next_run_at = record { job = job_of id pending next_run_at; running_since = none }

-- Two due jobs, the later first, and one that is not due.
abbrev pub table : World
table = world_of (record {
  events = event_row ∷ [];
  jobs = idle_row (text "b") 20 ∷ idle_row (text "a") 10 ∷ idle_row (text "c") 9000 ∷ [];
  audit_logs = [];
})

-- Jira answers every transition with the given error.
abbrev pub jira_that : Option JiraError → Transitioner
jira_that answer = record {
  transition_issue = λ _ _ _. answer;
  transition_issue_with_fields = λ _ _ _ _. answer;
  update_issue_fields = λ _ _ _. answer;
  get_issue_status = λ _ _. Jira.Status.err (http 404 []);
  get_story_points = λ _ _ _. Jira.Points.err (http 404 []);
  get_transitions = λ _ _. Jira.Transitions.err (http 404 []);
}

abbrev pub executor_with : Option JiraError → Executor
executor_with answer = record {
  jira = jira_that answer;
  resolver = record { transitions = (text "done", text "41") ∷ [] };
  in_progress = defaults.workflow.in_progress;
  zone = utc;
}

abbrev pub registry : Registry
registry = record { event_handlers = []; job_handlers = record { name = text "metrics" } ∷ [] }
