-- ===== src/Domain.antt =====
-- internal/domain/domain.go: the value types that every other package shares. The string types of
-- the source whose constants are all its values are data types, with the string of each value.
pub mod States
use glsync.Base.{ℕ, ℤ, Text, List, Option}
use glsync.Json.{Payload}
use glsync.Errors.{ExecError}
use glsync.Domain.States.{WorkflowState}

pub data EventType : Type 0 where
  push mr_opened mr_merged mr_draft emoji_award unrecognized : EventType

-- A time is a number of nanoseconds since Go's zero time.
pub record NormalizedEvent : Type 0 where
  pub id : Text
  pub idempotency_key : Text
  pub event_type : EventType
  pub issue_keys : List Text
  pub source_branch : Text
  pub target_branch : Text
  pub mr_title : Text
  pub mr_iid : ℤ
  pub project_id : ℤ
  pub author_email : Text
  pub raw_payload : Payload
  pub received_at : ℕ
  pub commit_messages : List Text
  pub emoji_name : Text
  pub mr_state : Text

pub data JobStatus : Type 0 where
  pending running completed failed dead : JobStatus

-- Any other text is what a row of the table could hold beside the one constant.
pub data JobType : Type 0 where
  jira_transition : JobType
  other : Text → JobType

-- `last_error` is kept as the error whose text is stored, and `none` is the empty text.
pub record Job : Type 0 where
  pub id : Text
  pub event_id : Text
  pub type : JobType
  pub status : JobStatus
  pub issue_key : Text
  pub target_state : WorkflowState
  pub payload : Text
  pub attempts : ℕ
  pub max_attempts : ℕ
  pub last_error : Option ExecError
  pub next_run_at : ℕ
  pub created_at : ℕ
  pub completed_at : Option ℕ

-- The maps that are marshalled into the column `detail`.
pub data AuditDetail : Type 0 where
  target_state : WorkflowState → AuditDetail
  failure : ExecError → ℕ → AuditDetail
  non_retryable : ℕ → AuditDetail
  exhausted : AuditDetail
  count : ℕ → AuditDetail

pub record AuditEntry : Type 0 where
  pub id : Text
  pub event_id : Text
  pub job_id : Text
  pub action : Text
  pub issue_key : Text
  pub detail : AuditDetail
  pub created_at : ℕ
