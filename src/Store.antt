-- ===== src/Store.antt =====
-- internal/store: the tables of migrations/, the world that a statement runs in, and the faults that
-- a statement can meet. The repositories are the modules below.
pub mod Run
pub mod Events
pub mod Jobs
pub mod Audit
pub mod Invariant
pub mod Lifecycle
pub mod Pool
use glsync.Base.{Bool, true, false, leb, pos, negsuc, ℕ, ℤ, Text, List, [], Option}
use glsync.Json.{Payload}
use glsync.Domain.{EventType, Job, AuditDetail}
use glsync.Jira.{JiraCall}
use glsync.Plugin.{Notice}

-- A row of `events`.
pub record EventRow : Type 0 where
  pub id : Text
  pub idempotency_key : Text
  pub event_type : EventType
  pub issue_keys : List Text
  pub source_branch : Text
  pub target_branch : Text
  pub mr_title : Text
  pub mr_iid : ℤ
  pub project_id : ℤ
  pub author_email : Text
  pub raw_payload : Payload
  pub received_at : ℕ

-- A row of `jobs`: the columns that `scanJob` reads, and `running_since`.
pub record JobRow : Type 0 where
  pub job : Job
  pub open job use *
  pub running_since : Option ℕ

-- A row of `audit_logs`; the two references may be NULL.
pub record AuditRow : Type 0 where
  pub id : Text
  pub event_id : Option Text
  pub job_id : Option Text
  pub action : Text
  pub issue_key : Text
  pub detail : AuditDetail
  pub created_at : ℕ

pub record Db : Type 0 where
  pub events : List EventRow
  pub jobs : List JobRow
  pub audit_logs : List AuditRow

abbrev pub empty : Db
empty = record { events = []; jobs = []; audit_logs = [] }

-- What becomes of a statement: it is carried out and answered, it never reaches the server, or it is
-- carried out and the answer is lost.
pub data Fault : Type 0 where
  delivered refused unacknowledged : Fault

-- The calls of a process on its surroundings are numbered; each answer depends on its number.
pub record Env : Type 0 where
  pub now : ℕ → ℕ
  pub uuid : ℕ → Text
  pub fault : ℕ → Fault
  -- What becomes of the statements of audit entries, whose context is never cancelled.
  pub detached : ℕ → Fault
  pub locked : ℕ → List Text

-- The calls in a context that may be cancelled: then pgx sends no statement.
abbrev pub within : Bool → Env → Env
within true env = record env { fault = λ _. refused }
within false env = env

-- The calls in `context.WithTimeout(context.Background(), …)`.
abbrev pub background : Env → Env
background env = record env { fault = env.detached }

pub record World : Type 0 where
  pub db : Db
  pub open db use *
  pub step : ℕ
  pub jira_calls : List JiraCall
  pub notices : List Notice

-- What a column of type INTEGER holds; pgx refuses any other value before the statement is sent.
abbrev pub int32_max : ℕ
int32_max = 2147483647

unfoldable pub fits_int32 : ℤ → Bool
fits_int32 (pos n) = leb n int32_max
fits_int32 (negsuc n) = leb n int32_max

pub data StoreError : Type 0 where
  unavailable violation : StoreError

pub data Result {ℓ} (A : Type ℓ) : Type ℓ where
  ok : A → Result A
  err : StoreError → Result A
