-- ===== src/Server.antt =====
-- internal/server: the requests' handlers, and the replies that they write.
pub mod Webhook
pub mod Admin
pub mod Routes
pub mod Listen
use glsync.Base.{ℕ, Text, List, Option}
use glsync.Domain.{NormalizedEvent, Job}
use glsync.Domain.States.{WorkflowState}

-- A status code with a body that `writeError` or `writeJSON` encodes. `status` has the fields "status"
-- and "reason", and `accepted` those of the last reply of the webhook handler.
pub data Reply : Type 0 where
  error : ℕ → Text → Reply
  status : ℕ → Text → Option Text → Reply
  accepted : ℕ → Text → List Text → WorkflowState → Reply
  event_list : ℕ → List NormalizedEvent → Reply
  job_list : ℕ → List Job → Reply

abbrev pub code : Reply → ℕ
code (error n message) = n
code (status n text reason) = n
code (accepted n event_id issue_keys target_state) = n
code (event_list n events) = n
code (job_list n jobs) = n
