-- ===== src/Worker/Processor/Columns.antt =====
-- What `process` of internal/worker/processor.go sets in the columns of a job's row.
use mathlib.Core.List.{Forall₂}
use glsync.Base.{ℕ, ◌+◌, ◌≤◌, ◌<◌, Text, List, Option, none, some, ◌⊎◌, ◌≡◌, ◌≢◌, refl, arith}
use glsync.Errors.{ExecError, as_jira_http, is_non_retryable}
use glsync.Domain.{Job, completed, failed, dead}
use glsync.Store.{JobRow, Env, refused}
use glsync.Store.Jobs.Rows.{IsPatched}
use glsync.Worker.Backoff.{capped}
use glsync.Worker.Processor.{fatal_code}

-- A row that a job's success leaves at a time.
pub record IsCompleted (now : ℕ) (r c : JobRow) : Type 0 where
  pub over : c.status ≡ completed
  pub at_time : c.completed_at ≡ some now
  pub stopped : c.running_since ≡ none
  pub same_rest : record c.job { status = r.status; completed_at = r.completed_at } ≡ r.job

-- A row that a failure leaves that may be tried again from a time on.
pub record IsFailed (e : ExecError) (due : ℕ) (r c : JobRow) : Type 0 where
  pub to_retry : c.status ≡ failed
  pub reason : c.last_error ≡ some e
  pub from_then : c.next_run_at ≡ due
  pub counted : c.attempts ≡ r.attempts + 1
  pub stopped : c.running_since ≡ none
  pub same_rest :
      record c.job {
        status = r.status;
        last_error = r.last_error;
        next_run_at = r.next_run_at;
        attempts = r.attempts;
      }
      ≡ r.job

-- A row that a job's last failure leaves.
pub record IsDead (e : ExecError) (r c : JobRow) : Type 0 where
  pub given_up : c.status ≡ dead
  pub reason : c.last_error ≡ some e
  pub counted : c.attempts ≡ r.attempts + 1
  pub stopped : c.running_since ≡ none
  pub same_rest :
      record c.job { status = r.status; last_error = r.last_error; attempts = r.attempts } ≡ r.job

-- The statement of number `n` for the job `id`: the table changes unless it never reached the server.
pub data IsWritten (env : Env) (n : ℕ) (id : Text) (IsChange : JobRow → JobRow → Type 0)
    (rows rows' : List JobRow) : Type 0 where
  written :
      env.fault n ≢ refused
      → Forall₂ (IsPatched (λ r. r.id ≡ id) IsChange) rows rows'
      → IsWritten env n id IsChange rows rows'
  lost : env.fault n ≡ refused → rows' ≡ rows → IsWritten env n id IsChange rows rows'

-- Jira's answers that no retry mends.
abbrev pub IsRejection : ExecError → Type 0
IsRejection e =
    (code : ℕ) × (as_jira_http e ≡ some code)
    × ((code ≡ 400) ⊎ ((code ≡ 404) ⊎ ((code ≡ 405) ⊎ ((code ≡ 409) ⊎ (code ≡ 422)))))

-- What becomes of the table, by the result of the execution that made the call before number `n`.
pub data IsMarked (env : Env) (job : Job) (n : ℕ) (rows rows' : List JobRow)
    : Option ExecError → Type 0 where
  success :
      IsWritten env n job.id (IsCompleted (env.now n)) rows rows'
      → IsMarked env job n rows rows' none
  retry :
      (e : ExecError)
      → ¬ IsRejection e
      → job.attempts + 1 < job.max_attempts
      → IsWritten env (n + 4) job.id (IsFailed e (env.now (n + 3) + capped job.attempts)) rows rows'
      → IsMarked env job n rows rows' (some e)
  rejection :
      (e : ExecError)
      → IsRejection e
      → IsWritten env (n + 3) job.id (IsDead e) rows rows'
      → IsMarked env job n rows rows' (some e)
  exhaustion :
      (e : ExecError)
      → job.max_attempts ≤ job.attempts + 1
      → IsWritten env (n + 3) job.id (IsDead e) rows rows'
      → IsMarked env job n rows rows' (some e)

pub fatal_code-some : (e : ExecError) (code : ℕ) → fatal_code e ≡ some code → IsRejection e
unfolding is_non_retryable
fatal_code-some e code h = go (as_jira_http e) refl h
  where
    go : (o : Option ℕ) → as_jira_http e ≡ o → fatal_code e ≡ some code → IsRejection e
    go none a h = cc (rw (fatal_code, a) at h)
    go (some c) a h = (c, a, ground (arith, rw (fatal_code, a) at h))

pub fatal_code-none : (e : ExecError) → fatal_code e ≡ none → ¬ IsRejection e
unfolding is_non_retryable
fatal_code-none e h (code, a, which) = let h' = rw (fatal_code, a) at h in ground arith
