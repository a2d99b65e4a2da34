-- ===== src/Worker/Processor/Keeps.antt =====
-- The constraints of the schema under `process` of internal/worker/processor.go.
use glsync.Base.{ℕ, Text, text, Bool-cases, inl, inr, Option, none, some, ◌≡◌, ◌+◌, leb}
use glsync.Errors.{ExecError}
use glsync.Domain
use glsync.Domain.{Job, AuditDetail, failure, non_retryable}
use glsync.Plugin.{Registry}
use glsync.Store.{background, Db, World, Env}
use glsync.Store.Run.{bump, time_now, new_uuid}
use glsync.Store.Invariant.{IsValid}
use glsync.Store.Invariant.Calls.{perform, perform-IsValid}
use glsync.Store.Invariant.Calls
use glsync.Worker.Executor.{Executor, execute}
use glsync.Worker.Executor.Outcomes.{db-execute}
use glsync.Worker.Processor.{
  fatal_code, write_audit, on_success, on_dead, on_retry, after_failure, conclude,
}

-- The tables are the same.
pub same-IsValid : {db db' : Db} → db' ≡ db → IsValid db → IsValid db'
same-IsValid e v = rw e v

module _ (env : Env) where
  write_audit-IsValid :
      (job : Job) (action : Text) (detail : AuditDetail) (w : World)
      → IsValid w.db
      → IsValid (write_audit env job action detail w).1.db
  unfolding write_audit new_uuid time_now perform
  write_audit-IsValid job action detail w v =
      perform-IsValid (background env) (Calls.insert_audit _) (bump (bump w)) tt v

module _ (env : Env) (registry : Registry) (ex : Executor) (job : Job) where
  on_dead-IsValid :
      (e : ExecError) (detail : AuditDetail) (w : World)
      → IsValid w.db
      → IsValid (on_dead env registry ex job e detail w).1.db
  unfolding on_dead perform
  on_dead-IsValid e detail w v =
      write_audit-IsValid env job (text "job_dead") detail _
        (perform-IsValid env (Calls.mark_dead job.id e) w tt v)

  after_failure-IsValid :
      (e : ExecError) (code : Option ℕ) (w : World)
      → IsValid w.db
      → IsValid (after_failure env registry ex job e code w).1.db
  unfolding after_failure on_retry time_now perform
  after_failure-IsValid e (some code) w v = on_dead-IsValid e (non_retryable code) w v
  after_failure-IsValid e none w v = elim (Bool-cases (leb job.max_attempts (job.attempts + 1))) [
    | inl last ↦ rw last (on_dead-IsValid e Domain.exhausted w v)
    | inr more ↦ rw more (perform-IsValid env (Calls.mark_failed job.id e _) (bump w) tt v)
  ]

  pub conclude-IsValid :
      (result : Option ExecError) (w : World)
      → IsValid w.db
      → IsValid (conclude env registry ex job result w).1.db
  unfolding conclude on_success perform
  conclude-IsValid none w v =
      write_audit-IsValid env job (text "transition_success") _ _
        (perform-IsValid env (Calls.mark_completed job.id) w tt v)
  conclude-IsValid (some e) w v =
      after_failure-IsValid e (fatal_code e) _
        (write_audit-IsValid env job (text "transition_failed") (failure e (job.attempts + 1)) w v)

  pub execute-IsValid : (w : World) → IsValid w.db → IsValid (execute env ex job w).1.db
  execute-IsValid w v = same-IsValid (db-execute env ex job w) v
