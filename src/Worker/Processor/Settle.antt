-- ===== src/Worker/Processor/Settle.antt =====
-- The rows of `jobs` under `process` of internal/worker/processor.go.
use glsync.Base.{
  add_duration, ℕ, ◌+◌, ◌≤◌, ◌<◌, Text, text, List, [], ◌∷◌, Option, none, some, ◌≡◌, refl, arith,
  ◌∙◌, ap, leb, leb→le, Bool-cases, inl, inr,
}
use glsync.Errors.{ExecError}
use glsync.Domain
use glsync.Domain.{Job, AuditDetail, failure, non_retryable}
use glsync.Plugin.{Registry, JobHandler}
use glsync.Store.{JobRow, Db, World, Env, Fault, delivered, refused, unacknowledged}
use glsync.Store.Run.{exec, bump, time_now, new_uuid}
use glsync.Store.Jobs.{
  update_job, update_jobs, set_completed, set_failed, set_dead, mark_completed, mark_failed,
  mark_dead,
}
use glsync.Store.Audit
use glsync.Store.Audit.{insert_audit}
use glsync.Worker.Backoff.{next_backoff}
use glsync.Worker.Executor.{Executor, execute}
use glsync.Worker.Executor.Outcomes.{db-execute}
use glsync.Worker.Processor.{
  fatal_code, write_audit, notify, on_success, on_dead, on_retry, after_failure, conclude, process,
}

-- The change of the table that a job's result asks for, and the one that a lost statement leaves.
pub data IsSettled (env : Env) (job : Job) (result : Option ExecError) (rows rows' : List JobRow)
    : Type 0 where
  completed :
      (now : ℕ)
      → result ≡ none
      → rows' ≡ update_job job.id (set_completed now) rows
      → IsSettled env job result rows rows'
  -- A failure that may be retried and leaves an attempt: due again after the backoff.
  retried :
      (e : ExecError) (now : ℕ)
      → result ≡ some e
      → fatal_code e ≡ none
      → job.attempts + 1 < job.max_attempts
      → rows' ≡ update_job job.id (set_failed e (add_duration now (next_backoff job.attempts))) rows
      → IsSettled env job result rows rows'
  -- A failure that no retry mends.
  rejected :
      (e : ExecError) (code : ℕ)
      → result ≡ some e
      → fatal_code e ≡ some code
      → rows' ≡ update_job job.id (set_dead e) rows
      → IsSettled env job result rows rows'
  -- A failure of the last attempt.
  exhausted :
      (e : ExecError)
      → result ≡ some e
      → job.max_attempts ≤ job.attempts + 1
      → rows' ≡ update_job job.id (set_dead e) rows
      → IsSettled env job result rows rows'
  lost : (n : ℕ) → env.fault n ≡ refused → rows' ≡ rows → IsSettled env job result rows rows'

-- An UPDATE of one job takes effect unless it never reached the server.
data IsUpdated (env : Env) (f : ℕ → List JobRow → List JobRow) (rows rows' : List JobRow)
    : Type 0 where
  updated : (now : ℕ) → rows' ≡ f now rows → IsUpdated env f rows rows'
  missed : (n : ℕ) → env.fault n ≡ refused → rows' ≡ rows → IsUpdated env f rows rows'

module _ (env : Env) where
  exec-IsUpdated :
      (f : ℕ → List JobRow → List JobRow) (w : World)
      → IsUpdated env f w.jobs (exec env (λ now. update_jobs (f now)) w).1.jobs
  unfolding exec
  exec-IsUpdated f w = go (env.fault w.step) refl
    where
      go :
          (x : Fault)
          → env.fault w.step ≡ x
          → IsUpdated env f w.jobs (exec env (λ now. update_jobs (f now)) w).1.jobs
      go delivered e = updated (env.now w.step) (ground arith)
      go refused e = missed w.step e (ground arith)
      go unacknowledged e = updated (env.now w.step) (ground arith)

  pub jobs-write_audit :
      (job : Job) (action : Text) (detail : AuditDetail) (w : World)
      → (write_audit env job action detail w).1.jobs ≡ w.jobs
  unfolding write_audit Audit.insert exec insert_audit time_now new_uuid
  jobs-write_audit job action detail w = ground arith

pub db-notify :
    (hs : List JobHandler) (job : Job) (result : Option ExecError) (w : World)
    → (notify hs job result w).1.db ≡ w.db
unfolding notify
db-notify [] job result w = refl
db-notify (h ∷ hs) job result w = db-notify hs job result _

pub jobs-notify :
    (hs : List JobHandler) (job : Job) (result : Option ExecError) (w : World)
    → (notify hs job result w).1.jobs ≡ w.jobs
jobs-notify hs job result w = ap (λ (d : Db). d.jobs) (db-notify hs job result w)

module _ (env : Env) (registry : Registry) (ex : Executor) (job : Job) where
  on_success-IsSettled :
      (w : World) → IsSettled env job none w.jobs (on_success env registry ex job w).1.jobs
  unfolding on_success mark_completed
  on_success-IsSettled w =
      let (_, marked) = mark_completed env job.id w in
      let same = jobs-write_audit env job (text "transition_success") _ marked in
      elim (exec-IsUpdated env (λ now. update_job job.id (set_completed now)) w) [
        | updated now e ↦ completed now refl (same ∙ e)
        | missed n f e ↦ lost n f (same ∙ e)
      ]

  module _ (e : ExecError) where
    on_dead-IsUpdated :
        (detail : AuditDetail) (w : World)
        → IsUpdated env
            (λ now. update_job job.id (set_dead e))
            w.jobs
            (on_dead env registry ex job e detail w).1.jobs
    unfolding on_dead mark_dead
    on_dead-IsUpdated detail w =
        let (_, marked) = mark_dead env job.id e w in
        let same = jobs-write_audit env job (text "job_dead") detail marked in
        rw same (exec-IsUpdated env (λ now. update_job job.id (set_dead e)) w)

    on_retry-IsUpdated :
        (w : World)
        → IsUpdated env
            (λ _.
              update_job job.id
                (set_failed e (add_duration (env.now w.step) (next_backoff job.attempts))))
            w.jobs
            (on_retry env registry ex job e w).1.jobs
    unfolding on_retry mark_failed time_now
    on_retry-IsUpdated w =
        exec-IsUpdated env
          (λ _.
            update_job job.id
              (set_failed e (add_duration (env.now w.step) (next_backoff job.attempts))))
          (bump w)

    after_failure-IsSettled :
        (code : Option ℕ) (w : World)
        → fatal_code e ≡ code
        → IsSettled env job (some e) w.jobs (after_failure env registry ex job e code w).1.jobs
    unfolding after_failure
    after_failure-IsSettled (some code) w c = elim (on_dead-IsUpdated (non_retryable code) w) [
      | updated now x ↦ rejected e code refl c x
      | missed n f x ↦ lost n f x
    ]
    after_failure-IsSettled none w c = elim (Bool-cases (leb job.max_attempts (job.attempts + 1))) [
      | inl last ↦ rw last (elim (on_dead-IsUpdated Domain.exhausted w) [
        | updated now x ↦ exhausted e refl (leb→le _ _ last) x
        | missed n f x ↦ lost n f x
      ])
      | inr more ↦ rw more (elim (on_retry-IsUpdated w) [
        | updated now x ↦ retried e (env.now w.step) refl c (ground arith) x
        | missed n f x ↦ lost n f x
      ])
    ]

  pub conclude-IsSettled :
      (result : Option ExecError) (w : World)
      → IsSettled env job result w.jobs (conclude env registry ex job result w).1.jobs
  unfolding conclude
  conclude-IsSettled none w = on_success-IsSettled w
  conclude-IsSettled (some e) w =
      let (_, noted) =
        write_audit env job (text "transition_failed") (failure e (job.attempts + 1)) w in
      let same =
        jobs-write_audit env job (text "transition_failed") (failure e (job.attempts + 1)) w in
      rw same at (after_failure-IsSettled e (fatal_code e) noted refl)

  -- What processing a job makes of the table, by the result of its execution.
  pub process-IsSettled :
      (w : World)
      → IsSettled env job (execute env ex job w).0 w.jobs (process env registry ex job w).1.jobs
  unfolding process
  process-IsSettled w =
      let (result, ran) = execute env ex job w in
      let (_, told) = notify registry.job_handlers job result ran in
      let same : told.jobs ≡ w.jobs =
        jobs-notify registry.job_handlers job result ran
        ∙ ap (λ (d : Db). d.jobs) (db-execute env ex job w) in
      rw same at (conclude-IsSettled result told)
