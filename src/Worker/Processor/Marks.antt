-- ===== src/Worker/Processor/Marks.antt =====
-- The rows of a job before and after `process` of internal/worker/processor.go.
use mathlib.Core.List.{Forall₂}
use glsync.Base.{
  ℕ, ◌+◌, Text, text, List, [], ◌∷◌, Option, none, some, leb, leb→le, ◌==◌, Bool-cases, inl, inr,
  ◌≡◌, refl, ap, ◌∙◌, arith, ==_iff,
}
use glsync.Errors.{ExecError}
use glsync.Domain
use glsync.Domain.{Job, AuditDetail, failure, non_retryable, completed, failed, dead}
use glsync.Plugin.{Registry, JobHandler}
use glsync.Store.{JobRow, Db, World, Env, Fault, delivered, refused, unacknowledged}
use glsync.Store.Run.{exec, bump, time_now, new_uuid}
use glsync.Store.Jobs.{
  update_jobs, update_job, set_completed, set_failed, set_dead, mark_completed, mark_failed,
  mark_dead,
}
use glsync.Store.Jobs.Rows.{IsPatched, update_where-IsPatched}
use glsync.Store.Audit
use glsync.Store.Audit.{insert_audit}
use glsync.Worker.Backoff.{capped, next_backoff-capped}
use glsync.Worker.Executor.{Executor, execute}
use glsync.Worker.Executor.Outcomes.{db-execute}
use glsync.Worker.Processor.{
  fatal_code, write_audit, notify, on_success, on_dead, on_retry, after_failure, conclude, process,
}
use glsync.Worker.Processor.Settle.{jobs-write_audit, jobs-notify}
use glsync.Worker.Processor.Columns.{
  IsFailed, IsDead, IsWritten, written, lost, IsMarked, success, retry, rejection, exhaustion,
  fatal_code-some, fatal_code-none,
}

module _ (env : Env) where
  exec-IsWritten :
      (id : Text) (change : ℕ → JobRow → JobRow) {IsChange : JobRow → JobRow → Type 0} (w : World)
      → ((r : JobRow) → IsChange r (change (env.now w.step) r))
      → IsWritten env w.step id IsChange w.jobs
          (exec env (λ now. update_jobs (update_job id (change now))) w).1.jobs
  unfolding exec update_job
  exec-IsWritten id change {IsChange} w right = go (env.fault w.step) refl
    where
      patched :
          Forall₂
            (IsPatched (λ r. r.id ≡ id) IsChange)
            w.jobs
            (update_job id (change (env.now w.step)) w.jobs)
      patched =
          update_where-IsPatched (λ r. r.id == id) (change (env.now w.step)) (λ r. ==_iff r.id id)
            right w.jobs

      go :
          (x : Fault)
          → env.fault w.step ≡ x
          → IsWritten env w.step id IsChange w.jobs
              (exec env (λ now. update_jobs (update_job id (change now))) w).1.jobs
      go delivered e = rw e (written (λ f. cc) patched)
      go refused e = rw e (lost e refl)
      go unacknowledged e = rw e (written (λ f. cc) patched)

  step-write_audit :
      (job : Job) (action : Text) (detail : AuditDetail) (w : World)
      → (write_audit env job action detail w).1.step ≡ w.step + 3
  unfolding write_audit Audit.insert exec insert_audit time_now new_uuid
  step-write_audit job action detail w = ground arith

step-notify :
    (hs : List JobHandler) (job : Job) (result : Option ExecError) (w : World)
    → (notify hs job result w).1.step ≡ w.step
unfolding notify
step-notify [] job result w = refl
step-notify (h ∷ hs) job result w = step-notify hs job result _

module _ (env : Env) (registry : Registry) (ex : Executor) (job : Job) where
  on_success-IsMarked :
      (w : World) → IsMarked env job w.step w.jobs (on_success env registry ex job w).1.jobs none
  unfolding on_success mark_completed set_completed
  on_success-IsMarked w =
      let (_, marked) = mark_completed env job.id w in
      rw (jobs-write_audit env job (text "transition_success") _ marked) (
        success (
          exec-IsWritten env job.id set_completed w
            (λ r. record { over = refl; at_time = refl; stopped = refl; same_rest = refl })))

  module _ (e : ExecError) where
    on_dead-IsWritten :
        (detail : AuditDetail) (n : ℕ) (w : World)
        → w.step ≡ n
        → IsWritten env n job.id (IsDead e) w.jobs (on_dead env registry ex job e detail w).1.jobs
    unfolding on_dead mark_dead set_dead
    on_dead-IsWritten detail n w s =
        let (_, marked) = mark_dead env job.id e w in
        rw (← s, jobs-write_audit env job (text "job_dead") detail marked)
          (exec-IsWritten env job.id (λ _. set_dead e) w
            (λ r. record {
              given_up = refl;
              reason = refl;
              counted = refl;
              stopped = refl;
              same_rest = refl;
            }))

    on_retry-IsWritten :
        (n : ℕ) (w : World)
        → w.step ≡ n
        → IsWritten env
            (n + 1)
            job.id
            (IsFailed e (env.now n + capped job.attempts))
            w.jobs
            (on_retry env registry ex job e w).1.jobs
    unfolding on_retry mark_failed time_now set_failed
    on_retry-IsWritten n w s =
        rw (← s, next_backoff-capped job.attempts)
          (exec-IsWritten env job.id (λ _. set_failed e (env.now w.step + capped job.attempts))
            (bump w)
            (λ r. record {
              to_retry = refl;
              reason = refl;
              from_then = refl;
              counted = refl;
              stopped = refl;
              same_rest = refl;
            }))

    after_failure-IsMarked :
        (code : Option ℕ) (n : ℕ) (w : World)
        → fatal_code e ≡ code
        → w.step ≡ n + 3
        → IsMarked env job n w.jobs (after_failure env registry ex job e code w).1.jobs (some e)
    unfolding after_failure
    after_failure-IsMarked (some code) n w c s =
        rejection e (fatal_code-some e code c) (on_dead-IsWritten (non_retryable code) (n + 3) w s)
    after_failure-IsMarked none n w c s =
        elim (Bool-cases (leb job.max_attempts (job.attempts + 1))) [
          | inl last ↦
              rw last
                (exhaustion e (leb→le _ _ last) (on_dead-IsWritten Domain.exhausted (n + 3) w s))
          | inr more ↦
              let after : n + 3 + 1 ≡ n + 4 = omega arith in
              rw more (
                retry e (fatal_code-none e c) (ground arith)
                  (rw after at (on_retry-IsWritten (n + 3) w s)))
        ]

  conclude-IsMarked :
      (result : Option ExecError) (n : ℕ) (w : World)
      → w.step ≡ n
      → IsMarked env job n w.jobs (conclude env registry ex job result w).1.jobs result
  unfolding conclude
  conclude-IsMarked none n w s = rw (← s) (on_success-IsMarked w)
  conclude-IsMarked (some e) n w s =
      let (_, noted) =
        write_audit env job (text "transition_failed") (failure e (job.attempts + 1)) w in
      let same =
        jobs-write_audit env job (text "transition_failed") (failure e (job.attempts + 1)) w in
      rw same at (
        after_failure-IsMarked e (fatal_code e) n noted refl
          (step-write_audit env job _ _ w ∙ ap (λ m. m + 3) s))

  -- When a job has been executed, its rows are marked by the result, and no other row changes: completed
  -- at the time of the statement; failed with the error and one attempt more, and due again after
  -- the capped backoff of the job's attempts, counted from the clock read just before; or dead with the error
  -- and one attempt more, if Jira refused for good or the attempts are used up. Every other column is as
  -- it was, and no mark is made exactly if the statement that marks the job never reached the server.
  pub process-IsMarked :
      (w : World)
      → let (result, ran) = execute env ex job w in
        IsMarked env job ran.step w.jobs (process env registry ex job w).1.jobs result
  unfolding process
  process-IsMarked w =
      let (result, ran) = execute env ex job w in
      let (_, told) = notify registry.job_handlers job result ran in
      let same : told.jobs ≡ w.jobs =
        jobs-notify registry.job_handlers job result ran
        ∙ ap (λ (d : Db). d.jobs) (db-execute env ex job w) in
      rw same at
        (conclude-IsMarked result ran.step told (step-notify registry.job_handlers job result ran))
