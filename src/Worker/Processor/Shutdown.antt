-- ===== src/Worker/Processor/Shutdown.antt =====
-- The loop `Run` of internal/worker/processor.go and its goroutines in a context that is cancelled.
use glsync.Base.{
  arith, ℕ, ◌+◌, ◌<◌, text, List, ◌++◌, true, Bool-cases, inl, inr, Option, none, some, ◌≡◌, ◌≢◌,
  refl, ap, ◌∙◌, leb,
}
use glsync.Errors.{ExecError}
use glsync.Domain
use glsync.Domain.{Job, AuditDetail, non_retryable, failure}
use glsync.Plugin.{Registry}
use glsync.Store.{Db, World, Env, within, delivered}
use glsync.Store.Run.{exec, time_now}
use glsync.Store.Jobs.{mark_completed, mark_failed, mark_dead, dequeue}
use glsync.Worker.Executor.{Executor}
use glsync.Worker.Executor.Outcomes.{db-execute}
use glsync.Worker.Processor.{
  fatal_code, notify, on_success, on_dead, on_retry, after_failure, conclude,
}
use glsync.Worker.Processor.Settle.{jobs-write_audit, jobs-notify}
use glsync.Worker.Processor.Entries.{IsReady, trail_of, trail, expected}
use glsync.Worker.Processor.Trail.{quiet-notify, quiet-Logged, conclude-Logged}
use glsync.Worker.Processor.Run.{
  Goroutine, Processor, Loop, take_batch, tick, run_job, finish_job, Step, ticked, handed,
  all_handed, ran, ended, cancel, done, drained, other, Steps, stay, step,
}

module _ (env : Env) (registry : Registry) (ex : Executor) (job : Job) where
  jobs-on_dead :
      (e : ExecError) (detail : AuditDetail) (w : World)
      → (on_dead (within true env) registry ex job e detail w).1.jobs ≡ w.jobs
  unfolding on_dead mark_dead exec
  jobs-on_dead e detail w = jobs-write_audit (within true env) job (text "job_dead") detail _

  jobs-after_failure :
      (e : ExecError) (code : Option ℕ) (w : World)
      → (after_failure (within true env) registry ex job e code w).1.jobs ≡ w.jobs
  unfolding after_failure on_retry mark_failed exec time_now
  jobs-after_failure e (some code) w = jobs-on_dead e (non_retryable code) w
  jobs-after_failure e none w = elim (Bool-cases (leb job.max_attempts (job.attempts + 1))) [
    | inl last ↦ rw last (jobs-on_dead e Domain.exhausted w)
    | inr more ↦ rw more refl
  ]

  -- No mark reaches the server.
  jobs-conclude :
      (result : Option ExecError) (w : World)
      → (conclude (within true env) registry ex job result w).1.jobs ≡ w.jobs
  unfolding conclude on_success mark_completed exec
  jobs-conclude none w = jobs-write_audit (within true env) job (text "transition_success") _ _
  jobs-conclude (some e) w =
      jobs-after_failure e (fatal_code e) _
      ∙ jobs-write_audit (within true env) job (text "transition_failed")
          (failure e (job.attempts + 1)) w

-- What holds at the end of steps that began with a cancelled context.
pub record IsWoundUp (s t : Loop) : Type 0 where
  pub still_cancelled : t.cancelled ≡ true
  pub no_claims : t.claimed ≡ s.claimed
  pub same_jobs : t.world.jobs ≡ s.world.jobs

-- The rows of the jobs are as they were, and the trail says what became of the job.
pub record IsUnmarked (j : Job) (result : Option ExecError) (w w' : World) : Type 0 where
  pub same_rows : w'.jobs ≡ w.jobs
  pub said : trail w' ≡ trail w ++ expected j result

IsWoundUp-trans : {s t u : Loop} → IsWoundUp s t → IsWoundUp t u → IsWoundUp s u
IsWoundUp-trans a b = record {
  still_cancelled = b.still_cancelled;
  no_claims = b.no_claims ∙ a.no_claims;
  same_jobs = b.same_jobs ∙ a.same_jobs;
}

module _ (p : Processor) where
  -- Nobody else uses the store.
  abbrev pub IsAlone : {s t : Loop} → Step p s t → Type 0
  IsAlone (other c idle) = ⊥
  IsAlone _ = Unit

  abbrev pub AreAlone : {s t : Loop} → Steps p s t → Type 0
  AreAlone stay = Unit
  AreAlone (step x xs) = IsAlone x × AreAlone xs

  tick-IsWoundUp : (s : Loop) → s.cancelled ≡ true → IsWoundUp s (tick p s)
  unfolding tick take_batch dequeue
  tick-IsWoundUp s c = rw c (record { still_cancelled = refl; no_claims = refl; same_jobs = refl })

  Step-IsWoundUp : {s t : Loop} (x : Step p s t) → IsAlone x → s.cancelled ≡ true → IsWoundUp s t
  unfolding run_job finish_job
  Step-IsWoundUp (ticked {s} a) _ c = tick-IsWoundUp s c
  Step-IsWoundUp (ran {s} before j after e) _ c = record {
    still_cancelled = c;
    no_claims = refl;
    same_jobs = ap (λ (d : Db). d.jobs) (db-execute _ _ j s.world);
  }
  Step-IsWoundUp (ended {s} before j result after e) _ c =
      let (_, told) = notify p.registry.job_handlers j result s.world in
      record {
        still_cancelled = c;
        no_claims = refl;
        same_jobs =
            rw c (jobs-conclude p.env p.registry p.exec j result told)
            ∙ jobs-notify p.registry.job_handlers j result s.world;
      }
  Step-IsWoundUp (handed j js a free) _ c = record {
    still_cancelled = c;
    no_claims = refl;
    same_jobs = refl;
  }
  Step-IsWoundUp (all_handed a) _ c = record {
    still_cancelled = c;
    no_claims = refl;
    same_jobs = refl;
  }
  Step-IsWoundUp cancel _ c = record { still_cancelled = refl; no_claims = refl; same_jobs = refl }
  Step-IsWoundUp (done a d) _ c = record { still_cancelled = c; no_claims = refl; same_jobs = refl }
  Step-IsWoundUp (drained a e) _ c = record {
    still_cancelled = c;
    no_claims = refl;
    same_jobs = refl;
  }
  Step-IsWoundUp (other call idle) alone c = absurd alone

  -- As long as nobody else uses the store, the processor claims no job any more from a point on at which
  -- the context is cancelled, the context stays cancelled, and the table of jobs stays as it is: no job
  -- that is at work then is marked, whatever becomes of it.
  pub cancelled-IsWoundUp :
      {s t : Loop} (xs : Steps p s t) → AreAlone xs → s.cancelled ≡ true → IsWoundUp s t
  cancelled-IsWoundUp stay _ c = record { still_cancelled = c; no_claims = refl; same_jobs = refl }
  cancelled-IsWoundUp (step x xs) (a, rest) c =
      let first = Step-IsWoundUp x a c in
      IsWoundUp-trans first (cancelled-IsWoundUp xs rest first.still_cancelled)

  -- If the statements in detached contexts meet no fault, the rows of a job and of its event are there,
  -- and the uuids to come are new and different, then a goroutine that has executed its job and finishes
  -- in a cancelled context writes every audit entry of the outcome, also the one of a success, and leaves
  -- the row of the job as it was, to be executed again.
  pub finish_job-IsUnmarked :
      (s : Loop) (before : List Goroutine) (j : Job) (result : Option ExecError)
      (after : List Goroutine)
      → s.cancelled ≡ true
      → ((n : ℕ) → p.env.detached n ≡ delivered)
      → ((n m : ℕ) → n < m → p.env.uuid m ≢ p.env.uuid n)
      → IsReady p.env j s.world
      → IsUnmarked j result s.world (finish_job p before j result after s).world
  unfolding finish_job
  finish_job-IsUnmarked s before j result after c faultless apart ready =
      let hs = p.registry.job_handlers in
      let (_, told) = notify hs j result s.world in
      let (same, steps) =
        quiet-notify p.env j faultless apart p.registry p.exec hs result s.world in
      let a = quiet-Logged p.env j faultless apart s.world told ready same (omega (arith, steps)) in
      rw c (
        let b =
          conclude-Logged (within true p.env) j faultless apart p.registry p.exec result told
            (record {
              event_there = a.ready.event_there;
              job_there = a.ready.job_there;
              fresh = a.ready.fresh;
            }) in
        record {
          same_rows =
              jobs-conclude p.env p.registry p.exec j result told ∙ jobs-notify hs j result s.world;
          said = b.said ∙ ap (λ (d : Db). trail_of d.audit_logs ++ expected j result) same;
        })
