-- ===== src/Worker/Processor/Served.antt =====
-- What the ticks of the loop `Run` of internal/worker/processor.go make of the jobs that are due when they
-- begin.
use mathlib.Core.List.{Forall₂}
use glsync.Base.{
  ℕ, zero, suc, ◌+◌, ◌≤◌, ◌<◌, Text, List, [], ◌∷◌, true, false, Option, ◌≡◌, arith, All, IsUnique,
  contains,
}
use glsync.Domain.{Job, failed}
use glsync.Errors.{ExecError}
use glsync.Plugin.{Registry, JobHandler}
use glsync.Store.{JobRow, World, Env, Result, ok, err, delivered}
use glsync.Store.Run.{bump, exec, time_now, new_uuid}
use glsync.Store.Jobs.{
  is_waiting, is_claimable, select_due, dequeue, claim, mark_completed, mark_failed, mark_dead,
  job_ids,
}
use glsync.Store.Audit
use glsync.Worker.Executor.{Executor, execute}
use glsync.Worker.Processor.{
  notify, write_audit, on_success, on_dead, on_retry, after_failure, conclude, process, process_all,
  process_batch, poll,
}
use glsync.Worker.Processor.Budget.{budget}
use glsync.Worker.Processor.Retries.{is_over}
use glsync.Worker.Processor.Ticks.{batch_at}
use glsync.Worker.Processor.Queue.{
  go_on, work_off, IsServed, untouched, ended, retried, work_off-IsWorkedOff,
}

module _ (env : Env) where
  step-claim : (now : ℕ) (rows : List JobRow) (w : World) → w.step ≤ (claim env now rows w).1.step
  unfolding claim
  step-claim now [] w = omega arith
  step-claim now (r ∷ rows) w = ground arith

  step-dequeue : (n : ℕ) (w : World) → w.step ≤ (dequeue env n w).1.step
  unfolding dequeue
  step-dequeue n w =
      let claimed = λ (v : World).
        step-claim (env.now w.step) (select_due (env.now w.step) (env.locked (w.step + 1)) n v.jobs)
          v in
      ground (arith, claimed (bump (bump w)))

  step-execute : (ex : Executor) (j : Job) (w : World) → w.step ≤ (execute env ex j w).1.step
  unfolding execute time_now
  step-execute ex j w = ground arith

  step-notify :
      (hs : List JobHandler) (j : Job) (result : Option ExecError) (w : World)
      → w.step ≤ (notify hs j result w).1.step
  unfolding notify
  step-notify [] j result w = omega arith
  step-notify (h ∷ hs) j result w = step-notify hs j result _

  step-conclude :
      (registry : Registry) (ex : Executor) (j : Job) (result : Option ExecError) (w : World)
      → w.step ≤ (conclude env registry ex j result w).1.step
  unfolding conclude on_success on_dead on_retry after_failure write_audit mark_completed
      mark_failed mark_dead Audit.insert exec time_now new_uuid
  step-conclude registry ex j result w = ground arith

  module _ (registry : Registry) (ex : Executor) where
    step-process : (j : Job) (w : World) → w.step ≤ (process env registry ex j w).1.step
    unfolding process
    step-process j w =
        let (result, ran) = execute env ex j w in
        let (_, told) = notify registry.job_handlers j result ran in
        omega (
          arith,
          step-execute ex j w,
          step-notify registry.job_handlers j result ran,
          step-conclude registry ex j result told,
        )

    step-process_all :
        (js : List Job) (w : World) → w.step ≤ (process_all env registry ex js w).1.step
    unfolding process_all
    step-process_all [] w = omega arith
    step-process_all (j ∷ js) w =
        omega (arith, step-process j w, step-process_all js (process env registry ex j w).1)

    step-process_batch :
        (r : Result (List Job)) (w : World) → w.step ≤ (process_batch env registry ex r w).1.step
    unfolding process_batch
    step-process_batch (ok js) w = step-process_all js w
    step-process_batch (err x) w = omega arith

    step-poll : (n : ℕ) (w : World) → w.step ≤ (poll env registry ex n w).1.step
    unfolding poll
    step-poll n w =
        let (r, w') = dequeue env n w in omega (arith, step-dequeue n w, step-process_batch r w')

    step-go_on :
        (rows : List JobRow) (w rest : World)
        → w.step ≤ rest.step
        → w.step ≤ (go_on rows w rest).step
    step-go_on [] w rest h = omega arith
    step-go_on (r ∷ rows) w rest h = h

    step-work_off : (n fuel : ℕ) (w : World) → w.step ≤ (work_off env registry ex n fuel w).step
    unfolding work_off
    step-work_off n zero w = omega arith
    step-work_off n (suc fuel) w =
        let next = (poll env registry ex n w).1 in
        let later = step-work_off n fuel next in
        step-go_on (batch_at env n w) w _ (omega (arith, step-poll n w, later))

-- A job that was due is over, or has failed and counts more attempts than before.
pub data IsTried (t : ℕ) (r c : JobRow) : Type 0 where
  not_due : (is_waiting r.status ≡ true → t < r.next_run_at) → IsTried t r c
  finished : c.id ≡ r.id → is_over c.status ≡ true → IsTried t r c
  postponed :
      c.id ≡ r.id
      → c.status ≡ failed
      → r.attempts < c.attempts
      → c.attempts < c.max_attempts
      → IsTried t r c

module _ (now t : ℕ) (locked : List Text) (free : locked ≡ []) (later : t ≤ now) where
  tried : (r c : JobRow) → is_claimable now locked c ≡ false → IsServed r c → IsTried t r c
  unfolding is_claimable contains
  tried r c idle (untouched e) = not_due (λ waits. ground (arith, free, later, idle, e, waits))
  tried r c idle (ended waits same o) = finished same o
  tried r c idle (retried waits same s b m l) = postponed same s m l

  all_tried :
      {rs cs : List JobRow}
      → Forall₂ IsServed rs cs
      → All (λ c. is_claimable now locked c ≡ false) cs
      → Forall₂ (IsTried t) rs cs
  all_tried Forall₂.nil _ = Forall₂.nil
  all_tried (Forall₂.cons {a} {b} p h) (idle, rest) =
      Forall₂.cons (tried a b idle p) (all_tried h rest)

module _ (env : Env) (registry : Registry) (ex : Executor) (concurrency : ℕ)
    (faultless : (n : ℕ) → env.fault n ≡ delivered) (positive : 1 ≤ concurrency)
    (free : (n : ℕ) → env.locked n ≡ []) (forward : (n m : ℕ) → n ≤ m → env.now n ≤ env.now m) where
  -- If no statement meets a fault, the concurrency is positive, the ids of the jobs are unique, the clock
  -- never goes back, nobody else locks rows, and there are more ticks than the sum, over the waiting
  -- jobs, of one plus the attempts left, then every job that is due when the ticks begin is completed or dead after them, or has failed, counts more attempts and has some left.
  pub work_off-IsTried :
      (n : ℕ) (w : World)
      → IsUnique (job_ids w.jobs)
      → budget w.jobs < n
      → Forall₂ (IsTried (env.now w.step)) w.jobs (work_off env registry ex concurrency n w).jobs
  work_off-IsTried n w u enough =
      let w' = work_off env registry ex concurrency n w in
      let k = work_off-IsWorkedOff env registry ex concurrency faultless positive n w u enough in
      all_tried (env.now w'.step) (env.now w.step) (env.locked (w'.step + 1)) (free (w'.step + 1))
        (forward w.step w'.step (step-work_off env registry ex concurrency n w)) k.served
        k.nothing_due
