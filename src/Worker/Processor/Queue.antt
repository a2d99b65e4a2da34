-- ===== src/Worker/Processor/Queue.antt =====
-- The ticks of the loop `Run` of internal/worker/processor.go, as long as they find jobs that are due.
use mathlib.Core.List.{Forall₂}
use glsync.Base.{
  All, ◌≤◌, false, ℕ, zero, suc, ◌+◌, ◌≤◌, ◌<◌, Text, List, [], ◌∷◌, true, false, ◌≡◌, refl, ◌∙◌,
  arith, contains, IsUnique, ==_iff,
}
use glsync.Domain.{failed}
use glsync.Plugin.{Registry}
use glsync.Store.{JobRow, World, Env, delivered}
use glsync.Store.Jobs.{is_claimable, job_ids, is_waiting}
use glsync.Worker.Executor.{Executor}
use glsync.Worker.Processor.{poll}
use glsync.Worker.Processor.Holds.{contains-select_due}
use glsync.Worker.Processor.Retries.{is_over}
use glsync.Worker.Processor.Batches.{IsWorked, kept, over, again}
use glsync.Store.Jobs.Idle.{select_due-nil}
use glsync.Worker.Processor.Budget.{budget, over_rests, budget_spent, job_ids-IsWorked}
use glsync.Worker.Processor.Ticks.{batch_at, poll-IsWorked}

-- A row before and after any number of ticks: only waiting rows change, and those that do are over, or
-- have failed, count more attempts than before, and have some left.
pub data IsServed (r c : JobRow) : Type 0 where
  untouched : c ≡ r → IsServed r c
  ended : is_waiting r.status ≡ true → c.id ≡ r.id → is_over c.status ≡ true → IsServed r c
  retried :
      is_waiting r.status ≡ true
      → c.id ≡ r.id
      → c.status ≡ failed
      → c.max_attempts ≡ r.max_attempts
      → r.attempts < c.attempts
      → c.attempts < c.max_attempts
      → IsServed r c

serve_on : (ids : List Text) (r c d : JobRow) → IsWorked ids r c → IsServed c d → IsServed r d
serve_on ids r c d (kept x e) h = rw e at h
serve_on ids r c d (over x w e o) (untouched f) = rw f (ended w e o)
serve_on ids r c d (over x w e o) (ended v f p) = absurd (cc (over_rests c.status o, v))
serve_on ids r c d (over x w e o) (retried v f s b m l) = absurd (cc (over_rests c.status o, v))
serve_on ids r c d (again x w e s b n l) (untouched f) =
    rw f (retried w e s b (omega (arith, n)) (omega (arith, n, b, l)))
serve_on ids r c d (again x w e s b n l) (ended v f p) = ended w (f ∙ e) p
serve_on ids r c d (again x w e s b n l) (retried v f t m o q) =
    retried w (f ∙ e) t (m ∙ b) (omega (arith, n, o)) q

serve_all :
    (ids : List Text) {rs cs ds : List JobRow}
    → Forall₂ (IsWorked ids) rs cs
    → Forall₂ IsServed cs ds
    → Forall₂ IsServed rs ds
serve_all ids Forall₂.nil Forall₂.nil = Forall₂.nil
serve_all ids (Forall₂.cons {a} {b} p h) (Forall₂.cons {b = c} q k) =
    Forall₂.cons (serve_on ids a b c p q) (serve_all ids h k)

serve_none : (rs : List JobRow) → Forall₂ IsServed rs rs
serve_none [] = Forall₂.nil
serve_none (r ∷ rs) = Forall₂.cons (untouched refl) (serve_none rs)

-- No row is left that the next tick could claim.
pub record IsWorkedOff (env : Env) (concurrency : ℕ) (w w' : World) : Type 0 where
  pub nothing_due :
      All (λ r. is_claimable (env.now w'.step) (env.locked (w'.step + 1)) r ≡ false) w'.jobs
  pub served : Forall₂ IsServed w.jobs w'.jobs

abbrev pub go_on : List JobRow → World → World → World
go_on [] now next = now
go_on (r ∷ rows) now next = next

module _ (env : Env) (registry : Registry) (ex : Executor) (concurrency : ℕ) where
  -- Ticks, at most `n`, as long as they find something.
  unfoldable pub work_off : ℕ → World → World
  work_off zero w = w
  work_off (suc n) w =
      let rest = work_off n (poll env registry ex concurrency w).1 in
      go_on (batch_at env concurrency w) w rest

  module _ (faultless : (n : ℕ) → env.fault n ≡ delivered) (positive : 1 ≤ concurrency) where
    tick-IsWorkedOff :
        (n : ℕ) (w rest : World)
        → IsUnique (job_ids w.jobs)
        → budget w.jobs < suc n
        → (budget (poll env registry ex concurrency w).1.jobs < n
            → IsWorkedOff env concurrency (poll env registry ex concurrency w).1 rest)
        → IsWorkedOff env concurrency w (go_on (batch_at env concurrency w) w rest)
    unfolding contains
    tick-IsWorkedOff n w rest u enough later = go (batch_at env concurrency w) refl
      where
        batch : List JobRow
        batch = batch_at env concurrency w

        ticked :
            Forall₂ (IsWorked (job_ids batch)) w.jobs (poll env registry ex concurrency w).1.jobs
        ticked = poll-IsWorked env registry ex concurrency faultless w u

        go : (rows : List JobRow) → batch ≡ rows → IsWorkedOff env concurrency w (go_on rows w rest)
        go [] e = record {
          nothing_due = select_due-nil _ _ concurrency w.jobs positive e;
          served = serve_none w.jobs;
        }
        go (r ∷ rows) e =
            let among : contains r.id (job_ids batch) ≡ true =
              rw e (ground (arith, ==_iff r.id r.id)) in
            let there = contains-select_due _ _ concurrency w.jobs r.id among in
            let less = budget_spent (job_ids batch) r.id among there ticked in
            let k = later (omega (arith, less, enough)) in
            record {
              nothing_due = k.nothing_due;
              served = serve_all (job_ids batch) ticked k.served;
            }

    -- If no statement meets a fault, the concurrency is positive and the ids of the jobs are unique, then,
    -- whatever Jira answers, a loop that is given more ticks than the sum, over the waiting jobs, of one
    -- plus the attempts left, comes to a point at which no unlocked job is due. Each job that waited is then completed or dead, or has failed with more attempts counted and
    -- some left, or is as it was; the other jobs are as they were.
    pub work_off-IsWorkedOff :
        (n : ℕ) (w : World)
        → IsUnique (job_ids w.jobs)
        → budget w.jobs < n
        → IsWorkedOff env concurrency w (work_off n w)
    unfolding work_off
    work_off-IsWorkedOff zero w u enough = absurd (omega (arith, enough))
    work_off-IsWorkedOff (suc n) w u enough =
        tick-IsWorkedOff n w (work_off n (poll env registry ex concurrency w).1) u enough (
          work_off-IsWorkedOff n (poll env registry ex concurrency w).1
            (rw (job_ids-IsWorked _ (poll-IsWorked env registry ex concurrency faultless w u)) u))
