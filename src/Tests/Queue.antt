-- ===== src/Tests/Queue.antt =====
-- Runs of the processor's ticks.
use mathlib.Core.List.{Forall₂}
use glsync.Worker.Processor.Served.{IsTried, work_off-IsTried}
use glsync.Base.{ℕ, ◌≤◌, contains, ◌==◌, arith, text, refl, some}
use glsync.Errors.{http}
use glsync.Worker.Executor.{Executor}
use glsync.Worker.Processor.Queue.{work_off, IsWorkedOff, work_off-IsWorkedOff}
use glsync.Tests.Fixtures.{env, table, executor_with, registry}

-- Jira is overloaded: the two due jobs fail, and wait for their time.
abbrev busy : Executor
busy = executor_with (some (http 503 (text "busy")))

work_off-IsWorkedOff_example : IsWorkedOff env 1 table (work_off env registry busy 1 19 table)
unfolding contains ◌==◌
work_off-IsWorkedOff_example =
    work_off-IsWorkedOff env registry busy 1 (λ n. refl) (omega arith) 19 table
      (refl, (refl, (refl, tt))) (omega arith)

-- The clock shows 1000 and the number of the call.
forward : (n m : ℕ) → n ≤ m → env.now n ≤ env.now m
forward n m h = omega (arith, h)

work_off-IsTried_example :
    Forall₂ (IsTried 1000) table.jobs (work_off env registry busy 1 19 table).jobs
unfolding contains ◌==◌
work_off-IsTried_example =
    work_off-IsTried env registry busy 1 (λ n. refl) (omega arith) (λ n. refl) forward 19 table
      (refl, (refl, (refl, tt))) (omega arith)
