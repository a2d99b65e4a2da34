-- ===== src/Tests/Worker.antt =====
-- The processing of single jobs.
use glsync.Base.{
  ℕ, ◌<◌, ap, contains, arith, ◌==◌, pos, Text, text, [], ◌∷◌, ◌++◌, ◌≡◌, ◌≢◌, ◌↔◌, ◌⊎◌, refl, none,
  some,
}
use glsync.Errors.{http}
use glsync.Domain.{Job, running}
use glsync.Domain.States.{done}
use glsync.Workflow.Transition.{resolve_transition_id}
use glsync.Jira.{transition}
use glsync.Worker.Backoff.{next_backoff, capped, next_backoff-capped}
use glsync.Worker.Executor.{Executor, execute}
use glsync.Worker.Executor.Outcomes.{execute_configured}
use glsync.Worker.Processor.{process}
use glsync.Worker.Processor.Columns.{IsMarked}
use glsync.Worker.Processor.Marks.{process-IsMarked}
use glsync.Worker.Processor.Retries.{row_with, rounds, IsOver, rounds-IsOver}
use glsync.Worker.Processor.Entries.{IsReady, trail, expected}
use glsync.Worker.Processor.Trail.{process-expected}
use glsync.Worker.Reconciler.{reset_stuck_jobs}
use glsync.Worker.Reconciler.Resets.{IsTicked, reset_stuck_jobs-IsTicked}
use glsync.Store.{World}
use glsync.Tests.Fixtures.{idle_row, env, table, job_of, executor_with, registry}

abbrev job : Job
job = job_of (text "a") running 10

-- Jira is overloaded.
abbrev busy : Executor
busy = executor_with (some (http 503 (text "busy")))

process-IsMarked_example :
    IsMarked env job
      (execute env busy job table).1.step
      table.jobs
      (process env registry busy job table).1.jobs
      (execute env busy job table).0
process-IsMarked_example = process-IsMarked env registry busy job table

execute_configured_example :
    ((resolve_transition_id busy.resolver done ≡ none)
      × (execute env busy job table ≡ (none, table)))
    ⊎ ((id : Text) × (resolve_transition_id busy.resolver done ≡ some id)
        × ((execute env busy job table).1.jira_calls ≡ [] ++ transition (text "RIS-7") id ∷ [])
        × (((execute env busy job table).0 ≡ none)
            ↔ (busy.jira.transition_issue 0 (text "RIS-7") id ≡ none)))
execute_configured_example = execute_configured env busy job table refl (λ e. cc)

next_backoff-capped_example : next_backoff 3 ≡ pos (capped 3)
next_backoff-capped_example = next_backoff-capped 3

-- One job is running since time 3, another since 990; the tick comes at 1000 with a timeout of 500.
abbrev hanging : World
hanging = record table {
  db = record table.db {
    jobs =
        record { job = job_of (text "a") running 1; running_since = some 3 }
        ∷ record { job = job_of (text "b") running 2; running_since = some 990 }
        ∷ [];
  };
}

reset_stuck_jobs-IsTicked_example :
    IsTicked env (pos 500) hanging (reset_stuck_jobs env (pos 500) hanging).1.jobs
reset_stuck_jobs-IsTicked_example = reset_stuck_jobs-IsTicked env (pos 500) hanging

held : row_with (text "a") table.jobs ≡ some (idle_row (text "a") 10)
unfolding row_with ◌==◌
held = refl

rounds-IsOver_example :
    IsOver env registry busy (λ n. refl) (text "a") 5 (rounds env registry busy 5 (text "a") table)
rounds-IsOver_example =
    rounds-IsOver env registry busy (λ n. refl) 5 5 (text "a") table (idle_row (text "a") 10) held
      refl (omega arith) (omega arith)

job-IsReady : IsReady env job table
unfolding contains ◌==◌
job-IsReady = record { event_there = refl; job_there = refl; fresh = λ n h. refl }

abbrev number : Text → ℕ
number [] = 0
number (c ∷ s) = c

-- The uuids of the surroundings are the numbers of the calls.
uuids_apart : (n m : ℕ) → n < m → env.uuid m ≢ env.uuid n
uuids_apart n m h = λ e. omega (arith, h, ap number e)

process-expected_example :
    trail (process env registry busy job table).1
    ≡ trail table ++ expected job (execute env busy job table).0
process-expected_example =
    process-expected env job (λ n. refl) uuids_apart registry busy table job-IsReady
