-- ===== src/Tests/Shutdown.antt =====
-- Runs of the processor in a context that is cancelled.
use glsync.Base.{
  pos, ℕ, ◌<◌, arith, ap, contains, ◌==◌, Text, text, [], ◌∷◌, true, none, some, ◌≢◌, refl,
}
use glsync.Domain.{Job, running}
use glsync.Store.{World}
use glsync.Store.Jobs.{dequeue}
use glsync.Worker.Processor.Entries.{IsReady}
use glsync.Worker.Processor.Run.{
  Processor, selecting, returned, executed, Loop, take_batch, tick, finish_job, ticked, ended, done,
  drained, stay, step,
}
use glsync.Worker.Processor.Run as Proc
use glsync.Worker.Processor.Shutdown.{
  IsWoundUp, cancelled-IsWoundUp, IsUnmarked, finish_job-IsUnmarked,
}
use glsync.Tests.Fixtures.{env, event_row, world_of, job_of, executor_with, registry}

abbrev worker : Processor
worker = record {
  env = env;
  registry = registry;
  exec = executor_with none;
  cfg = record { concurrency = pos 2; poll_interval = pos 5; max_attempts = 5 };
}

abbrev job : Job
job = job_of (text "a") running 10

abbrev world : World
world = world_of (record {
  events = event_row ∷ [];
  jobs = record { job = job; running_since = some 7 } ∷ [];
  audit_logs = [];
})

-- The transition was made, and the signal came.
abbrev stopping : Loop
stopping = record {
  at = selecting;
  running = executed job none ∷ [];
  cancelled = true;
  world = world;
  claimed = job ∷ [];
  finished = [];
}

abbrev finished : Loop
finished = finish_job worker [] job none [] (tick worker stopping)

abbrev stopped : Loop
stopped = record finished { at = returned }

-- One more tick is taken, the goroutine ends, and the loop returns.
to_stop : Proc.Steps worker stopping stopped
unfolding tick take_batch dequeue finish_job
to_stop =
    step (ticked refl)
      (step (ended [] job none [] refl) (step (done refl refl) (step (drained refl refl) stay)))

cancelled-IsWoundUp_example : IsWoundUp stopping stopped
unfolding to_stop
cancelled-IsWoundUp_example = cancelled-IsWoundUp worker to_stop (tt, (tt, (tt, (tt, tt)))) refl

abbrev number : Text → ℕ
number [] = 0
number (c ∷ s) = c

uuids_apart : (n m : ℕ) → n < m → env.uuid m ≢ env.uuid n
uuids_apart n m h = λ e. omega (arith, h, ap number e)

job-IsReady : IsReady env job world
unfolding contains ◌==◌
job-IsReady = record { event_there = refl; job_there = refl; fresh = λ n h. refl }

finish_job-IsUnmarked_example :
    IsUnmarked job none world (finish_job worker [] job none [] stopping).world
finish_job-IsUnmarked_example =
    finish_job-IsUnmarked worker stopping [] job none [] refl (λ n. refl) uuids_apart job-IsReady
