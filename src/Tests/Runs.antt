-- ===== src/Tests/Runs.antt =====
-- Runs of the processor's loop and of the whole process.
use glsync.Base.{
  ◌*◌, ◌/◌, pos, ◌≤◌, text, [], ◌∷◌, true, Option, some, ◌≡◌, refl, arith, length, sort_by,
  contains, ◌==◌,
}
use glsync.Errors.{ExecError, http}
use glsync.Domain.{Job, pending}
use glsync.Config.{Config, defaults}
use glsync.Jira.Client.{not_executed}
use glsync.Workflow.DueDate.{utc}
use glsync.Store.Pool.{PoolConfig, Pgxpool, pool_settings}
use glsync.Store.Jobs.{dequeue, claim, select_due, is_claimable}
use glsync.Worker.Executor.{execute}
use glsync.Worker.Processor.Run.{
  Processor, selecting, handing, draining, returned, executing, executed, Loop, env_in, exec_in,
  initial, start_loop, take_batch, tick, run_job, finish_job, ticked, handed, all_handed, ran,
  ended, cancel, done, drained, stay, step,
}
use glsync.Worker.Processor.Run.{is_positive, other}
use glsync.Worker.Processor.Run as Proc
use glsync.Worker.Processor.Drain.{running-bounded, IsDrained, returned-IsDrained}
use glsync.Worker.Processor.Stops.{Ends, cancelled-Ends}
use glsync.Worker.Reconciler.Run as Rec
use glsync.Startup.{Outside, App, wire}
use glsync.Server.Listen.{serve_error}
use glsync.Startup.Life.{Process, started, start_process, start_all}
use glsync.Startup.Life
use glsync.Startup.Life.Ends.{IsFinished, exited-IsFinished}
use glsync.Startup.Life.Exits.{Exits, signalled-Exits}
use glsync.Store.Invariant.Calls.{perform}
use glsync.Store.Invariant.Calls
use glsync.Store.Lifecycle.{Evolves}
use glsync.Worker.Processor.Lives.{Steps-Evolves}
use glsync.Tests.Store.{table-IsValid}
use glsync.Store.Invariant.{IsValid}
use glsync.Server.Routes.{webhook}
use glsync.Startup.Life.{with_world}
use glsync.Startup.Life.Valid.{Steps-IsValid}
use glsync.Tests.Fixtures.{delivery, env, table, job_of, executor_with, registry}

abbrev worker : Processor
worker = record {
  env = env;
  registry = registry;
  exec = executor_with (some (http 503 (text "busy")));
  cfg = record { concurrency = pos 1; poll_interval = pos 5; max_attempts = 5 };
}

abbrev job : Job
job = job_of (text "a") pending 10

-- One tick claims the due job, a goroutine works on it, and the loop is cancelled.
abbrev batch : Loop
batch = tick worker (initial table)

abbrev handed_out : Loop
handed_out = record batch { at = handing []; running = executing job ∷ [] }

abbrev at_work : Loop
at_work = record handed_out { at = selecting }

abbrev executed_result : Option ExecError
executed_result = (execute (env_in worker at_work) (exec_in worker at_work) job at_work.world).0

abbrev executed_once : Loop
executed_once = run_job worker [] job [] at_work

abbrev finished_once : Loop
finished_once = finish_job worker [] job executed_result [] executed_once

abbrev stopped : Loop
stopped = record finished_once { at = returned; cancelled = true }

loop_started : start_loop worker.cfg table ≡ some (initial table)
unfolding start_loop
loop_started = refl

to_work : Proc.Steps worker (initial table) at_work
unfolding tick take_batch dequeue claim select_due is_claimable contains ◌==◌ sort_by
to_work = step (ticked refl) (step (handed job [] refl (omega arith)) (step (all_handed refl) stay))

to_stop : Proc.Steps worker at_work stopped
unfolding run_job finish_job tick take_batch dequeue claim select_due sort_by
to_stop = step (ran [] job [] refl) (
    step (ended [] job _ [] refl)
      (step cancel (step (done refl refl) (step (drained refl refl) stay))))

running-bounded_example : length at_work.running ≤ 1
running-bounded_example = running-bounded worker table (initial table) at_work loop_started to_work

whole_run : Proc.Steps worker (initial table) stopped
unfolding tick take_batch dequeue claim select_due is_claimable contains ◌==◌ sort_by run_job
    finish_job
whole_run =
    step (ticked refl) (step (handed job [] refl (omega arith)) (step (all_handed refl) to_stop))

returned-IsDrained_example : IsDrained worker stopped
returned-IsDrained_example =
    returned-IsDrained worker table (initial table) stopped loop_started whole_run refl

-- In the middle of a batch.
cancelled-Ends_example : Ends worker (record handed_out { cancelled = true })
cancelled-Ends_example =
    cancelled-Ends worker (omega arith) (record handed_out { cancelled = true }) refl

abbrev settings : Config
settings = record defaults {
  gitlab = record defaults.gitlab { webhook_secret = text "s" };
  jira = record defaults.jira { username = text "u"; api_token = text "t" };
  database = record defaults.database { url = text "postgres://db" };
}

abbrev pgx : Pgxpool
pgx = record {
  parse_config = λ url. some (record {
    dsn = url;
    max_conns = 4;
    min_conns = 0;
    max_conn_lifetime = 0;
    max_conn_idle_time = 0;
    health_check_period = 0;
  });
  new_with_config = λ _. true;
  ping = λ _. true;
}

abbrev outside : Outside
outside = record {
  config_path = text "config/glsync.yaml";
  source = record {
    read_file = λ _. some [];
    decode_yaml = λ _ _ _. some settings;
    scaled = λ f unit scale. f * unit / scale;
    getenv = λ _. [];
  };
  pgx = pgx;
  http_client = λ _ _ _. not_executed;
  zone = utc;
  env = env;
  registry = registry;
  ping = λ _. true;
}

abbrev pool : PoolConfig
pool = pool_settings settings.database (record {
  dsn = text "postgres://db";
  max_conns = 4;
  min_conns = 0;
  max_conn_lifetime = 0;
  max_conn_idle_time = 0;
  health_check_period = 0;
})

abbrev app : App
app = wire outside settings pool

abbrev begun : Process
begun = record {
  main = Life.serving;
  http = Life.listening;
  proc = initial table;
  rec = Rec.selecting;
}

process_started : start_process app table ≡ some begun
unfolding start_process start_all start_loop wire
process_started = refl

-- The server fails, a signal comes, and all parts end.
abbrev over : Process
over = record {
  main = Life.exited;
  http = Life.shut_down;
  proc = record (initial table) { at = returned; cancelled = true };
  rec = Rec.returned;
}

to_end : Life.Steps app begun over
to_end = Life.step (Life.served (serve_error (text "address already in use")) refl) (
    Life.step (Life.unserved (serve_error (text "address already in use")) refl refl) (
      Life.step (Life.processor _ cancel) (
        Life.step (Life.shut refl) (
          Life.step (Life.processor _ (done refl refl)) (
            Life.step (Life.processor _ (drained refl refl)) (
              Life.step (Life.reconciler Rec.returned _ (Rec.done refl))
                (Life.step (Life.awaited refl refl (λ e. cc e)) Life.stay)))))))

exited-IsFinished_example : IsFinished app over
exited-IsFinished_example = exited-IsFinished app table begun over process_started to_end refl

signalled-Exits_example :
    Exits app (record begun { proc = record (initial table) { cancelled = true } })
unfolding wire
signalled-Exits_example =
    signalled-Exits app (omega arith)
      (record begun { proc = record (initial table) { cancelled = true } }) refl

-- A delivery is answered, and the processor claims what is due.
abbrev delivered_once : Process
delivered_once = with_world begun (app.srv.handler (webhook delivery) table).1

abbrev claimed_after : Process
claimed_after = record delivered_once { proc = tick app.proc delivered_once.proc }

to_claim : Life.Steps app begun claimed_after
to_claim =
    Life.step (Life.answered (webhook delivery))
      (Life.step (Life.processor _ (ticked refl)) Life.stay)

Steps-IsValid_example : IsValid claimed_after.proc.world.db
Steps-IsValid_example = Steps-IsValid outside settings pool to_claim table-IsValid

abbrev next_job : Job
next_job = job_of (text "d") pending 5

-- While the job is executed, somebody enqueues another.
abbrev enqueued : Loop
enqueued = record executed_once { world = perform env (Calls.enqueue next_job) executed_once.world }

abbrev marked : Loop
marked = finish_job worker [] job executed_result [] enqueued

with_enqueue : Proc.Steps worker (initial table) marked
unfolding tick take_batch dequeue claim select_due is_claimable contains ◌==◌ sort_by run_job
    finish_job
with_enqueue = step (ticked refl) (
    step (handed job [] refl (omega arith)) (
      step (all_handed refl) (
        step (ran [] job [] refl)
          (step (other (Calls.enqueue next_job) refl) (step (ended [] job _ [] refl) stay)))))

Steps-Evolves_example : Evolves table.jobs marked.world.jobs
unfolding with_enqueue
Steps-Evolves_example =
    Steps-Evolves worker table (initial table) marked loop_started table-IsValid with_enqueue
      (tt, (tt, (tt, (tt, (refl, (tt, tt))))))
