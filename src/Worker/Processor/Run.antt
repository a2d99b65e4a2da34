-- ===== src/Worker/Processor/Run.antt =====
-- `ProcessorConfig`, `NewProcessor` and the loop `Run` of internal/worker/processor.go, as steps: of the
-- loop, of the goroutines that it starts, of the context, and of whoever else uses the store. The
-- semaphore's tokens are the goroutines that run.
use glsync.Base.{
  ℤ, pos, negsuc, ℕ, ◌<◌, length, List, [], ◌∷◌, ◌++◌, Bool, true, false, ◌&&◌, Option, none, some,
  ◌≡◌, ltb, if◌then◌else◌,
}
use glsync.Errors.{ExecError}
use glsync.Domain.{Job}
use glsync.Plugin.{Registry}
use glsync.Store.{World, Env, within, Result}
use glsync.Store
use glsync.Store.Jobs.{dequeue}
use glsync.Store.Invariant.Calls.{Call, IsIdle, perform}
use glsync.Worker.Executor.{Executor, in_context, execute}
use glsync.Worker.Processor.{notify, conclude}

pub record ProcessorConfig : Type 0 where
  pub concurrency : ℤ
  pub poll_interval : ℤ
  pub max_attempts : ℕ

-- The buffer of `sem`, and the limit of a batch.
abbrev pub slots : ProcessorConfig → ℕ
slots cfg = elim cfg.concurrency [ pos n ↦ n | negsuc n ↦ 0 ]

pub record Processor : Type 0 where
  pub env : Env
  pub registry : Registry
  pub exec : Executor
  pub cfg : ProcessorConfig

-- The repositories are those of the world.
abbrev pub new_processor : Env → Registry → Executor → ProcessorConfig → Processor
new_processor env registry exec cfg = record {
  env = env;
  registry = registry;
  exec = exec;
  cfg = cfg;
}

-- The loop waits in `select`, hands out a batch, waits for the group, or has returned.
pub data At : Type 0 where
  selecting : At
  handing : List Job → At
  draining : At
  returned : At

-- A goroutine executes its job, or has the result and tells the handlers and the store of it.
pub data Goroutine : Type 0 where
  executing : Job → Goroutine
  executed : Job → Option ExecError → Goroutine

abbrev pub job_in : Goroutine → Job
job_in (executing j) = j
job_in (executed j result) = j

-- `claimed` and `finished` only record which jobs `Dequeue` returned and which goroutines ended.
pub record Loop : Type 0 where
  pub at : At
  pub running : List Goroutine
  pub cancelled : Bool
  pub world : World
  pub claimed : List Job
  pub finished : List Job

abbrev pub initial : World → Loop
initial w = record {
  at = selecting;
  running = [];
  cancelled = false;
  world = w;
  claimed = [];
  finished = [];
}

abbrev pub is_positive : ℤ → Bool
is_positive (pos d) = ltb 0 d
is_positive (negsuc d) = false

abbrev pub is_size : ℤ → Bool
is_size (pos n) = true
is_size (negsuc n) = false

-- `make(chan struct{}, n)` panics for a negative size, and `time.NewTicker` unless the interval is
-- positive.
unfoldable pub start_loop : ProcessorConfig → World → Option Loop
start_loop cfg w =
    if is_size cfg.concurrency && is_positive cfg.poll_interval then some (initial w) else none

-- An error of `Dequeue` is logged, and the loop goes on.
unfoldable pub take_batch : Loop → Result (List Job) × World → Loop
take_batch s (Store.err x, w) = record s { world = w }
take_batch s (Store.ok jobs, w) = record s {
  at = handing jobs;
  world = w;
  claimed = s.claimed ++ jobs;
}

module _ (p : Processor) where
  -- The context of the loop and of its goroutines is one.
  abbrev pub env_in : Loop → Env
  env_in s = within s.cancelled p.env

  abbrev pub exec_in : Loop → Executor
  exec_in s = in_context s.cancelled p.exec

  unfoldable pub tick : Loop → Loop
  unfolding take_batch
  tick s = take_batch s (dequeue (env_in s) (slots p.cfg) s.world)

  -- `Execute` in a goroutine.
  unfoldable pub run_job : List Goroutine → Job → List Goroutine → Loop → Loop
  run_job before j after s =
      let (result, w) = execute (env_in s) (exec_in s) j s.world in
      record s { running = before ++ executed j result ∷ after; world = w }

  -- The rest of `process`, and the goroutine's deferred function.
  unfoldable pub finish_job : List Goroutine → Job → Option ExecError → List Goroutine → Loop → Loop
  finish_job before j result after s =
      let (_, told) = notify p.registry.job_handlers j result s.world in
      let (_, w) = conclude (env_in s) p.registry p.exec j result told in
      record s { running = before ++ after; world = w; finished = s.finished ++ j ∷ [] }

  pub data Step : Loop → Loop → Type 0 where
    ticked : {s : Loop} → s.at ≡ selecting → Step s (tick s)
    -- `sem <- struct{}{}` waits for a free token.
    handed :
        {s : Loop} (j : Job) (js : List Job)
        → s.at ≡ handing (j ∷ js)
        → length s.running < slots p.cfg
        → Step s (record s { at = handing js; running = s.running ++ executing j ∷ [] })
    all_handed : {s : Loop} → s.at ≡ handing [] → Step s (record s { at = selecting })
    ran :
        {s : Loop} (before : List Goroutine) (j : Job) (after : List Goroutine)
        → s.running ≡ before ++ executing j ∷ after
        → Step s (run_job before j after s)
    ended :
        {s : Loop} (before : List Goroutine) (j : Job) (result : Option ExecError)
        (after : List Goroutine)
        → s.running ≡ before ++ executed j result ∷ after
        → Step s (finish_job before j result after s)
    cancel : {s : Loop} → Step s (record s { cancelled = true })
    done : {s : Loop} → s.at ≡ selecting → s.cancelled ≡ true → Step s (record s { at = draining })
    drained : {s : Loop} → s.at ≡ draining → s.running ≡ [] → Step s (record s { at = returned })
    other : {s : Loop} (c : Call) → IsIdle c → Step s (record s { world = perform p.env c s.world })

  pub data Steps : Loop → Loop → Type 0 where
    stay : {s : Loop} → Steps s s
    step : {s t u : Loop} → Step s t → Steps t u → Steps s u
