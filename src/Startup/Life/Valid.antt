-- ===== src/Startup/Life/Valid.antt =====
-- The tables while the process of cmd/glsync/main.go is at work.
use glsync.Base.{ℕ, List, Bool}
use glsync.Domain.{Job}
use glsync.Config.{Config}
use glsync.Plugin.{Registry}
use glsync.Store.{Db, World, Env, within, Result}
use glsync.Store
use glsync.Store.Jobs.{dequeue}
use glsync.Store.Pool.{PoolConfig}
use glsync.Store.Invariant.{IsValid}
use glsync.Store.Invariant.Calls.{perform, perform-IsValid}
use glsync.Store.Invariant.Calls
use glsync.Worker.Processor.{notify}
use glsync.Worker.Processor.Settle.{db-notify}
use glsync.Worker.Processor.Keeps.{same-IsValid, conclude-IsValid, execute-IsValid}
use glsync.Worker.Processor.Run.{
  slots, Loop, start_loop, take_batch, tick, run_job, finish_job, ticked, handed, all_handed, ran,
  ended, cancel, done, drained, other,
}
use glsync.Worker.Processor.Run as Proc
use glsync.Worker.Reconciler.Keeps.{reset_stuck_jobs-IsValid}
use glsync.Worker.Reconciler.Run as Rec
use glsync.Server.Routes.Reads.{IsRead, serve-IsUnchanged}
use glsync.Server.Webhook.{Request}
use glsync.Store.Run.{bump, time_now}
use glsync.Server.Webhook.Keeps.{handle_gitlab-IsValid}
use glsync.Server.Routes.{
  Route, healthz, readyz, webhook, admin_events, admin_failed_jobs, route, request_logger, serve,
}
use glsync.Server.Listen.{new_server}
use glsync.Startup.{Outside, wire}
use glsync.Startup.Life.{
  Process, Step, processor, reconciler, answered, served, signalled, unserved, shut, awaited, Steps,
  stay, step,
}

module _ (env : Env) (cfg : Config) (registry : Registry) (ping : ℕ → Bool) where
  read-IsValid :
      (r : Route) (w : World)
      → IsRead r
      → IsValid w.db
      → IsValid (serve env cfg registry ping r w).1.db
  read-IsValid r w h v = same-IsValid (serve-IsUnchanged env cfg registry ping r w h).same_db v

  webhook-IsValid :
      (r : Request) (w : World)
      → IsValid w.db
      → IsValid (serve env cfg registry ping (webhook r) w).1.db
  unfolding serve request_logger route time_now
  webhook-IsValid r w v = handle_gitlab-IsValid env _ r (bump w) v

  serve-IsValid :
      (r : Route) (w : World) → IsValid w.db → IsValid (serve env cfg registry ping r w).1.db
  serve-IsValid healthz w v = read-IsValid healthz w tt v
  serve-IsValid readyz w v = read-IsValid readyz w tt v
  serve-IsValid (webhook r) w v = webhook-IsValid r w v
  serve-IsValid (admin_events auth limit) w v = read-IsValid (admin_events auth limit) w tt v
  serve-IsValid (admin_failed_jobs auth limit) w v =
      read-IsValid (admin_failed_jobs auth limit) w tt v

loop-IsValid :
    (s : Loop) (r : Result (List Job) × World) → IsValid r.1.db → IsValid (take_batch s r).world.db
unfolding take_batch
loop-IsValid s (Store.err x, w) v = v
loop-IsValid s (Store.ok jobs, w) v = v

loop_step-IsValid :
    (p : Proc.Processor) {s t : Loop} → Proc.Step p s t → IsValid s.world.db → IsValid t.world.db
unfolding tick run_job finish_job perform
loop_step-IsValid p (ticked {s} a) v =
    loop-IsValid s (dequeue (Proc.env_in p s) (slots p.cfg) s.world)
      (perform-IsValid (Proc.env_in p s) (Calls.dequeue (slots p.cfg)) s.world tt v)
loop_step-IsValid p (handed j js a free) v = v
loop_step-IsValid p (all_handed a) v = v
loop_step-IsValid p (ran {s} before j after e) v =
    execute-IsValid (Proc.env_in p s) p.registry (Proc.exec_in p s) j s.world v
loop_step-IsValid p (ended {s} before j result after e) v =
    let (_, told) = notify p.registry.job_handlers j result s.world in
    conclude-IsValid (Proc.env_in p s) p.registry p.exec j result told
      (same-IsValid (db-notify p.registry.job_handlers j result s.world) v)
loop_step-IsValid p cancel v = v
loop_step-IsValid p (done a c) v = v
loop_step-IsValid p (drained a e) v = v
loop_step-IsValid p (other {s} c idle) v = perform-IsValid p.env c s.world idle v

reconciler_step-IsValid :
    (r : Rec.Reconciler) (c : Bool) {a a' : Rec.At} {w w' : World}
    → Rec.Step r c a w a' w'
    → IsValid w.db
    → IsValid w'.db
reconciler_step-IsValid r c (Rec.ticked {w}) v =
    reset_stuck_jobs-IsValid (within c r.env) r.cfg.stuck_job_timeout w v
reconciler_step-IsValid r c (Rec.done h) v = v

module _ (o : Outside) (cfg : Config) (pool : PoolConfig) where
  Step-IsValid :
      {s t : Process}
      → Step (wire o cfg pool) s t
      → IsValid s.proc.world.db
      → IsValid t.proc.world.db
  unfolding wire new_server
  Step-IsValid (processor l x) v = loop_step-IsValid _ x v
  Step-IsValid (reconciler {s} at w x) v = reconciler_step-IsValid _ s.proc.cancelled x v
  Step-IsValid (answered {s} r) v = serve-IsValid o.env cfg o.registry o.ping r s.proc.world v
  Step-IsValid (served x e) v = v
  Step-IsValid (signalled m c) v = v
  Step-IsValid (unserved x m e) v = v
  Step-IsValid (shut m) v = v
  Step-IsValid (awaited m a b) v = v

  -- While the process is at work, whatever requests it answers, whatever its workers, its reconciler and
  -- other processes do in whatever order, and whatever faults their statements meet, the constraints of
  -- the schema hold, if they did at first and other processes enqueue no job as running.
  pub Steps-IsValid :
      {s t : Process}
      → Steps (wire o cfg pool) s t
      → IsValid s.proc.world.db
      → IsValid t.proc.world.db
  Steps-IsValid stay v = v
  Steps-IsValid (step x xs) v = Steps-IsValid xs (Step-IsValid x v)
