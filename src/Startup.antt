-- ===== src/Startup.antt =====
-- cmd/glsync/main.go: the process from the reading of its configuration to its end. Flags and logging
-- are left out.
pub mod Boots
pub mod Life
use glsync.Base.{ℤ, ℕ, Text, List, Bool, Option, none, some, if◌then◌else◌}
use glsync.Config.{Config, Setting, LoadError, Source, Loaded, load, validate}
use glsync.Config
use glsync.Plugin.{Registry}
use glsync.Store.{Env}
use glsync.Store.Pool.{PoolConfig, Pgxpool, PoolError, PoolResult, new_pool}
use glsync.Store.Pool
use glsync.Jira.Client.{Request, Reply, new_client, transitioner}
use glsync.Workflow.DueDate.{Zone}
use glsync.Worker.Executor.{Executor}
use glsync.Worker.Processor.Run.{Processor, new_processor}
use glsync.Worker.Reconciler.Run.{Reconciler, new_reconciler}
use glsync.Server.Listen.{HttpServer, new_server}

-- What the process meets: its flag and environment, the database, Jira behind an `http.Client` of some
-- timeout, the local time zone, the plugins, and the store's pings.
pub record Outside : Type 0 where
  pub config_path : Text
  pub source : Source
  pub pgx : Pgxpool
  pub http_client : ℤ → ℕ → Request → Reply
  pub zone : Zone
  pub env : Env
  pub registry : Registry
  pub ping : ℕ → Bool

-- The parts of the process, wired.
pub record App : Type 0 where
  pub pool : PoolConfig
  pub proc : Processor
  pub rec : Reconciler
  pub reconcile : Bool
  pub srv : HttpServer

-- `NewExecutor` with the client and the resolver.
new_executor : Outside → Config → Executor
new_executor o cfg = record {
  jira = transitioner (
      new_client cfg.jira.base_url cfg.jira.username cfg.jira.api_token
        (o.http_client cfg.jira.timeout));
  resolver = record { transitions = cfg.workflow.transitions };
  in_progress = cfg.workflow.in_progress;
  zone = o.zone;
}

unfoldable pub wire : Outside → Config → PoolConfig → App
unfolding new_executor
wire o cfg pool = record {
  pool = pool;
  proc = new_processor o.env o.registry (new_executor o cfg) (record {
    concurrency = cfg.worker.concurrency;
    poll_interval = cfg.worker.poll_interval;
    max_attempts = cfg.worker.max_attempts;
  });
  rec = new_reconciler o.env (record {
    interval = cfg.reconcile.interval;
    stuck_job_timeout = cfg.reconcile.stuck_job_timeout;
  });
  reconcile = cfg.reconcile.enabled;
  srv = new_server o.env cfg o.registry o.ping;
}

-- The process exits with an error, or has its parts.
pub data Boot : Type 0 where
  load_config : LoadError → Boot
  invalid_config : List Setting → Boot
  connect_to_database : PoolError → Boot
  wired : App → Boot

connected : Outside → Config → PoolResult × ℕ → Boot × ℕ
unfolding wire
connected o cfg (Pool.err x, n) = (connect_to_database x, n)
connected o cfg (Pool.ok pool, n) = (wired (wire o cfg pool), n)

validated : Outside → Config → Option (List Setting) → Boot × ℕ
unfolding connected
validated o cfg (some missing) = (invalid_config missing, 0)
validated o cfg none = connected o cfg (new_pool o.pgx cfg.database 0)

loaded : Outside → Loaded → Boot × ℕ
unfolding validated
loaded o (Config.err x) = (load_config x, 0)
loaded o (Config.ok cfg) = validated o cfg (validate cfg)

-- The first part of `main`, and the number of pools that are open after it.
unfoldable pub boot : Outside → Boot × ℕ
unfolding loaded
boot o = loaded o (load o.source o.config_path)
