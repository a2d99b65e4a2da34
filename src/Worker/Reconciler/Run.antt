-- ===== src/Worker/Reconciler/Run.antt =====
-- `ReconcileConfig`, `NewReconciler` and the loop `Run` of internal/worker/reconciler.go.
use glsync.Base.{ℤ, Bool, true, ◌≡◌}
use glsync.Store.{within, World, Env}
use glsync.Worker.Reconciler.{reset_stuck_jobs}

pub record ReconcileConfig : Type 0 where
  pub interval : ℤ
  pub stuck_job_timeout : ℤ

pub record Reconciler : Type 0 where
  pub env : Env
  pub cfg : ReconcileConfig

-- The repositories are those of the world.
abbrev pub new_reconciler : Env → ReconcileConfig → Reconciler
new_reconciler env cfg = record { env = env; cfg = cfg }

-- The loop was never started, waits in `select`, or has returned.
pub data At : Type 0 where
  not_started selecting returned : At

-- A step of the loop, with what it makes of the world while the context is cancelled or not.
pub data Step (r : Reconciler) (cancelled : Bool) : At → World → At → World → Type 0 where
  ticked :
      {w : World}
      → Step r cancelled selecting w selecting
          (reset_stuck_jobs (within cancelled r.env) r.cfg.stuck_job_timeout w).1
  done : {w : World} → cancelled ≡ true → Step r cancelled selecting w returned w
