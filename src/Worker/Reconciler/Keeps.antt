-- ===== src/Worker/Reconciler/Keeps.antt =====
-- The constraints of the schema under a tick of internal/worker/reconciler.go.
use glsync.Base.{ℤ, ℕ, zero, suc}
use glsync.Store.{background, World, Env, Result, ok, err}
use glsync.Store.Run.{bump, time_now, new_uuid}
use glsync.Store.Jobs.{reset_stuck}
use glsync.Store.Invariant.{IsValid}
use glsync.Store.Invariant.Calls.{perform, perform-IsValid}
use glsync.Store.Invariant.Calls
use glsync.Worker.Reconciler.{report, write_audit, reset_stuck_jobs}

module _ (env : Env) where
  report-IsValid : (r : Result ℕ) (w : World) → IsValid w.db → IsValid (report env r w).1.db
  unfolding report write_audit new_uuid time_now perform
  report-IsValid (err x) w v = v
  report-IsValid (ok zero) w v = v
  report-IsValid (ok (suc n)) w v =
      perform-IsValid (background env) (Calls.insert_audit _) (bump (bump w)) tt v

  pub reset_stuck_jobs-IsValid :
      (timeout : ℤ) (w : World) → IsValid w.db → IsValid (reset_stuck_jobs env timeout w).1.db
  unfolding reset_stuck_jobs perform
  reset_stuck_jobs-IsValid timeout w v =
      let (r, w') = reset_stuck env timeout w in
      report-IsValid r w' (perform-IsValid env (Calls.reset_stuck timeout) w tt v)
