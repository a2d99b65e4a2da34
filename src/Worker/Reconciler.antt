-- ===== src/Worker/Reconciler.antt =====
-- internal/worker/reconciler.go: one tick of its loop. The audit detail is always marshalled.
pub mod Resets
pub mod Run
pub mod Keeps
use glsync.Base.{ℤ, ℕ, zero, suc, Text, text, []}
use glsync.Domain.{AuditDetail, count}
use glsync.Store.{Env, World, background, Result}
use glsync.Store
use glsync.Store.Run.{M, pure, ◌>>=◌, ◌>>◌, time_now, new_uuid}
use glsync.Store.Jobs.{reset_stuck}
use glsync.Store.Audit

module _ (env : Env) where
  -- An error of the insert is logged and dropped.
  unfoldable pub write_audit : Text → Text → AuditDetail → M (Unit {0})
  write_audit action issue_key detail = do
    id ← new_uuid env
    created_at ← time_now env
    Audit.insert (background env) (record {
      id = id;
      event_id = [];
      job_id = [];
      action = action;
      issue_key = issue_key;
      detail = detail;
      created_at = created_at;
    })
    pure tt

  report : Result ℕ → M (Unit {0})
  report (Store.err x) = pure tt
  report (Store.ok zero) = pure tt
  report (Store.ok (suc n)) = write_audit (text "reconcile_stuck_reset") [] (count (suc n))

  unfoldable pub reset_stuck_jobs : ℤ → M (Unit {0})
  unfolding report
  reset_stuck_jobs stuck_job_timeout = do r ← reset_stuck env stuck_job_timeout; report r
