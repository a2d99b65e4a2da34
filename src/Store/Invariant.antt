-- ===== src/Store/Invariant.antt =====
-- The constraints that migrations/ puts on the three tables, and the bookkeeping of `running_since`.
pub mod Inserts
pub mod Calls
use glsync.Base.{
  contains, contains-append, contains-append_left, IsUnique, ℕ, Text, List, [], ◌∷◌, ◌++◌, map,
  Bool, true, false, Option, none, some, ◌≡◌, refl, arith, All, All-append, All-mono, ◌&&◌, ◌||◌,
  not, Bool-cases, inl, inr, ==_iff, ap, if◌then◌else◌,
}
use glsync.Errors.{ExecError}
use glsync.Domain.{Job, NormalizedEvent, AuditEntry}
use glsync.Store.{
  EventRow, JobRow, AuditRow, Db, World, Env, Fault, delivered, refused, unacknowledged, Result, ok,
  err,
}
use glsync.Store.Run.{M, Statement, exec, run, ◌>>=◌, time_now}
use glsync.Store.Jobs
use glsync.Store.Jobs.{event_ids, job_ids, is_running, insert_job, update_where}
use glsync.Store.Jobs.Rows.{
  IsConsistent, update_where-All, update_where-IsConsistent, job_ids-update_where,
}
use glsync.Store.Events
use glsync.Store.Events.{event_keys, insert_event}
use glsync.Store.Audit
use glsync.Store.Audit.{insert_audit, refers, audit_ids}

pub record IsValid (db : Db) : Type 0 where
  pub event_ids_unique : IsUnique (event_ids db.events)
  pub keys_unique : IsUnique (event_keys db.events)
  pub job_ids_unique : IsUnique (job_ids db.jobs)
  pub jobs_refer : All (λ r. contains r.event_id (event_ids db.events) ≡ true) db.jobs
  pub jobs_consistent : All IsConsistent db.jobs
  pub audit_ids_unique : IsUnique (audit_ids db.audit_logs)
  pub audits_refer :
      All
        (λ r.
          (refers r.event_id (event_ids db.events) ≡ true)
          × (refers r.job_id (job_ids db.jobs) ≡ true))
        db.audit_logs

pub refers-append :
    (o : Option Text) (xs ys : List Text) → refers o xs ≡ true → refers o (xs ++ ys) ≡ true
unfolding refers
refers-append none xs ys h = refl
refers-append (some x) xs ys h = contains-append_left x xs ys h

-- A statement keeps the constraints, if it is carried out at all.
abbrev pub Kept {ℓ} : {A : Type ℓ} → Option (A × Db) → Type 0
Kept none = Unit
Kept (some (a, db)) = IsValid db

module _ {ℓ} {A : Type ℓ} (env : Env) (statement : Statement A) where
  pub exec-IsValid :
      ((now : ℕ) (db : Db) → IsValid db → Kept (statement now db))
      → (w : World) → IsValid w.db
      → IsValid (exec env statement w).1.db
  unfolding exec
  exec-IsValid keeps w v = go (env.fault w.step) (statement (env.now w.step) w.db) (keeps _ _ v)
    where
      go : (f : Fault) (r : Option (A × Db)) → Kept r → IsValid (run f r w).1.db
      go delivered none k = v
      go delivered (some (a, db)) k = k
      go refused r k = v
      go unacknowledged none k = v
      go unacknowledged (some (a, db)) k = k
