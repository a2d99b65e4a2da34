-- ===== src/Store/Invariant/Calls.antt =====
-- A process uses the store by calls of the repositories' methods. Each is one statement or one
-- transaction, so that what several processes do at once is some sequence of these calls.
use glsync.Base.{
  add_duration, negate, ℤ, contains, ℕ, Text, List, [], ◌∷◌, Bool, false, ◌≡◌, refl, All, ◌==◌, ◌+◌,
}
use glsync.Errors.{ExecError}
use glsync.Domain.{Job, NormalizedEvent, AuditEntry}
use glsync.Store.{JobRow, Db, World, Env, Fault, delivered, refused, unacknowledged, Result}
use glsync.Store.Run.{M, exec, bump, time_now}
use glsync.Store.Jobs
use glsync.Store.Jobs.{event_ids, job_ids, is_running, update_where}
use glsync.Store.Jobs.Rows.{
  IsConsistent, update_where-All, update_where-IsConsistent, job_ids-update_where,
}
use glsync.Store.Events
use glsync.Store.Audit
use glsync.Store.Jobs.{
  set_running, set_completed, set_failed, set_dead, set_pending, update_job, update_jobs,
  mark_running, claim, select_due, is_stuck, go_on, commit,
}
use glsync.Store.Jobs.Rows.{
  set_running-IsConsistent, set_completed-IsConsistent, set_failed-IsConsistent,
  set_dead-IsConsistent, set_pending-IsConsistent,
}
use glsync.Store.Invariant.{IsValid, exec-IsValid}
use glsync.Store.Invariant.Inserts.{insert_event_keeps, insert_job_keeps, insert_audit_keeps}

update_keeps :
    (test : JobRow → Bool) (change : JobRow → JobRow)
    → ((r : JobRow) → (change r).id ≡ r.id)
    → ((r : JobRow) → (change r).event_id ≡ r.event_id)
    → ((r : JobRow) → IsConsistent (change r))
    → (db : Db) → IsValid db
    → IsValid (record db { jobs = update_where test change db.jobs })
update_keeps test change same_id same_event consistent db v = record {
  event_ids_unique = v.event_ids_unique;
  keys_unique = v.keys_unique;
  job_ids_unique = rw (job_ids-update_where test change same_id db.jobs) v.job_ids_unique;
  jobs_refer =
      update_where-All _ _ test change (λ r p _. rw (same_event r) p) (λ r p _. p) db.jobs
        v.jobs_refer;
  jobs_consistent = update_where-IsConsistent test change consistent db.jobs v.jobs_consistent;
  audit_ids_unique = v.audit_ids_unique;
  audits_refer = rw (job_ids-update_where test change same_id db.jobs) v.audits_refer;
}

pub data Call : Type 0 where
  insert_event : NormalizedEvent → Call
  exists_by_idempotency_key get_by_id : Text → Call
  list_recent : ℕ → Call
  enqueue : Job → Call
  dequeue : ℕ → Call
  mark_completed : Text → Call
  mark_failed : Text → ExecError → ℕ → Call
  mark_dead : Text → ExecError → Call
  list_failed : ℕ → Call
  list_stale reset_stuck : ℤ → Call
  insert_audit : AuditEntry → Call

module _ (env : Env) where
  -- The world after a call; its result is dropped.
  unfoldable pub perform : Call → World → World
  perform (insert_event e) w = (Events.insert env e w).1
  perform (exists_by_idempotency_key key) w = (Events.exists_by_idempotency_key env key w).1
  perform (get_by_id id) w = (Events.get_by_id env id w).1
  perform (list_recent n) w = (Events.list_recent env n w).1
  perform (enqueue j) w = (Jobs.enqueue env j w).1
  perform (dequeue n) w = (Jobs.dequeue env n w).1
  perform (mark_completed id) w = (Jobs.mark_completed env id w).1
  perform (mark_failed id e t) w = (Jobs.mark_failed env id e t w).1
  perform (mark_dead id e) w = (Jobs.mark_dead env id e w).1
  perform (list_failed n) w = (Jobs.list_failed env n w).1
  perform (list_stale d) w = (Jobs.list_stale env d w).1
  perform (reset_stuck d) w = (Jobs.reset_stuck env d w).1
  perform (insert_audit a) w = (Audit.insert env a w).1

  unfoldable pub performs : List Call → World → World
  performs [] w = w
  performs (c ∷ cs) w = performs cs (perform c w)

-- A job is enqueued with a status other than `running`.
abbrev pub IsIdle : Call → Type 0
IsIdle (enqueue j) = is_running j.status ≡ false
IsIdle _ = Unit

module _ (env : Env) where
  mark_running_keeps :
      (now : ℕ) (ids : List Text) (db : Db)
      → IsValid db
      → IsValid (record db { jobs = mark_running now ids db.jobs })
  unfolding mark_running
  mark_running_keeps now ids =
      update_keeps (λ r. contains r.id ids) (set_running now) (λ r. refl) (λ r. refl)
        (set_running-IsConsistent now)

  commit_keeps :
      (f : Fault) (js : List Job) (db : Db) (w : World)
      → IsValid w.db
      → IsValid db
      → IsValid (commit env f js db w).1.db
  commit_keeps delivered js db w v k = k
  commit_keeps refused js db w v k = v
  commit_keeps unacknowledged js db w v k = k

  go_on_keeps :
      (f : Fault) (rest : M (Result (List Job))) (w : World)
      → IsValid w.db
      → IsValid (rest (bump w)).1.db
      → IsValid (go_on env f rest w).1.db
  go_on_keeps delivered rest w v k = k
  go_on_keeps refused rest w v k = v
  go_on_keeps unacknowledged rest w v k = v

  claim_keeps :
      (now : ℕ) (rows : List JobRow) (w : World)
      → IsValid w.db
      → IsValid (claim env now rows w).1.db
  unfolding claim
  claim_keeps now [] w v = v
  claim_keeps now (r ∷ rs) w v =
      go_on_keeps (env.fault w.step) _ w v
        (commit_keeps _ _ _ (bump w) v (mark_running_keeps now (job_ids (r ∷ rs)) w.db v))

  dequeue_keeps : (n : ℕ) (w : World) → IsValid w.db → IsValid (Jobs.dequeue env n w).1.db
  unfolding Jobs.dequeue
  dequeue_keeps n w v =
      go_on_keeps (env.fault w.step) _ w v
        (go_on_keeps (env.fault (w.step + 1)) _ (bump w) v (claim_keeps _ _ (bump (bump w)) v))

  update_job_keeps :
      (id : Text) (change : ℕ → JobRow → JobRow)
      → ((now : ℕ) (r : JobRow) → (change now r).id ≡ r.id)
      → ((now : ℕ) (r : JobRow) → (change now r).event_id ≡ r.event_id)
      → ((now : ℕ) (r : JobRow) → IsConsistent (change now r))
      → (w : World) → IsValid w.db
      → IsValid (exec env (λ now. update_jobs (update_job id (change now))) w).1.db
  unfolding update_job
  update_job_keeps id change same_id same_event consistent = exec-IsValid env _ λ now db v.
      update_keeps (λ r. r.id == id) (change now) (same_id now) (same_event now) (consistent now) db
        v

  -- Each method of the repositories keeps the constraints, whether it succeeds or meets a fault.
  pub perform-IsValid :
      (c : Call) (w : World) → IsIdle c → IsValid w.db → IsValid (perform env c w).db
  unfolding perform Events.insert Events.exists_by_idempotency_key Events.get_by_id
      Events.list_recent Jobs.enqueue Jobs.mark_completed Jobs.mark_failed Jobs.mark_dead
      Jobs.list_failed Jobs.list_stale Jobs.reset_stuck Audit.insert time_now set_completed
      set_failed set_dead set_pending
  perform-IsValid (insert_event e) w idle v =
      exec-IsValid env _ (insert_event_keeps (Events.to_row e)) w v
  perform-IsValid (exists_by_idempotency_key key) w idle v = exec-IsValid env _ (λ _ db k. k) w v
  perform-IsValid (get_by_id id) w idle v = exec-IsValid env _ (λ _ db k. k) w v
  perform-IsValid (list_recent n) w idle v = exec-IsValid env _ (λ _ db k. k) w v
  perform-IsValid (enqueue j) w idle v =
      exec-IsValid env _ (λ now db k. insert_job_keeps j now db idle k) w v
  perform-IsValid (dequeue n) w idle v = dequeue_keeps n w v
  perform-IsValid (mark_completed id) w idle v =
      update_job_keeps id set_completed (λ _ _. refl) (λ _ _. refl) set_completed-IsConsistent w v
  perform-IsValid (mark_failed id e t) w idle v =
      update_job_keeps id (λ _. set_failed e t) (λ _ _. refl) (λ _ _. refl)
        (λ _. set_failed-IsConsistent e t) w v
  perform-IsValid (mark_dead id e) w idle v =
      update_job_keeps id (λ _. set_dead e) (λ _ _. refl) (λ _ _. refl)
        (λ _. set_dead-IsConsistent e) w v
  perform-IsValid (list_failed n) w idle v = exec-IsValid env _ (λ _ db k. k) w v
  perform-IsValid (list_stale d) w idle v = exec-IsValid env _ (λ _ db k. k) (bump w) v
  perform-IsValid (reset_stuck d) w idle v =
      exec-IsValid env _
        (λ now db k.
          update_keeps (is_stuck (add_duration (env.now w.step) (negate d))) (set_pending now)
            (λ _. refl) (λ _. refl) (set_pending-IsConsistent now) db k)
        (bump w) v
  perform-IsValid (insert_audit a) w idle v =
      exec-IsValid env _ (insert_audit_keeps (Audit.to_row a)) w v

  -- If the constraints of the schema hold at first, they hold after any sequence of calls in which every
  -- job is enqueued in a status other than running, whatever faults are met: ids and idempotency keys are unique,
  -- references refer to rows, and `running_since` is set exactly for the running jobs.
  pub performs-IsValid :
      (cs : List Call) (w : World) → All IsIdle cs → IsValid w.db → IsValid (performs env cs w).db
  unfolding performs
  performs-IsValid [] w idle v = v
  performs-IsValid (c ∷ cs) w idle v =
      performs-IsValid cs (perform env c w) idle.1 (perform-IsValid c w idle.0 v)
