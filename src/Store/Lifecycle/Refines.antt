-- ===== src/Store/Lifecycle/Refines.antt =====
-- The calls of the repositories as steps of the jobs' lives.
use glsync.Base.{
  add_duration, negate, contains, not, ◌&&◌, Bool-cases, inl, inr, IsUnique, ℕ, Text, List, [], ◌∷◌,
  true, false, Option, none, some, ◌≡◌, refl, arith, All, All-all, All-mono, ◌==◌, ◌+◌,
}
use glsync.Domain.{Job, JobStatus, pending, running}
use glsync.Store.{
  EventRow, AuditRow, JobRow, Db, World, Env, Fault, delivered, refused, unacknowledged, Result,
}
use glsync.Store.Run.{M, Statement, exec, run, bump, time_now}
use glsync.Store.Jobs
use glsync.Store.Events
use glsync.Store.Audit
use glsync.Store.Jobs.{
  update_where, update_job, update_jobs, set_running, set_completed, set_failed, set_dead,
  set_pending, mark_running, is_running, is_waiting, is_claimable, is_stuck, select_due, job_ids,
  claim, go_on, commit, insert_job,
}
use glsync.Store.Invariant.{IsValid}
use glsync.Store.Invariant.Calls.{
  Call, insert_event, exists_by_idempotency_key, get_by_id, list_recent, enqueue, dequeue,
  mark_completed, mark_failed, mark_dead, list_failed, list_stale, reset_stuck, insert_audit,
  perform, performs, perform-IsValid, IsIdle,
}
use glsync.Store.Lifecycle.{IsLater, Evolves}
use glsync.Store.Lifecycle.Selected.{select_due-claimable}
use glsync.Store.Lifecycle.Moves.{
  Evolves-refl, Evolves-trans, Evolves-append, update_where-Evolves, set_running-IsLater,
  set_completed-IsLater, set_failed-IsLater, set_dead-IsLater, set_pending-IsLater,
}

-- Every row of the job, if there is one, is running.
abbrev IsRunning : Text → World → Type 0
IsRunning id w = All (λ r. r.id == id ≡ true → r.status ≡ running) w.jobs

-- A worker marks only a job that it still holds, and a job is pending when it is enqueued.
abbrev pub IsOwned : Call → World → Type 0
IsOwned (enqueue j) w = j.status ≡ pending
IsOwned (mark_completed id) w = IsRunning id w
IsOwned (mark_failed id e t) w = IsRunning id w
IsOwned (mark_dead id e) w = IsRunning id w
IsOwned _ w = Unit

abbrev pub AreOwned : Env → List Call → World → Type 0
AreOwned env [] w = Unit
AreOwned env (c ∷ cs) w = IsOwned c w × AreOwned env cs (perform env c w)

-- A statement lets the rows evolve, if it is carried out at all.
abbrev Evolved {ℓ} : {A : Type ℓ} → List JobRow → Option (A × Db) → Type 0
Evolved rows none = Unit
Evolved rows (some (a, db)) = Evolves rows db.jobs

module _ (env : Env) where
  exec-Evolves {ℓ} :
      {A : Type ℓ} (statement : Statement A) (w : World)
      → Evolved w.jobs (statement (env.now w.step) w.db)
      → Evolves w.jobs (exec env statement w).1.jobs
  unfolding exec
  exec-Evolves {A} statement w k = go (env.fault w.step) (statement (env.now w.step) w.db) k
    where
      go : (f : Fault) (r : Option (A × Db)) → Evolved w.jobs r → Evolves w.jobs (run f r w).1.jobs
      go delivered none k = Evolves-refl w.jobs
      go delivered (some (a, db)) k = k
      go refused r k = Evolves-refl w.jobs
      go unacknowledged none k = Evolves-refl w.jobs
      go unacknowledged (some (a, db)) k = k

  commit-Evolves :
      (f : Fault) (js : List Job) (db : Db) (w : World)
      → Evolves w.jobs db.jobs
      → Evolves w.jobs (commit env f js db w).1.jobs
  commit-Evolves delivered js db w k = k
  commit-Evolves refused js db w k = Evolves-refl w.jobs
  commit-Evolves unacknowledged js db w k = k

  go_on-Evolves :
      (f : Fault) (rest : M (Result (List Job))) (w : World)
      → Evolves w.jobs (rest (bump w)).1.jobs
      → Evolves w.jobs (go_on env f rest w).1.jobs
  go_on-Evolves delivered rest w k = k
  go_on-Evolves refused rest w k = Evolves-refl w.jobs
  go_on-Evolves unacknowledged rest w k = Evolves-refl w.jobs

  claim-Evolves :
      (now : ℕ) (rows : List JobRow) (w : World)
      → Evolves w.jobs (mark_running now (job_ids rows) w.jobs)
      → Evolves w.jobs (claim env now rows w).1.jobs
  unfolding claim
  claim-Evolves now [] w h = Evolves-refl w.jobs
  claim-Evolves now (r ∷ rs) w h =
      go_on-Evolves (env.fault w.step) _ w (commit-Evolves _ _ _ (bump w) h)

claimable-waiting :
    (now : ℕ) (locked : List Text) (r : JobRow)
    → is_claimable now locked r ≡ true
    → is_waiting r.status ≡ true
unfolding is_claimable
claimable-waiting now locked r h = ground arith

mark_running-Evolves :
    (now : ℕ) (locked : List Text) (n : ℕ) (rows : List JobRow)
    → IsUnique (job_ids rows)
    → Evolves rows (mark_running now (job_ids (select_due now locked n rows)) rows)
unfolding mark_running
mark_running-Evolves now locked n rows u = update_where-Evolves _ (set_running now) rows (
    All-mono (λ r h e. set_running-IsLater now r (claimable-waiting now locked r (h e))) rows
      (select_due-claimable now locked n rows u))

insert_job-Evolves :
    (j : Job) (now : ℕ) (db : Db) → j.status ≡ pending → Evolved db.jobs (insert_job j now db)
unfolding insert_job
insert_job-Evolves j now db p =
    elim (Bool-cases (
      Jobs.fits_columns j
      && contains j.event_id (Jobs.event_ids db.events)
      && not (contains j.id (job_ids db.jobs)))) [
        | inl e ↦ rw e (Evolves-append db.jobs _ p)
        | inr e ↦ rw e tt
      ]

insert_event-Evolves :
    (r : EventRow) (now : ℕ) (db : Db) → Evolved db.jobs (Events.insert_event r now db)
unfolding Events.insert_event
insert_event-Evolves r now db = elim (Bool-cases (Events.fits_columns r)) [
  | inr wide ↦ rw wide tt
  | inl fits ↦ elim (Bool-cases (contains r.idempotency_key (Events.event_keys db.events))) [
    | inl known ↦ rw (fits, known) (Evolves-refl db.jobs)
    | inr fresh ↦ elim (Bool-cases (contains r.id (Jobs.event_ids db.events))) [
      | inl taken ↦ rw (fits, fresh, taken) tt
      | inr free ↦ rw (fits, fresh, free) (Evolves-refl db.jobs)
    ]
  ]
]

insert_audit-Evolves :
    (r : AuditRow) (now : ℕ) (db : Db) → Evolved db.jobs (Audit.insert_audit r now db)
unfolding Audit.insert_audit
insert_audit-Evolves r now db =
    elim (Bool-cases (
      Audit.refers r.event_id (Jobs.event_ids db.events)
      && Audit.refers r.job_id (job_ids db.jobs)
      && not (contains r.id (Audit.audit_ids db.audit_logs)))) [
        | inl e ↦ rw e (Evolves-refl db.jobs)
        | inr e ↦ rw e tt
      ]

not-running : (s : JobStatus) → s ≡ pending → is_running s ≡ false
not-running s h = rw h refl

is_idle : (c : Call) (w : World) → IsOwned c w → IsIdle c
is_idle (enqueue j) w o = not-running j.status o
is_idle (insert_event e) w o = tt
is_idle (exists_by_idempotency_key key) w o = tt
is_idle (get_by_id id) w o = tt
is_idle (list_recent n) w o = tt
is_idle (dequeue n) w o = tt
is_idle (mark_completed id) w o = tt
is_idle (mark_failed id e t) w o = tt
is_idle (mark_dead id e) w o = tt
is_idle (list_failed n) w o = tt
is_idle (list_stale d) w o = tt
is_idle (reset_stuck d) w o = tt
is_idle (insert_audit a) w o = tt

module _ (env : Env) where
  update_job-Evolves :
      (id : Text) (change : ℕ → JobRow → JobRow) (w : World)
      → ((now : ℕ) (r : JobRow) → r.status ≡ running → IsLater r (change now r))
      → IsRunning id w
      → Evolves w.jobs (exec env (λ now. update_jobs (update_job id (change now))) w).1.jobs
  unfolding update_job
  update_job-Evolves id change w later o = exec-Evolves env _ w (
      update_where-Evolves _ (change (env.now w.step)) w.jobs
        (All-mono (λ r h e. later (env.now w.step) r (h e)) w.jobs o))

  -- Each call moves the jobs along their lives.
  pub perform-Evolves :
      (c : Call) (w : World)
      → IsUnique (job_ids w.jobs)
      → IsOwned c w
      → Evolves w.jobs (perform env c w).jobs
  unfolding perform Events.insert Events.exists_by_idempotency_key Events.get_by_id
      Events.list_recent Jobs.enqueue Jobs.dequeue Jobs.mark_completed Jobs.mark_failed
      Jobs.mark_dead Jobs.list_failed Jobs.list_stale Jobs.reset_stuck Audit.insert time_now
  perform-Evolves (insert_event e) w u o =
      exec-Evolves env _ w (insert_event-Evolves (Events.to_row e) _ w.db)
  perform-Evolves (exists_by_idempotency_key key) w u o = exec-Evolves env _ w (Evolves-refl w.jobs)
  perform-Evolves (get_by_id id) w u o = exec-Evolves env _ w (Evolves-refl w.jobs)
  perform-Evolves (list_recent n) w u o = exec-Evolves env _ w (Evolves-refl w.jobs)
  perform-Evolves (enqueue j) w u o = exec-Evolves env _ w (insert_job-Evolves j _ w.db o)
  perform-Evolves (dequeue n) w u o = go_on-Evolves env (env.fault w.step) _ w (
      go_on-Evolves env (env.fault (w.step + 1)) _ (bump w)
        (claim-Evolves env _ _ (bump (bump w)) (mark_running-Evolves _ _ n w.jobs u)))
  perform-Evolves (mark_completed id) w u o =
      update_job-Evolves id set_completed w set_completed-IsLater o
  perform-Evolves (mark_failed id e t) w u o =
      update_job-Evolves id (λ _. set_failed e t) w (λ _. set_failed-IsLater e t) o
  perform-Evolves (mark_dead id e) w u o =
      update_job-Evolves id (λ _. set_dead e) w (λ _. set_dead-IsLater e) o
  perform-Evolves (list_failed n) w u o = exec-Evolves env _ w (Evolves-refl w.jobs)
  perform-Evolves (list_stale d) w u o = exec-Evolves env _ (bump w) (Evolves-refl w.jobs)
  perform-Evolves (reset_stuck d) w u o = exec-Evolves env _ (bump w) (
      update_where-Evolves _ (set_pending _) w.jobs
        (All-all (λ r. set_pending-IsLater _ (add_duration (env.now w.step) (negate d)) r) w.jobs))
  perform-Evolves (insert_audit a) w u o =
      exec-Evolves env _ w (insert_audit-Evolves (Audit.to_row a) _ w.db)

  -- Whatever sequence of calls the processes make, and whatever faults they meet, if the constraints of
  -- the schema hold at first, jobs are enqueued as pending, and a job is marked only while it is
  -- running: then no job is lost, no job changes its id, event, key, target state or bound, new jobs
  -- come in at the end, and each job has moved along its life: from waiting to running, and from
  -- there to completed, dead, waiting with one attempt more or, by a reset, waiting as before.
  pub performs-Evolves :
      (cs : List Call) (w : World)
      → IsValid w.db
      → AreOwned env cs w
      → Evolves w.jobs (performs env cs w).jobs
  unfolding performs
  performs-Evolves [] w v o = Evolves-refl w.jobs
  performs-Evolves (c ∷ cs) w v (o, os) =
      Evolves-trans (perform-Evolves c w v.job_ids_unique o)
        (performs-Evolves cs (perform env c w) (perform-IsValid env c w (is_idle c w o) v) os)
