-- ===== src/Worker/Processor/Foreign.antt =====
-- What the calls of others leave of the jobs that a processor of internal/worker/processor.go holds.
use glsync.Base.{
  ℕ, ◌+◌, Text, List, [], ◌∷◌, ◌++◌, true, false, Option, none, some, ◌≡◌, refl, ap, arith,
  contains, contains-append_left, All-append, ==_iff,
}
use glsync.Domain.{Job, pending}
use glsync.Store.{
  EventRow, AuditRow, JobRow, Db, World, Env, Fault, delivered, refused, unacknowledged, Result,
}
use glsync.Store.Run.{M, Statement, exec, run, bump, time_now}
use glsync.Store.Jobs
use glsync.Store.Jobs.{job_ids, mark_running, select_due, go_on, commit, claim, insert_job}
use glsync.Store.Events
use glsync.Store.Audit
use glsync.Store.Invariant.Calls.{
  Call, insert_event, exists_by_idempotency_key, get_by_id, list_recent, enqueue, dequeue,
  mark_completed, mark_failed, mark_dead, list_failed, list_stale, reset_stuck, insert_audit,
  perform,
}
use glsync.Worker.Processor.Holds.{IsHeld, mark_running-IsHeld}

-- The calls of those who hold no job: they mark none and reset none, and enqueue jobs as pending.
abbrev pub IsForeign : Call → Type 0
IsForeign (enqueue j) = j.status ≡ pending
IsForeign (mark_completed id) = true ≡ false
IsForeign (mark_failed id e t) = true ≡ false
IsForeign (mark_dead id e) = true ≡ false
IsForeign (reset_stuck d) = true ≡ false
IsForeign _ = Unit

module _ (env : Env) (P : List JobRow → Type 0) where
  exec-rows {ℓ} :
      {A : Type ℓ} (statement : Statement A) (w : World)
      → P w.jobs
      → ((a : A) (db : Db) → statement (env.now w.step) w.db ≡ some (a, db) → P db.jobs)
      → P (exec env statement w).1.jobs
  unfolding exec
  exec-rows {A} statement w p f = go (env.fault w.step) (statement (env.now w.step) w.db) f
    where
      go :
          (x : Fault) (r : Option (A × Db))
          → ((a : A) (db : Db) → r ≡ some (a, db) → P db.jobs)
          → P (run x r w).1.jobs
      go delivered none f = p
      go delivered (some (a, db)) f = f a db refl
      go refused r f = p
      go unacknowledged none f = p
      go unacknowledged (some (a, db)) f = f a db refl

  commit-rows :
      (x : Fault) (js : List Job) (db : Db) (w : World)
      → P w.jobs
      → P db.jobs
      → P (commit env x js db w).1.jobs
  commit-rows delivered js db w p q = q
  commit-rows refused js db w p q = p
  commit-rows unacknowledged js db w p q = q

  go_on-rows :
      (x : Fault) (rest : M (Result (List Job))) (w : World)
      → P w.jobs
      → P (rest (bump w)).1.jobs
      → P (go_on env x rest w).1.jobs
  go_on-rows delivered rest w p q = q
  go_on-rows refused rest w p q = p
  go_on-rows unacknowledged rest w p q = p

  claim-rows :
      (now : ℕ) (rows : List JobRow) (w : World)
      → P w.jobs
      → P (mark_running now (job_ids rows) w.jobs)
      → P (claim env now rows w).1.jobs
  unfolding claim
  claim-rows now [] w p q = p
  claim-rows now (r ∷ rs) w p q =
      go_on-rows (env.fault w.step) _ w p (commit-rows _ _ _ (bump w) p q)

  pub dequeue-rows :
      (n : ℕ) (w : World)
      → P w.jobs
      → ((now : ℕ) (ids : List Text) → P (mark_running now ids w.jobs))
      → P (Jobs.dequeue env n w).1.jobs
  unfolding Jobs.dequeue
  dequeue-rows n w p q =
      go_on-rows (env.fault w.step) _ w p (
        go_on-rows (env.fault (w.step + 1)) _ (bump w) p (claim-rows _ _ (bump (bump w)) p (q _ _)))

insert_event-jobs :
    (r : EventRow) (now : ℕ) (db : Db) (a : Unit {0}) (db' : Db)
    → Events.insert_event r now db ≡ some (a, db')
    → db'.jobs ≡ db.jobs
unfolding Events.insert_event
insert_event-jobs r now db a db' h = ground arith

insert_audit-jobs :
    (r : AuditRow) (now : ℕ) (db : Db) (a : Unit {0}) (db' : Db)
    → Audit.insert_audit r now db ≡ some (a, db')
    → db'.jobs ≡ db.jobs
unfolding Audit.insert_audit
insert_audit-jobs r now db a db' h = ground arith

insert_job-jobs :
    (j : Job) (now : ℕ) (db : Db) (a : Unit {0}) (db' : Db)
    → insert_job j now db ≡ some (a, db')
    → (contains j.id (job_ids db.jobs) ≡ false)
      × (db'.jobs ≡ db.jobs ++ record { job = j; running_since = none } ∷ [])
unfolding insert_job
insert_job-jobs j now db a db' h = ground arith

job_ids-append : (rows more : List JobRow) → job_ids (rows ++ more) ≡ job_ids rows ++ job_ids more
job_ids-append [] more = refl
job_ids-append (r ∷ rows) more = ap (λ t. r.id ∷ t) (job_ids-append rows more)

-- A row under a new id.
append-IsHeld :
    (rows : List JobRow) (r : JobRow) (k : Text)
    → contains r.id (job_ids rows) ≡ false
    → IsHeld rows k
    → IsHeld (rows ++ r ∷ []) k
append-IsHeld rows r k new h = record {
  there =
      rw (job_ids-append rows (r ∷ [])) (contains-append_left k (job_ids rows) (r.id ∷ []) h.there);
  runs = All-append _ rows (r ∷ []) h.runs (
    (λ e. absurd (cc (h.there, new, ap (λ i. contains i (job_ids rows)) ((==_iff r.id k).0 e)))),
    tt,
  );
}

-- A query answers with the tables as they are.
same_rows {ℓ} :
    {A : Type ℓ} (a b : A) (k : Text) (w : World) (db : Db)
    → ◌≡◌ {A = Option (A × Db)} (some (a, w.db)) (some (b, db))
    → IsHeld w.jobs k
    → IsHeld db.jobs k
same_rows a b k w db x h = let e : db ≡ w.db = cc in rw e h

-- A held job stays held.
pub perform-IsHeld :
    (env : Env) (c : Call) (w : World) (k : Text)
    → IsForeign c
    → IsHeld w.jobs k
    → IsHeld (perform env c w).jobs k
unfolding perform Events.insert Events.exists_by_idempotency_key Events.get_by_id Events.list_recent
    Jobs.enqueue Jobs.list_failed Jobs.list_stale Audit.insert time_now
perform-IsHeld env (insert_event e) w k f h =
    exec-rows env (λ rows. IsHeld rows k) _ w h
      (λ a db x.
        let same : db.jobs ≡ w.jobs =
          insert_event-jobs (Events.to_row e) (env.now w.step) w.db a db x in
        rw same h)
perform-IsHeld env (exists_by_idempotency_key key) w k f h =
    exec-rows env (λ rows. IsHeld rows k) _ w h (λ a db x. same_rows _ a k w db x h)
perform-IsHeld env (get_by_id id) w k f h =
    exec-rows env (λ rows. IsHeld rows k) _ w h (λ a db x. same_rows _ a k w db x h)
perform-IsHeld env (list_recent n) w k f h =
    exec-rows env (λ rows. IsHeld rows k) _ w h (λ a db x. same_rows _ a k w db x h)
perform-IsHeld env (enqueue j) w k f h =
    exec-rows env (λ rows. IsHeld rows k) _ w h
      (λ a db x.
        let (new, e) = insert_job-jobs j _ w.db a db x in rw e (append-IsHeld w.jobs _ k new h))
perform-IsHeld env (dequeue n) w k f h =
    dequeue-rows env (λ rows. IsHeld rows k) n w h
      (λ now ids. mark_running-IsHeld now ids w.jobs k h)
perform-IsHeld env (mark_completed id) w k f h = absurd (cc f)
perform-IsHeld env (mark_failed id e t) w k f h = absurd (cc f)
perform-IsHeld env (mark_dead id e) w k f h = absurd (cc f)
perform-IsHeld env (list_failed n) w k f h =
    exec-rows env (λ rows. IsHeld rows k) _ w h (λ a db x. same_rows _ a k w db x h)
perform-IsHeld env (list_stale d) w k f h =
    exec-rows env (λ rows. IsHeld rows k) _ (bump w) h (λ a db x. same_rows _ a k w db x h)
perform-IsHeld env (reset_stuck d) w k f h = absurd (cc f)
perform-IsHeld env (insert_audit a) w k f h =
    exec-rows env (λ rows. IsHeld rows k) _ w h
      (λ b db x.
        let same : db.jobs ≡ w.jobs =
          insert_audit-jobs (Audit.to_row a) (env.now w.step) w.db b db x in
        rw same h)
