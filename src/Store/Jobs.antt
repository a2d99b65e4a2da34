-- ===== src/Store/Jobs.antt =====
-- internal/store/job_repo.go: each statement as a function on the rows of `jobs`, and each method of
-- the repository as a program over the world.
pub mod Rows
pub mod Claims
pub mod Idle
use glsync.Base.{
  contains, ℤ, add_duration, negate, ℕ, ◌-◌, Text, List, [], ◌∷◌, ◌++◌, map, Bool, true, false,
  ◌&&◌, ◌||◌, not, Option, none, some, ltb, leb, ◌==◌, take, select, length, sort_by, sort_desc_by,
  if◌then◌else◌, ◌+◌,
}
use glsync.Errors.{ExecError}
use glsync.Domain.{Job, JobStatus, pending, running, completed, failed, dead}
use glsync.Store.{
  int32_max, EventRow, JobRow, Db, World, Env, Fault, delivered, refused, unacknowledged, Result,
  ok, err, unavailable, violation,
}
use glsync.Store.Run.{M, pure, ◌>>=◌, ◌>>◌, Statement, bump, time_now, exec}

abbrev pub job_ids : List JobRow → List Text
job_ids = map (λ r. r.id)

abbrev pub event_ids : List EventRow → List Text
event_ids = map (λ r. r.id)

-- UPDATE jobs SET … WHERE …
unfoldable pub update_where : (JobRow → Bool) → (JobRow → JobRow) → List JobRow → List JobRow
update_where test change [] = []
update_where test change (r ∷ rs) =
    let rest = update_where test change rs in (if test r then change r else r) ∷ rest

-- The columns `attempts` and `max_attempts` are of type INTEGER.
unfoldable pub fits_columns : Job → Bool
fits_columns j = leb j.attempts int32_max && leb j.max_attempts int32_max

-- INSERT INTO jobs: the id is the primary key, and `event_id` refers to a row of `events`.
unfoldable pub insert_job : Job → Statement (Unit {0})
unfolding contains fits_columns
insert_job j now db =
    if fits_columns j
      && contains j.event_id (event_ids db.events)
      && not (contains j.id (job_ids db.jobs))
    then some (tt, record db { jobs = db.jobs ++ record { job = j; running_since = none } ∷ [] })
    else none

-- status IN ('pending', 'failed')
abbrev pub is_waiting : JobStatus → Bool
is_waiting pending = true
is_waiting failed = true
is_waiting _ = false

-- status IN ('failed', 'dead')
abbrev pub is_failed : JobStatus → Bool
is_failed failed = true
is_failed dead = true
is_failed _ = false

abbrev pub is_running : JobStatus → Bool
is_running running = true
is_running _ = false

-- The rows that WHERE and SKIP LOCKED leave to the query of `Dequeue`.
unfoldable pub is_claimable : ℕ → List Text → JobRow → Bool
is_claimable now locked r =
    is_waiting r.status && leb r.next_run_at now && not (contains r.id locked)

-- ORDER BY next_run_at ASC LIMIT n
unfoldable pub select_due : ℕ → List Text → ℕ → List JobRow → List JobRow
unfolding is_claimable
select_due now locked n rows =
    take n (sort_by (λ r. r.next_run_at) (select (is_claimable now locked) rows))

unfoldable pub set_running : ℕ → JobRow → JobRow
set_running now r = record r { job = record r.job { status = running }; running_since = some now }

unfoldable pub mark_running : ℕ → List Text → List JobRow → List JobRow
unfolding update_where set_running contains
mark_running now ids = update_where (λ r. contains r.id ids) (set_running now)

unfoldable pub set_completed : ℕ → JobRow → JobRow
set_completed now r = record r {
  job = record r.job { status = completed; completed_at = some now };
  running_since = none;
}

unfoldable pub set_failed : ExecError → ℕ → JobRow → JobRow
set_failed e next_run_at r = record r {
  job = record r.job {
    status = failed;
    last_error = some e;
    next_run_at = next_run_at;
    attempts = r.attempts + 1;
  };
  running_since = none;
}

unfoldable pub set_dead : ExecError → JobRow → JobRow
set_dead e r = record r {
  job = record r.job { status = dead; last_error = some e; attempts = r.attempts + 1 };
  running_since = none;
}

-- status = 'running' AND running_since < cutoff; NULL is less than nothing
abbrev pub since_before : ℕ → Option ℕ → Bool
since_before cutoff none = false
since_before cutoff (some t) = ltb t cutoff

unfoldable pub is_stuck : ℕ → JobRow → Bool
is_stuck cutoff r = is_running r.status && since_before cutoff r.running_since

unfoldable pub set_pending : ℕ → JobRow → JobRow
set_pending now r = record r {
  job = record r.job { status = pending; next_run_at = now };
  running_since = none;
}

-- WHERE id = $1
unfoldable pub update_job : Text → (JobRow → JobRow) → List JobRow → List JobRow
unfolding update_where
update_job id = update_where (λ r. r.id == id)

abbrev pub update_jobs : (List JobRow → List JobRow) → Db → Option (Unit {0} × Db)
update_jobs f db = some (tt, record db { jobs = f db.jobs })

abbrev pub jobs_of : List JobRow → List Job
jobs_of = map (λ r. r.job)

module _ (env : Env) where
  unfoldable pub enqueue : Job → M (Result (Unit {0}))
  enqueue j = exec env (insert_job j)

  -- What COMMIT makes of the transaction's update.
  abbrev pub commit : Fault → List Job → Db → World → Result (List Job) × World
  commit delivered jobs db w = (ok jobs, bump (record w { db = db }))
  commit refused jobs db w = (err unavailable, bump w)
  commit unacknowledged jobs db w = (err unavailable, bump (record w { db = db }))

  -- BEGIN, the query and the update go on after `delivered`; any other answer rolls back.
  abbrev pub go_on : Fault → M (Result (List Job)) → M (Result (List Job))
  go_on delivered rest w = rest (bump w)
  go_on refused rest w = (err unavailable, bump w)
  go_on unacknowledged rest w = (err unavailable, bump w)

  unfoldable pub claim : ℕ → List JobRow → M (Result (List Job))
  unfolding mark_running
  claim now [] w = (ok [], w)
  claim now (r ∷ rs) w =
      go_on (env.fault w.step)
        (λ w'.
          commit (env.fault w'.step) (jobs_of (r ∷ rs))
            (record w'.db { jobs = mark_running now (job_ids (r ∷ rs)) w'.jobs }) w')
        w

  -- `now()` is the time at which the transaction began.
  unfoldable pub dequeue : ℕ → M (Result (List Job))
  dequeue batch_size w =
      let now = env.now w.step in
      go_on (env.fault w.step)
        (λ w'.
          go_on (env.fault w'.step)
            (λ w''. claim now (select_due now (env.locked w'.step) batch_size w''.jobs) w'') w')
        w

  unfoldable pub mark_completed : Text → M (Result (Unit {0}))
  mark_completed id = exec env (λ now. update_jobs (update_job id (set_completed now)))

  unfoldable pub mark_failed : Text → ExecError → ℕ → M (Result (Unit {0}))
  mark_failed id e next_run_at =
      exec env (λ now. update_jobs (update_job id (set_failed e next_run_at)))

  unfoldable pub mark_dead : Text → ExecError → M (Result (Unit {0}))
  mark_dead id e = exec env (λ now. update_jobs (update_job id (set_dead e)))

  -- `if limit <= 0 || limit > 1000 { limit = 200 }`
  abbrev pub clamp_limit : ℕ → ℕ
  clamp_limit limit = if leb limit 0 || ltb 1000 limit then 200 else limit

  -- status IN ('failed', 'dead') ORDER BY created_at DESC
  unfoldable pub list_failed : ℕ → M (Result (List Job))
  list_failed limit = exec env (λ _ db. some (
    jobs_of (
        take (clamp_limit limit)
          (sort_desc_by (λ r. r.created_at) (select (λ r. is_failed r.status) db.jobs))),
    db,
  ))

  unfoldable pub list_stale : ℤ → M (Result (List Job))
  list_stale older_than = do
    now ← time_now env
    exec env (λ _ db. some (
      jobs_of (
          select
            (λ r. is_running r.status && ltb r.next_run_at (add_duration now (negate older_than)))
            db.jobs),
      db,
    ))

  unfoldable pub reset_stuck : ℤ → M (Result ℕ)
  reset_stuck older_than = do
    client_now ← time_now env
    exec env (λ now db. some (
      length (select (is_stuck (add_duration client_now (negate older_than))) db.jobs),
      record db {
        jobs =
            update_where (is_stuck (add_duration client_now (negate older_than))) (set_pending now)
              db.jobs;
      },
    ))
