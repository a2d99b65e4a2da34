-- ===== src/Store/Lifecycle/Late.antt =====
-- A worker that reports on a job that it no longer holds: the marks of internal/store/job_repo.go ask for
-- no status.
use glsync.Base.{
  ℕ, ◌+◌, Text, List, [], ◌∷◌, true, ◌≡◌, ◌≢◌, refl, arith, All, contains, ◌==◌, ==_iff, Bool-cases,
  inl, inr,
}
use glsync.Domain
use glsync.Errors.{ExecError}
use glsync.Store.{JobRow, World, Env, Fault, delivered, refused, unacknowledged}
use glsync.Store.Run.{exec}
use glsync.Store.Jobs.{job_ids, update_where, update_job, set_failed, mark_failed}
use glsync.Store.Lifecycle.{
  Phase, queued, completed, phase, Step, start, succeed, retry, give_up, reset, Reaches, here, next,
  IsLater, Evolves, old,
}

Evolves-first :
    {r c : JobRow} {rows rows' : List JobRow} → Evolves (r ∷ rows) (c ∷ rows') → IsLater r c
Evolves-first (old l h) = l

Evolves-rest :
    {r c : JobRow} {rows rows' : List JobRow} → Evolves (r ∷ rows) (c ∷ rows') → Evolves rows rows'
Evolves-rest (old l h) = h

stays : {p q : Phase} → Step p q → p ≢ completed
stays start = λ e. cc e
stays succeed = λ e. cc e
stays retry = λ e. cc e
stays give_up = λ e. cc e
stays reset = λ e. cc e

-- A completed job is never queued again.
no_return : {p q : Phase} (n : ℕ) → Reaches p q → p ≡ completed → q ≢ queued n
no_return n here e = λ f. cc (e, f)
no_return n (next s g) e = absurd (stays s e)

phase_completed : (r : JobRow) → r.status ≡ Domain.completed → phase r ≡ completed
phase_completed r s = rw s refl

module _ (id : Text) (e : ExecError) (t : ℕ) where
  late_row : (r : JobRow) → r.status ≡ Domain.completed → ¬ IsLater r (set_failed e t r)
  unfolding set_failed
  late_row r s l = no_return (r.attempts + 1) l.moved (phase_completed r s) refl

  late_update :
      (rows : List JobRow)
      → contains id (job_ids rows) ≡ true
      → All (λ r. r.id == id ≡ true → r.status ≡ Domain.completed) rows
      → ¬ Evolves rows (update_job id (set_failed e t) rows)
  unfolding update_job update_where contains
  late_update [] there done h = cc there
  late_update (r ∷ rows) there (d, done) h = elim (Bool-cases (r.id == id)) [
    | inl hit ↦ late_row r (d hit) (Evolves-first (rw hit at h))
    | inr miss ↦
        late_update rows (ground (arith, there, miss, ==_iff id r.id, ==_iff r.id id)) done
          (Evolves-rest h)
  ]

  -- A worker that was taken for stuck, and reports a failure of its job after another has completed it,
  -- breaks the life of the job: unless the statement is refused, the table that `MarkFailed` leaves is
  -- none that jobs on their way can reach, since the completed job is queued again.
  pub mark_failed_late :
      (env : Env) (w : World)
      → env.fault w.step ≢ refused
      → contains id (job_ids w.jobs) ≡ true
      → All (λ r. r.id == id ≡ true → r.status ≡ Domain.completed) w.jobs
      → ¬ Evolves w.jobs (mark_failed env id e t w).1.jobs
  unfolding mark_failed exec
  mark_failed_late env w sent there done = go (env.fault w.step) refl
    where
      go : (x : Fault) → env.fault w.step ≡ x → ¬ Evolves w.jobs (mark_failed env id e t w).1.jobs
      go delivered f = rw f (late_update w.jobs there done)
      go refused f = absurd (sent f)
      go unacknowledged f = rw f (late_update w.jobs there done)
