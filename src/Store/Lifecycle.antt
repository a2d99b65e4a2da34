-- ===== src/Store/Lifecycle.antt =====
-- The life of a job, as the workers mean it: the phases that its row stands for, and the steps between
-- them. The statements of internal/store/job_repo.go implement it.
pub mod Selected
pub mod Moves
pub mod Refines
pub mod Late
use glsync.Base.{ℕ, ◌+◌, List, [], ◌∷◌, ◌≡◌}
use glsync.Domain.{JobStatus, pending, running, failed}
use glsync.Domain
use glsync.Store.{JobRow}

-- A job waits for a worker or is worked on, after a number of attempts, or it is over.
pub data Phase : Type 0 where
  queued : ℕ → Phase
  working : ℕ → Phase
  completed : Phase
  dead : Phase

abbrev phase_of : JobStatus → ℕ → Phase
phase_of pending n = queued n
phase_of running n = working n
phase_of Domain.completed n = completed
phase_of failed n = queued n
phase_of Domain.dead n = dead

abbrev pub phase : JobRow → Phase
phase r = phase_of r.status r.attempts

-- No step leaves the two last phases.
pub data Step : Phase → Phase → Type 0 where
  start : {n : ℕ} → Step (queued n) (working n)
  succeed : {n : ℕ} → Step (working n) completed
  retry : {n : ℕ} → Step (working n) (queued (n + 1))
  give_up : {n : ℕ} → Step (working n) dead
  reset : {n : ℕ} → Step (working n) (queued n)

pub data Reaches : Phase → Phase → Type 0 where
  here : {p : Phase} → Reaches p p
  next : {p q r : Phase} → Step p q → Reaches q r → Reaches p r

pub Reaches-trans : {p q r : Phase} → Reaches p q → Reaches q r → Reaches p r
Reaches-trans here h = h
Reaches-trans (next s g) h = next s (Reaches-trans g h)

-- The rows of a table some time later: each job is further on in its life or where it was, its id,
-- event, key and bound on attempts are the same, and new jobs,
-- which were pending when they were inserted, are at the end.
pub record IsLater (r r' : JobRow) : Type 0 where
  pub same_id : r'.id ≡ r.id
  pub same_event : r'.event_id ≡ r.event_id
  pub same_key : r'.issue_key ≡ r.issue_key
  pub same_state : r'.target_state ≡ r.target_state
  pub same_bound : r'.max_attempts ≡ r.max_attempts
  pub moved : Reaches (phase r) (phase r')

pub data Evolves : List JobRow → List JobRow → Type 0 where
  end : Evolves [] []
  new :
      {r r' : JobRow} {rows' : List JobRow}
      → r.status ≡ pending
      → IsLater r r'
      → Evolves [] rows'
      → Evolves [] (r' ∷ rows')
  old :
      {r r' : JobRow} {rows rows' : List JobRow}
      → IsLater r r'
      → Evolves rows rows'
      → Evolves (r ∷ rows) (r' ∷ rows')
