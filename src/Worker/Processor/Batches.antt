-- ===== src/Worker/Processor/Batches.antt =====
-- The rows of a batch that internal/worker/processor.go has claimed, while its jobs are processed.
use mathlib.Core.List.{Forall₂}
use glsync.Base.{
  add_duration, ℕ, ◌+◌, ◌<◌, Text, List, [], ◌∷◌, Bool, true, false, ◌≡◌, refl, sym, ap, arith,
  contains, IsUnique, IsUnique, All, ◌==◌, ==_iff, Bool-cases, inl, inr, if◌then◌else◌, map,
}
use glsync.Domain.{Job, failed}
use glsync.Plugin.{Registry}
use glsync.Store.{JobRow, World, Env, delivered}
use glsync.Store.Jobs.{
  is_waiting, update_where, update_job, set_running, set_completed, set_failed, set_dead,
}
use glsync.Worker.Executor.{Executor}
use glsync.Worker.Processor.{process, process_all}
use glsync.Worker.Backoff.{next_backoff}
use glsync.Worker.Processor.Settle.{
  completed, retried, rejected, exhausted, lost, process-IsSettled,
}
use glsync.Worker.Processor.Retries.{is_over}

abbrev pub ids_of : List Job → List Text
ids_of = map (λ j. j.id)

-- What an UPDATE makes of each row and of what it stands for.
pub update_where-Forall₂ {ℓ κ} :
    {P : JobRow → JobRow → Type ℓ} {Q : JobRow → JobRow → Type κ} (test : JobRow → Bool)
    (change : JobRow → JobRow)
    → ((r c : JobRow) → P r c → Q r (if test c then change c else c))
    → {rs cs : List JobRow} → Forall₂ P rs cs
    → Forall₂ Q rs (update_where test change cs)
unfolding update_where
update_where-Forall₂ test change f Forall₂.nil = Forall₂.nil
update_where-Forall₂ test change f (Forall₂.cons {a} {b} p h) =
    Forall₂.cons (f a b p) (update_where-Forall₂ test change f h)

-- A row before and after a batch in which the ids stand: only jobs of the batch change, they waited, and
-- now they are over, or have failed and have attempts left.
pub data IsWorked (ids : List Text) (r c : JobRow) : Type 0 where
  kept : contains r.id ids ≡ false → c ≡ r → IsWorked ids r c
  over :
      contains r.id ids ≡ true
      → is_waiting r.status ≡ true
      → c.id ≡ r.id
      → is_over c.status ≡ true
      → IsWorked ids r c
  again :
      contains r.id ids ≡ true
      → is_waiting r.status ≡ true
      → c.id ≡ r.id
      → c.status ≡ failed
      → c.max_attempts ≡ r.max_attempts
      → c.attempts ≡ r.attempts + 1
      → r.attempts + 1 < r.max_attempts
      → IsWorked ids r c

-- In the middle of a batch, with the jobs that are still to be processed.
pub data Stage (ids : List Text) (t : ℕ) (js : List Job) (r c : JobRow) : Type 0 where
  taken :
      contains r.id ids ≡ true
      → is_waiting r.status ≡ true
      → c ≡ set_running t r
      → contains r.id (ids_of js) ≡ true
      → All (λ j. j.id ≡ r.id → j ≡ r.job) js
      → Stage ids t js r c
  settled : IsWorked ids r c → contains r.id (ids_of js) ≡ false → Stage ids t js r c

pub worked_id : (ids : List Text) (r c : JobRow) → IsWorked ids r c → c.id ≡ r.id
worked_id ids r c (kept x e) = ap (λ (s : JobRow). s.id) e
worked_id ids r c (over x w e o) = e
worked_id ids r c (again x w e s b n l) = e

-- One job's change of one row.
changed-Stage :
    (ids : List Text) (t : ℕ) (j : Job) (js : List Job) (f : JobRow → JobRow) (r c : JobRow)
    → contains j.id (ids_of js) ≡ false
    → (contains r.id ids ≡ true
        → is_waiting r.status ≡ true
        → j ≡ r.job
        → IsWorked ids r (f (set_running t r)))
    → Stage ids t (j ∷ js) r c
    → Stage ids t js r (if c.id == j.id then f c else c)
unfolding contains set_running
changed-Stage ids t j js f r c fresh work (settled done rest) =
    let same = worked_id ids r c done in
    let no : c.id == j.id ≡ false =
      ground (arith, same, rest, ==_iff r.id j.id, ==_iff c.id j.id) in
    rw no (settled done (ground (arith, rest)))
changed-Stage ids t j js f r c fresh work (taken among waits e there (mine, others)) =
    elim (Bool-cases (r.id == j.id)) [
      | inl hit ↦
          let same : r.id ≡ j.id = (==_iff r.id j.id).0 hit in
          rw (e, hit) (settled (work among waits (mine (sym same))) (rw same fresh))
      | inr miss ↦ rw (e, miss) (taken among waits refl (ground (arith, there, miss)) others)
    ]

-- One job's UPDATE of the table.
update_job-Forall₂ :
    (ids : List Text) (t : ℕ) (j : Job) (js : List Job) (f : JobRow → JobRow) {rs cs : List JobRow}
    → contains j.id (ids_of js) ≡ false
    → ((r : JobRow)
        → contains r.id ids ≡ true
        → is_waiting r.status ≡ true
        → j ≡ r.job
        → IsWorked ids r (f (set_running t r)))
    → Forall₂ (Stage ids t (j ∷ js)) rs cs
    → Forall₂ (Stage ids t js) rs (update_job j.id f cs)
unfolding update_job
update_job-Forall₂ ids t j js f fresh work =
    update_where-Forall₂ (λ c. c.id == j.id) f
      (λ r c. changed-Stage ids t j js f r c fresh (work r))

module _ (env : Env) (registry : Registry) (ex : Executor)
    (faultless : (n : ℕ) → env.fault n ≡ delivered) where
  process_stages :
      (ids : List Text) (t : ℕ) (j : Job) (js : List Job) (w : World) {rs : List JobRow}
      → contains j.id (ids_of js) ≡ false
      → Forall₂ (Stage ids t (j ∷ js)) rs w.jobs
      → Forall₂ (Stage ids t js) rs (process env registry ex j w).1.jobs
  unfolding set_completed set_failed set_dead set_running
  process_stages ids t j js w fresh h = elim (process-IsSettled env registry ex j w) [
    | completed now x e ↦ rw e (
        update_job-Forall₂ ids t j js (set_completed now) fresh
          (λ r among waits mine. over among waits refl refl) h)
    | retried x now p q left e ↦ rw e (
        update_job-Forall₂ ids t j js (set_failed x (add_duration now (next_backoff j.attempts)))
          fresh (λ r among waits mine. again among waits refl refl refl refl (rw mine at left)) h)
    | rejected x code p q e ↦ rw e (
        update_job-Forall₂ ids t j js (set_dead x) fresh
          (λ r among waits mine. over among waits refl refl) h)
    | exhausted x p last e ↦ rw e (
        update_job-Forall₂ ids t j js (set_dead x) fresh
          (λ r among waits mine. over among waits refl refl) h)
    | lost n f e ↦ absurd (cc (faultless n, f))
  ]

  -- The whole batch.
  pub batch_stages :
      (ids : List Text) (t : ℕ) (js : List Job) (w : World) {rs : List JobRow}
      → IsUnique (ids_of js)
      → Forall₂ (Stage ids t js) rs w.jobs
      → Forall₂ (Stage ids t []) rs (process_all env registry ex js w).1.jobs
  unfolding process_all
  batch_stages ids t [] w u h = h
  batch_stages ids t (j ∷ js) w (fresh, u) h =
      batch_stages ids t js (process env registry ex j w).1 u (process_stages ids t j js w fresh h)
