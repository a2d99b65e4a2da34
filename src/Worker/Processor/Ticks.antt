-- ===== src/Worker/Processor/Ticks.antt =====
-- One tick of the loop `Run` of internal/worker/processor.go, without faults: its batch is worked off.
use mathlib.Core.List.{Forall₂}
use glsync.Base.{
  ℕ, ◌+◌, Text, List, [], ◌∷◌, true, ◌≡◌, refl, sym, ap, ◌∙◌, arith, contains, IsUnique, All,
  All-mono, All-mono2, All-take, All-select, sort_by-All, All-map, ==_iff, Bool-cases, inl, inr,
}
use glsync.Plugin.{Registry}
use glsync.Store.{JobRow, World, Env, delivered, ok}
use glsync.Store.Jobs.{
  job_ids, jobs_of, is_waiting, is_claimable, update_where, mark_running, select_due, claim,
  dequeue,
}
use glsync.Store.Run.{bump}
use glsync.Store.Jobs.Claims.{claim_lem, dequeue_inv}
use glsync.Store.Lifecycle.Selected.{not-among, select_due-claimable}
use glsync.Worker.Executor.{Executor}
use glsync.Worker.Processor.{process_batch, poll}
use glsync.Worker.Processor.Holds.{select_due-IsUnique}
use glsync.Worker.Processor.Batches.{ids_of, IsWorked, kept, Stage, taken, settled, batch_stages}

-- Rows with the same id are one row.
unique_rows :
    (rows : List JobRow)
    → IsUnique (job_ids rows)
    → All (λ r. All (λ s. s.id ≡ r.id → s ≡ r) rows) rows
unique_rows [] u = tt
unique_rows (a ∷ rows) (fresh, u) =
    let others = not-among a.id rows fresh in
    (
      ((λ e. refl), All-mono (λ s no e. absurd (cc (no, (==_iff s.id a.id).1 e))) rows others),
      All-mono2 (λ r no h. ((λ e. absurd (cc (no, (==_iff r.id a.id).1 (sym e)))), h)) rows others
          (unique_rows rows u),
    )

All-select_due {κ} :
    (P : JobRow → Type κ) (now : ℕ) (locked : List Text) (n : ℕ) (rows : List JobRow)
    → All P rows
    → All P (select_due now locked n rows)
unfolding select_due
All-select_due P now locked n rows h =
    All-take P n _ (sort_by-All _ P _ (All-select {P = P} _ (λ r p _. p) rows h))

same_jobs :
    (r : JobRow) (rows : List JobRow)
    → All (λ s. s.id ≡ r.id → s ≡ r) rows
    → All (λ j. j.id ≡ r.id → j ≡ r.job) (jobs_of rows)
same_jobs r rows h = All-map _ _ rows (All-mono (λ s f e. ap (λ (x : JobRow). x.job) (f e)) rows h)

ids_of-jobs_of : (rows : List JobRow) → ids_of (jobs_of rows) ≡ job_ids rows
ids_of-jobs_of [] = refl
ids_of-jobs_of (r ∷ rows) = ap (λ t. r.id ∷ t) (ids_of-jobs_of rows)

waits :
    (now : ℕ) (locked : List Text) (r : JobRow)
    → is_claimable now locked r ≡ true
    → is_waiting r.status ≡ true
unfolding is_claimable
waits now locked r h = ground arith

-- Right after the claim of a batch.
claimed_stages :
    (t : ℕ) (batch rows : List JobRow)
    → All
        (λ r.
          contains r.id (job_ids batch) ≡ true
          → (is_waiting r.status ≡ true) × All (λ j. j.id ≡ r.id → j ≡ r.job) (jobs_of batch))
        rows
    → Forall₂ (Stage (job_ids batch) t (jobs_of batch)) rows (mark_running t (job_ids batch) rows)
unfolding mark_running update_where
claimed_stages t batch [] h = Forall₂.nil
claimed_stages t batch (r ∷ rows) (h, hs) = elim (Bool-cases (contains r.id (job_ids batch))) [
  | inl e ↦
      let there = ap (contains r.id) (ids_of-jobs_of batch) ∙ e in
      rw e (Forall₂.cons (taken e (h e).0 refl there (h e).1) (claimed_stages t batch rows hs))
  | inr e ↦
      let not_there = ap (contains r.id) (ids_of-jobs_of batch) ∙ e in
      rw e (Forall₂.cons (settled (kept e refl) not_there) (claimed_stages t batch rows hs))
]

last_stages :
    (ids : List Text) (t : ℕ) {rs cs : List JobRow}
    → Forall₂ (Stage ids t []) rs cs
    → Forall₂ (IsWorked ids) rs cs
unfolding contains
last_stages ids t Forall₂.nil = Forall₂.nil
last_stages ids t (Forall₂.cons (taken among w e there js) h) = absurd (cc there)
last_stages ids t (Forall₂.cons (settled done rest) h) = Forall₂.cons done (last_stages ids t h)

-- The batch that a tick claims in a world.
abbrev pub batch_at : Env → ℕ → World → List JobRow
batch_at env n w = select_due (env.now w.step) (env.locked (w.step + 1)) n w.jobs

module _ (env : Env) (registry : Registry) (ex : Executor) (concurrency : ℕ) where
  module _ (faultless : (n : ℕ) → env.fault n ≡ delivered) where
    claimed :
        (now : ℕ) (rows : List JobRow) (w : World)
        → (w' : World) × (claim env now rows w ≡ (ok (jobs_of rows), w'))
    unfolding claim
    claimed now [] w = (w, refl)
    claimed now (r ∷ rows) w = (
      bump (
          bump (record w {
            db = record w.db { jobs = mark_running now (job_ids (r ∷ rows)) w.jobs };
          })),
      rw (faultless w.step, faultless (w.step + 1)) refl,
    )

    dequeue_lem :
        (w : World)
        → (w' : World) × (dequeue env concurrency w
            ≡ (ok (jobs_of (batch_at env concurrency w)), w'))
    unfolding dequeue
    dequeue_lem w =
        rw (faultless w.step, faultless (w.step + 1))
          (claimed (env.now w.step) (batch_at env concurrency w) _)

    -- A tick works off its batch.
    pub poll-IsWorked :
        (w : World)
        → IsUnique (job_ids w.jobs)
        → Forall₂
            (IsWorked (job_ids (batch_at env concurrency w)))
            w.jobs
            (poll env registry ex concurrency w).1.jobs
    unfolding poll process_batch
    poll-IsWorked w u =
        let (w', e) = dequeue_lem w in
        let now = env.now w.step in
        let locked = env.locked (w.step + 1) in
        let batch = batch_at env concurrency w in
        let (_, marked, _) = claim_lem env now batch _ (dequeue_inv env concurrency w e) in
        let once = select_due-IsUnique now locked concurrency w.jobs u in
        let start = claimed_stages now batch w.jobs (
          All-mono2
            (λ r c same k. (
              waits now locked r (c k),
              same_jobs r batch (All-select_due _ now locked concurrency w.jobs same),
            ))
            w.jobs (select_due-claimable now locked concurrency w.jobs u) (unique_rows w.jobs u)) in
        rw e (
          last_stages (job_ids batch) now (
            batch_stages env registry ex faultless (job_ids batch) now (jobs_of batch) w'
              (rw (ids_of-jobs_of batch) once) (rw marked start)))
