-- ===== src/Worker/Reconciler/Resets.antt =====
-- The rows of `jobs` under a tick of internal/worker/reconciler.go.
use glsync.Base.{
  ℤ, add_duration, negate, ℕ, ◌+◌, ◌≤◌, ◌<◌, List, [], ◌∷◌, none, some, ◌≡◌, refl, arith, true,
  false, Bool-cases, inl, inr, Option-cases,
}
use glsync.Domain.{JobStatus, pending, running}
use glsync.Store.{JobRow, World, Env, Fault, delivered, refused, unacknowledged, Result}
use glsync.Store.Run.{exec, time_now, new_uuid}
use glsync.Store.Jobs.{update_where, is_stuck, is_running, set_pending, reset_stuck}
use glsync.Store.Audit
use glsync.Store.Audit.{insert_audit}
use glsync.Worker.Reconciler.{write_audit, report, reset_stuck_jobs}

-- A row that waits again, due at `t`: every other column of the job is as it was.
pub record IsPending (t : ℕ) (r c : JobRow) : Type 0 where
  pub again : c.status ≡ pending
  pub due : c.next_run_at ≡ t
  pub stopped : c.running_since ≡ none
  pub same_rest : record c.job { status = r.status; next_run_at = r.next_run_at } ≡ r.job

-- The rows that were running since a time before the cutoff are pending again and due at `t`; the
-- others are as they were, in the same order.
pub data IsReset (cutoff t : ℕ) : List JobRow → List JobRow → Type 0 where
  end : IsReset cutoff t [] []
  reset :
      {rows rows' : List JobRow} (r c : JobRow) (since : ℕ)
      → r.status ≡ running
      → r.running_since ≡ some since
      → since < cutoff
      → IsPending t r c
      → IsReset cutoff t rows rows'
      → IsReset cutoff t (r ∷ rows) (c ∷ rows')
  kept :
      {rows rows' : List JobRow} (r : JobRow)
      → ((since : ℕ) → r.status ≡ running → r.running_since ≡ some since → cutoff ≤ since)
      → IsReset cutoff t rows rows'
      → IsReset cutoff t (r ∷ rows) (r ∷ rows')

pub data IsTicked (env : Env) (timeout : ℤ) (w : World) (rows' : List JobRow) : Type 0 where
  ticked :
      IsReset (add_duration (env.now w.step) (negate timeout)) (env.now (w.step + 1)) w.jobs rows'
      → IsTicked env timeout w rows'
  missed : env.fault (w.step + 1) ≡ refused → rows' ≡ w.jobs → IsTicked env timeout w rows'

is_running_lem : (s : JobStatus) → is_running s ≡ true → s ≡ running
is_running_lem s h = ground arith

is_stuck_lem :
    (cutoff : ℕ) (r : JobRow)
    → is_stuck cutoff r ≡ true
    → (r.status ≡ running) × ((since : ℕ) × (r.running_since ≡ some since) × (since < cutoff))
unfolding is_stuck
is_stuck_lem cutoff r h = elim (Option-cases r.running_since) [
  | inl e ↦ ground arith
  | inr (since, e) ↦ (ground (arith, is_running_lem r.status), (since, e, ground arith))
]

not_stuck_lem :
    (cutoff : ℕ) (r : JobRow) (since : ℕ)
    → is_stuck cutoff r ≡ false
    → r.status ≡ running
    → r.running_since ≡ some since
    → cutoff ≤ since
unfolding is_stuck
not_stuck_lem cutoff r since h s e = ground arith

set_pending-IsPending : (t : ℕ) (r : JobRow) → IsPending t r (set_pending t r)
unfolding set_pending
set_pending-IsPending t r = record { again = refl; due = refl; stopped = refl; same_rest = refl }

update_where-IsReset :
    (cutoff t : ℕ) (rows : List JobRow)
    → IsReset cutoff t rows (update_where (is_stuck cutoff) (set_pending t) rows)
unfolding update_where
update_where-IsReset cutoff t [] = end
update_where-IsReset cutoff t (r ∷ rows) = elim (Bool-cases (is_stuck cutoff r)) [
  | inl e ↦
      let (s, (since, f, lt)) = is_stuck_lem cutoff r e in
      rw e (reset r _ since s f lt (set_pending-IsPending t r) (update_where-IsReset cutoff t rows))
  | inr e ↦ rw e (
      kept r (λ since s f. not_stuck_lem cutoff r since e s f) (update_where-IsReset cutoff t rows))
]

module _ (env : Env) where
  jobs-report : (r : Result ℕ) (w : World) → (report env r w).1.jobs ≡ w.jobs
  unfolding report write_audit Audit.insert exec insert_audit time_now new_uuid
  jobs-report r w = ground arith

  reset_stuck-IsTicked :
      (timeout : ℤ) (w : World) → IsTicked env timeout w (reset_stuck env timeout w).1.jobs
  unfolding reset_stuck exec time_now
  reset_stuck-IsTicked timeout w = go (env.fault (w.step + 1)) refl
    where
      go :
          (x : Fault)
          → env.fault (w.step + 1) ≡ x
          → IsTicked env timeout w (reset_stuck env timeout w).1.jobs
      go delivered f = rw f (ticked (update_where-IsReset _ _ w.jobs))
      go refused f = rw f (missed f refl)
      go unacknowledged f = rw f (ticked (update_where-IsReset _ _ w.jobs))

  -- A tick of the reconciler makes exactly the jobs pending, due at the time of the statement, that were
  -- running since before the timeout; their other columns and every other job are as they were. Nothing
  -- changes only if the statement was refused.
  pub reset_stuck_jobs-IsTicked :
      (timeout : ℤ) (w : World) → IsTicked env timeout w (reset_stuck_jobs env timeout w).1.jobs
  unfolding reset_stuck_jobs
  reset_stuck_jobs-IsTicked timeout w =
      let (r, w') = reset_stuck env timeout w in
      rw (jobs-report r w') (reset_stuck-IsTicked timeout w)
