-- ===== src/Store/Lifecycle/Moves.antt =====
-- The changes of rows by the statements on `jobs`, as steps of the jobs' lives.
use glsync.Base.{
  ℕ, List, [], ◌∷◌, ◌++◌, Bool, true, false, ◌≡◌, refl, arith, All, ◌∙◌, if◌then◌else◌,
}
use glsync.Errors.{ExecError}
use glsync.Domain.{Job, JobStatus, pending, running, failed}
use glsync.Domain
use glsync.Store.{JobRow}
use glsync.Store.Jobs.{
  update_where, set_running, set_completed, set_failed, set_dead, set_pending, is_running,
  is_waiting, is_stuck,
}
use glsync.Store.Lifecycle.{
  phase_of, Step, start, succeed, retry, give_up, reset, Reaches, here, next, Reaches-trans,
  IsLater, Evolves, end, new, old, queued, working,
}

pub IsLater-refl : (r : JobRow) → IsLater r r
IsLater-refl r = record {
  same_id = refl;
  same_event = refl;
  same_key = refl;
  same_state = refl;
  same_bound = refl;
  moved = here;
}

pub IsLater-trans : {r s t : JobRow} → IsLater r s → IsLater s t → IsLater r t
IsLater-trans a b = record {
  same_id = b.same_id ∙ a.same_id;
  same_event = b.same_event ∙ a.same_event;
  same_key = b.same_key ∙ a.same_key;
  same_state = b.same_state ∙ a.same_state;
  same_bound = b.same_bound ∙ a.same_bound;
  moved = Reaches-trans a.moved b.moved;
}

pub Evolves-refl : (rows : List JobRow) → Evolves rows rows
Evolves-refl [] = end
Evolves-refl (r ∷ rows) = old (IsLater-refl r) (Evolves-refl rows)

pub Evolves-trans :
    {rows rows' rows'' : List JobRow}
    → Evolves rows rows'
    → Evolves rows' rows''
    → Evolves rows rows''
Evolves-trans end h = h
Evolves-trans (new p a g) (old b h) = new p (IsLater-trans a b) (Evolves-trans g h)
Evolves-trans (old a g) (old b h) = old (IsLater-trans a b) (Evolves-trans g h)

pub Evolves-append :
    (rows : List JobRow) (r : JobRow) → r.status ≡ pending → Evolves rows (rows ++ r ∷ [])
Evolves-append [] r p = new p (IsLater-refl r) end
Evolves-append (s ∷ rows) r p = old (IsLater-refl s) (Evolves-append rows r p)

module _ (test : JobRow → Bool) (change : JobRow → JobRow) where
  -- An UPDATE that moves each row that it hits by a step.
  pub update_where-Evolves :
      (rows : List JobRow)
      → All (λ r. test r ≡ true → IsLater r (change r)) rows
      → Evolves rows (update_where test change rows)
  unfolding update_where
  update_where-Evolves [] h = end
  update_where-Evolves (r ∷ rows) (p, h) = old (go (test r) refl) (update_where-Evolves rows h)
    where
      go : (b : Bool) → test r ≡ b → IsLater r (if b then change r else r)
      go true e = p e
      go false e = IsLater-refl r

waiting-queued : (s : JobStatus) (n : ℕ) → is_waiting s ≡ true → phase_of s n ≡ queued n
waiting-queued pending n h = refl
waiting-queued running n h = cc
waiting-queued Domain.completed n h = cc
waiting-queued failed n h = refl
waiting-queued Domain.dead n h = cc

running-working : (s : JobStatus) (n : ℕ) → s ≡ running → phase_of s n ≡ working n
running-working s n h = rw h refl

is_running-running : (s : JobStatus) → is_running s ≡ true → s ≡ running
is_running-running pending h = cc
is_running-running running h = refl
is_running-running Domain.completed h = cc
is_running-running failed h = cc
is_running-running Domain.dead h = cc

by_step : {p q r : _} → p ≡ q → Step q r → Reaches p r
by_step e s = rw e (next s here)

pub set_running-IsLater :
    (now : ℕ) (r : JobRow) → is_waiting r.status ≡ true → IsLater r (set_running now r)
unfolding set_running
set_running-IsLater now r h = record {
  same_id = refl;
  same_event = refl;
  same_key = refl;
  same_state = refl;
  same_bound = refl;
  moved = by_step (waiting-queued r.status r.attempts h) start;
}

pub set_completed-IsLater :
    (now : ℕ) (r : JobRow) → r.status ≡ running → IsLater r (set_completed now r)
unfolding set_completed
set_completed-IsLater now r h = record {
  same_id = refl;
  same_event = refl;
  same_key = refl;
  same_state = refl;
  same_bound = refl;
  moved = by_step (running-working r.status r.attempts h) succeed;
}

pub set_failed-IsLater :
    (e : ExecError) (t : ℕ) (r : JobRow) → r.status ≡ running → IsLater r (set_failed e t r)
unfolding set_failed
set_failed-IsLater e t r h = record {
  same_id = refl;
  same_event = refl;
  same_key = refl;
  same_state = refl;
  same_bound = refl;
  moved = by_step (running-working r.status r.attempts h) retry;
}

pub set_dead-IsLater : (e : ExecError) (r : JobRow) → r.status ≡ running → IsLater r (set_dead e r)
unfolding set_dead
set_dead-IsLater e r h = record {
  same_id = refl;
  same_event = refl;
  same_key = refl;
  same_state = refl;
  same_bound = refl;
  moved = by_step (running-working r.status r.attempts h) give_up;
}

pub set_pending-IsLater :
    (now cutoff : ℕ) (r : JobRow) → is_stuck cutoff r ≡ true → IsLater r (set_pending now r)
unfolding set_pending is_stuck
set_pending-IsLater now cutoff r h = record {
  same_id = refl;
  same_event = refl;
  same_key = refl;
  same_state = refl;
  same_bound = refl;
  moved =
      by_step (running-working r.status r.attempts (is_running-running r.status (ground arith)))
        reset;
}
