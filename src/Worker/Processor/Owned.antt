-- ===== src/Worker/Processor/Owned.antt =====
-- The jobs that the loop `Run` of internal/worker/processor.go holds, from the claim to the mark.
use glsync.Base.{
  Text, List, [], ◌∷◌, ◌++◌, true, false, Option, ◌≡◌, ◌≢◌, refl, ap, ◌∙◌, arith, contains,
  contains-append, IsUnique, All, All-mono, ==_iff, ==_refl,
}
use glsync.Errors.{ExecError}
use glsync.Domain.{Job, running}
use glsync.Store.{JobRow, Env}
use glsync.Store.Jobs.{update_job, set_completed, set_failed, set_dead}
use glsync.Store.Lifecycle.{IsLater, Evolves}
use glsync.Store.Lifecycle.Moves.{
  Evolves-refl, update_where-Evolves, set_completed-IsLater, set_failed-IsLater, set_dead-IsLater,
}
use glsync.Worker.Processor.Settle.{IsSettled, completed, retried, rejected, exhausted, lost}
use glsync.Worker.Processor.Holds.{IsHeld, update_job-IsHeld}

-- An element in the middle, and the others.
contains-middle : (xs ys : List Text) (k : Text) → contains k (xs ++ k ∷ ys) ≡ true
unfolding contains
contains-middle [] ys k = ground (arith, ==_refl k)
contains-middle (x ∷ xs) ys k = ground (arith, contains-middle xs ys k)

contains-others :
    (x : Text) (xs ys : List Text) (k : Text)
    → contains x (xs ++ k ∷ ys) ≡ false
    → (contains x (xs ++ ys) ≡ false) × (x ≢ k)
unfolding contains
contains-others x xs ys k h = (
  ground (arith, h, contains-append x xs (k ∷ ys), contains-append x xs ys),
  λ e. cc (contains-middle xs ys k, h, ap (λ i. contains i (xs ++ k ∷ ys)) e),
)

absent-All : (k : Text) (ys : List Text) → contains k ys ≡ false → All (λ i. i ≢ k) ys
unfolding contains
absent-All k [] h = tt
absent-All k (y ∷ ys) h =
    (λ e. ground (arith, h, ==_iff k y, e), absent-All k ys (ground (arith, h)))

pub IsUnique-middle :
    (xs ys : List Text) (k : Text)
    → IsUnique (xs ++ k ∷ ys)
    → IsUnique (xs ++ ys) × All (λ i. i ≢ k) (xs ++ ys)
IsUnique-middle [] ys k (fresh, u) = (u, absent-All k ys fresh)
IsUnique-middle (x ∷ xs) ys k (fresh, u) =
    let (new, apart) = contains-others x xs ys k fresh in
    let (rest, others) = IsUnique-middle xs ys k u in ((new, rest), (apart, others))

pub All-middle :
    (P : Text → Type 0) (xs ys : List Text) (k : Text)
    → All P (xs ++ k ∷ ys)
    → P k × All P (xs ++ ys)
All-middle P [] ys k h = h
All-middle P (x ∷ xs) ys k (p, h) = let (q, rest) = All-middle P xs ys k h in (q, (p, rest))

-- Two lists without a common element.
pub IsUnique-join :
    (xs ys : List Text)
    → IsUnique xs
    → IsUnique ys
    → All (λ x. contains x ys ≡ false) xs
    → IsUnique (xs ++ ys)
IsUnique-join [] ys u v h = v
IsUnique-join (x ∷ xs) ys (fresh, u) v (p, h) =
    (contains-append x xs ys ∙ ground (arith, fresh, p), IsUnique-join xs ys u v h)

pub All-self : (ks : List Text) → All (λ k. contains k ks ≡ true) ks
unfolding contains
All-self [] = tt
All-self (k ∷ ks) =
    (ground (arith, ==_refl k), All-mono (λ i h. ground (arith, h)) ks (All-self ks))

module _ (env : Env) (job : Job) where
  by_mark :
      (change : JobRow → JobRow) (rows : List JobRow)
      → ((r : JobRow) → r.status ≡ running → IsLater r (change r))
      → IsHeld rows job.id
      → Evolves rows (update_job job.id change rows)
  unfolding update_job
  by_mark change rows later h =
      update_where-Evolves _ change rows (All-mono (λ r runs e. later r (runs e)) rows h.runs)

  -- The job's row takes a step of its life.
  pub settled-Evolves :
      (result : Option ExecError) (rows rows' : List JobRow)
      → IsSettled env job result rows rows'
      → IsHeld rows job.id
      → Evolves rows rows'
  unfolding update_job
  settled-Evolves result rows rows' (completed now o e) h =
      rw e (by_mark (set_completed now) rows (set_completed-IsLater now) h)
  settled-Evolves result rows rows' (retried x now o c left e) h =
      rw e (by_mark (set_failed x _) rows (set_failed-IsLater x _) h)
  settled-Evolves result rows rows' (rejected x code o c e) h =
      rw e (by_mark (set_dead x) rows (set_dead-IsLater x) h)
  settled-Evolves result rows rows' (exhausted x o last e) h =
      rw e (by_mark (set_dead x) rows (set_dead-IsLater x) h)
  settled-Evolves result rows rows' (lost n f e) h = rw e (Evolves-refl rows)

  -- The other held jobs stay held.
  pub settled-IsHeld :
      (result : Option ExecError) (rows rows' : List JobRow) (k : Text)
      → IsSettled env job result rows rows'
      → k ≢ job.id
      → IsHeld rows k
      → IsHeld rows' k
  unfolding set_completed set_failed set_dead
  settled-IsHeld result rows rows' k (completed now o e) a h =
      rw e (update_job-IsHeld job.id (set_completed now) rows k (λ _. refl) a h)
  settled-IsHeld result rows rows' k (retried x now o c left e) a h =
      rw e (update_job-IsHeld job.id (set_failed x _) rows k (λ _. refl) a h)
  settled-IsHeld result rows rows' k (rejected x code o c e) a h =
      rw e (update_job-IsHeld job.id (set_dead x) rows k (λ _. refl) a h)
  settled-IsHeld result rows rows' k (exhausted x o last e) a h =
      rw e (update_job-IsHeld job.id (set_dead x) rows k (λ _. refl) a h)
  settled-IsHeld result rows rows' k (lost n f e) a h = rw e h
