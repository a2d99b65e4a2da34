-- ===== src/Worker/Processor/Holds.antt =====
-- The rows of the jobs that a processor holds, under the statements of internal/store/job_repo.go.
use glsync.Base.{
  ℕ, zero, suc, Text, List, [], ◌∷◌, Bool, true, false, ◌≡◌, ◌≢◌, refl, sym, ap, ◌∙◌, arith,
  contains, IsUnique, All, All-all, All-mono2, ◌==◌, ==_iff, take, select, sort_by, insert_by, leb,
  Bool-cases, inl, inr,
}
use glsync.Domain.{running}
use glsync.Store.{JobRow}
use glsync.Store.Jobs.{
  job_ids, update_job, mark_running, set_running, select_due, is_claimable, is_waiting,
}
use glsync.Store.Jobs.Rows.{update_where-All, job_ids-update_where}
use glsync.Store.Lifecycle.Selected.{
  contains-take, contains-select, contains-sort_by, contains-insert_by, select_due-claimable,
}

-- A row with the id is there, and every such row is running.
pub record IsHeld (rows : List JobRow) (id : Text) : Type 0 where
  pub there : contains id (job_ids rows) ≡ true
  pub runs : All (λ r. r.id == id ≡ true → r.status ≡ running) rows

absent : (a b : Bool) → (a ≡ true → b ≡ true) → b ≡ false → a ≡ false
absent true b h e = absurd (cc (h refl, e))
absent false b h e = refl

IsUnique-take :
    (n : ℕ) (rows : List JobRow) → IsUnique (job_ids rows) → IsUnique (job_ids (take n rows))
IsUnique-take zero rows u = tt
IsUnique-take (suc n) [] u = tt
IsUnique-take (suc n) (r ∷ rows) (fresh, u) =
    (absent _ _ (contains-take r.id n rows) fresh, IsUnique-take n rows u)

IsUnique-select :
    (p : JobRow → Bool) (rows : List JobRow)
    → IsUnique (job_ids rows)
    → IsUnique (job_ids (select p rows))
IsUnique-select p [] u = tt
IsUnique-select p (r ∷ rows) (fresh, u) = elim (Bool-cases (p r)) [
  | inl e ↦ rw e (absent _ _ (contains-select p r.id rows) fresh, IsUnique-select p rows u)
  | inr e ↦ rw e (IsUnique-select p rows u)
]

IsUnique-insert_by :
    (f : JobRow → ℕ) (r : JobRow) (rows : List JobRow)
    → contains r.id (job_ids rows) ≡ false
    → IsUnique (job_ids rows)
    → IsUnique (job_ids (insert_by f r rows))
unfolding insert_by contains
IsUnique-insert_by f r [] fresh u = (refl, tt)
IsUnique-insert_by f r (s ∷ rows) fresh u = elim (Bool-cases (leb (f r) (f s))) [
  | inl e ↦ rw e (fresh, u)
  | inr e ↦ rw e (
    ground
        (arith, contains-insert_by f s.id r rows, u.0, fresh, ==_iff r.id s.id, ==_iff s.id r.id),
    IsUnique-insert_by f r rows (ground (arith, fresh)) u.1,
  )
]

IsUnique-sort_by :
    (f : JobRow → ℕ) (rows : List JobRow)
    → IsUnique (job_ids rows)
    → IsUnique (job_ids (sort_by f rows))
unfolding sort_by
IsUnique-sort_by f [] u = tt
IsUnique-sort_by f (r ∷ rows) (fresh, u) =
    IsUnique-insert_by f r (sort_by f rows) (contains-sort_by f r.id rows ∙ fresh)
      (IsUnique-sort_by f rows u)

-- The ids of a batch are apart.
pub select_due-IsUnique :
    (now : ℕ) (locked : List Text) (n : ℕ) (rows : List JobRow)
    → IsUnique (job_ids rows)
    → IsUnique (job_ids (select_due now locked n rows))
unfolding select_due
select_due-IsUnique now locked n rows u =
    IsUnique-take n _ (IsUnique-sort_by (λ r. r.next_run_at) _ (IsUnique-select _ rows u))

-- The statement that marks a batch leaves held jobs held.
pub mark_running-IsHeld :
    (now : ℕ) (ids : List Text) (rows : List JobRow) (k : Text)
    → IsHeld rows k
    → IsHeld (mark_running now ids rows) k
unfolding mark_running set_running
mark_running-IsHeld now ids rows k h = record {
  there = rw (job_ids-update_where _ (set_running now) (λ _. refl) rows) h.there;
  runs = update_where-All _ _ _ (set_running now) (λ r p e same. refl) (λ r p e. p) rows h.runs;
}

-- And the jobs of the batch are held after it.
pub marked-IsHeld :
    (now : ℕ) (ids : List Text) (rows : List JobRow) (k : Text)
    → contains k ids ≡ true
    → contains k (job_ids rows) ≡ true
    → IsHeld (mark_running now ids rows) k
unfolding mark_running set_running
marked-IsHeld now ids rows k among there = record {
  there = rw (job_ids-update_where _ (set_running now) (λ _. refl) rows) there;
  runs =
      update_where-All (λ _. Unit {0}) _ _ (set_running now) (λ r p e same. refl)
        (λ r p e same. ground (arith, among, e, ==_iff r.id k)) rows (All-all (λ _. tt) rows);
}

-- A change of another job's row leaves a held job held.
pub update_job-IsHeld :
    (id : Text) (change : JobRow → JobRow) (rows : List JobRow) (k : Text)
    → ((r : JobRow) → (change r).id ≡ r.id)
    → k ≢ id
    → IsHeld rows k
    → IsHeld (update_job id change rows) k
unfolding update_job
update_job-IsHeld id change rows k same apart h = record {
  there = rw (job_ids-update_where _ change same rows) h.there;
  runs =
      update_where-All _ _ _ change
        (λ r p e x.
          absurd (apart (sym ((==_iff (change r).id k).0 x) ∙ (same r ∙ (==_iff r.id id).0 e))))
        (λ r p e. p) rows h.runs;
}

waiting-ne-running : (r : JobRow) → is_waiting r.status ≡ true → r.status ≢ running
waiting-ne-running r h e = cc (h, ap is_waiting e)

claimable-ne-running :
    (now : ℕ) (locked : List Text) (r : JobRow)
    → is_claimable now locked r ≡ true
    → r.status ≢ running
unfolding is_claimable
claimable-ne-running now locked r h = waiting-ne-running r (ground arith)

-- No row with the id is left.
absent_id :
    (k : Text) (rows : List JobRow)
    → All (λ r. r.id == k ≢ true) rows
    → contains k (job_ids rows) ≡ false
unfolding contains
absent_id k [] h = refl
absent_id k (r ∷ rows) (p, h) = ground (arith, absent_id k rows h, p, ==_iff k r.id, ==_iff r.id k)

-- A batch holds no job that is held already.
pub select_due-apart :
    (now : ℕ) (locked : List Text) (n : ℕ) (rows : List JobRow) (k : Text)
    → IsUnique (job_ids rows)
    → IsHeld rows k
    → contains k (job_ids (select_due now locked n rows)) ≡ false
select_due-apart now locked n rows k u h =
    elim (Bool-cases (contains k (job_ids (select_due now locked n rows)))) [
      | inr e ↦ e
      | inl e ↦
          let none_left = absent_id k rows (
            All-mono2
              (λ r claims runs same.
                claimable-ne-running now locked r
                  (claims (
                    ap (λ i. contains i (job_ids (select_due now locked n rows)))
                      ((==_iff r.id k).0 same)
                    ∙ e))
                  (runs same))
              rows (select_due-claimable now locked n rows u) h.runs) in
          absurd (cc (none_left, h.there))
    ]

-- The ids of a batch are ids of rows.
pub contains-select_due :
    (now : ℕ) (locked : List Text) (n : ℕ) (rows : List JobRow) (k : Text)
    → contains k (job_ids (select_due now locked n rows)) ≡ true
    → contains k (job_ids rows) ≡ true
unfolding select_due
contains-select_due now locked n rows k h =
    contains-select _ k rows
      (sym (contains-sort_by (λ r. r.next_run_at) k (select _ rows)) ∙ contains-take k n _ h)
