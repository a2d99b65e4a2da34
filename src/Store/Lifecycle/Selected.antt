-- ===== src/Store/Lifecycle/Selected.antt =====
-- The rows that `Dequeue` updates are the rows that it selected: ids are unique.
use glsync.Base.{
  ℕ, zero, suc, Text, List, [], ◌∷◌, Bool, true, false, ◌||◌, ◌≡◌, refl, sym, ap, ◌∙◌, arith,
  contains, IsUnique, All, All-mono, All-mono2, ◌==◌, ==_iff, select, take, sort_by, insert_by,
  if◌then◌else◌,
}
use glsync.Store.{JobRow}
use glsync.Store.Jobs.{job_ids, is_claimable, select_due}

module _ (p : JobRow → Bool) where
  pub contains-select :
      (k : Text) (rows : List JobRow)
      → contains k (job_ids (select p rows)) ≡ true
      → contains k (job_ids rows) ≡ true
  unfolding contains
  contains-select k [] h = h
  contains-select k (r ∷ rows) h = ground (arith, contains-select k rows)

pub contains-take :
    (k : Text) (n : ℕ) (rows : List JobRow)
    → contains k (job_ids (take n rows)) ≡ true
    → contains k (job_ids rows) ≡ true
unfolding contains
contains-take k zero rows h = cc
contains-take k (suc n) [] h = h
contains-take k (suc n) (r ∷ rows) h = ground (arith, contains-take k n rows)

module _ (f : JobRow → ℕ) where
  pub contains-insert_by :
      (k : Text) (r : JobRow) (rows : List JobRow)
      → contains k (job_ids (insert_by f r rows)) ≡ (k == r.id || contains k (job_ids rows))
  unfolding contains insert_by
  contains-insert_by k r [] = refl
  contains-insert_by k r (s ∷ rows) = ground (arith, contains-insert_by k r rows)

  pub contains-sort_by :
      (k : Text) (rows : List JobRow)
      → contains k (job_ids (sort_by f rows)) ≡ contains k (job_ids rows)
  unfolding contains sort_by
  contains-sort_by k [] = refl
  contains-sort_by k (r ∷ rows) =
      contains-insert_by k r (sort_by f rows) ∙ ap (λ b. k == r.id || b) (contains-sort_by k rows)

pub not-among :
    (k : Text) (rows : List JobRow)
    → contains k (job_ids rows) ≡ false
    → All (λ r. r.id == k ≡ false) rows
unfolding contains
not-among k [] h = tt
not-among k (r ∷ rows) h =
    (ground (arith, ==_iff k r.id, ==_iff r.id k), not-among k rows (ground arith))

module _ (p : JobRow → Bool) where
  -- A selection holds the id of a row only if it holds the row.
  select-passes :
      (rows : List JobRow)
      → IsUnique (job_ids rows)
      → All (λ r. contains r.id (job_ids (select p rows)) ≡ true → p r ≡ true) rows
  unfolding contains
  select-passes [] u = tt
  select-passes (r ∷ rows) (fresh, u) = go (p r) refl (select-passes rows u)
    where
      go :
          (b : Bool)
          → p r ≡ b
          → All (λ s. contains s.id (job_ids (select p rows)) ≡ true → p s ≡ true) rows
          → All
              (λ s.
                contains s.id (job_ids (if b then r ∷ select p rows else select p rows)) ≡ true
                → p s ≡ true)
              (r ∷ rows)
      go true e rest = (
        λ _. e,
        All-mono2 (λ s apart h k. h (ground (arith, k, apart))) rows (not-among r.id rows fresh)
            rest,
      )
      go false e rest = (λ k. cc (contains-select p r.id rows k, fresh), rest)

-- Each row whose id `Dequeue` has selected is one that it may claim.
pub select_due-claimable :
    (now : ℕ) (locked : List Text) (n : ℕ) (rows : List JobRow)
    → IsUnique (job_ids rows)
    → All
        (λ r.
          contains r.id (job_ids (select_due now locked n rows)) ≡ true
          → is_claimable now locked r ≡ true)
        rows
unfolding select_due
select_due-claimable now locked n rows u =
    All-mono
      (λ r h k.
        let among = contains-take r.id n _ k in
        h (
          sym (contains-sort_by (λ s. s.next_run_at) r.id (select (is_claimable now locked) rows))
          ∙ among))
      rows (select-passes (is_claimable now locked) rows u)
