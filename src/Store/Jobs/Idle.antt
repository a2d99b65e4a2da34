-- ===== src/Store/Jobs/Idle.antt =====
-- When the query of `Dequeue` of internal/store/job_repo.go selects nothing.
use glsync.Base.{
  ℕ, zero, suc, ◌≤◌, ◌≢◌, Text, List, [], ◌∷◌, Bool, false, ◌≡◌, refl, arith, All, take, select,
  sort_by, insert_by, leb, Bool-cases, inl, inr,
}
use glsync.Store.{JobRow}
use glsync.Store.Jobs.{is_claimable, select_due}

take-nil : (n : ℕ) (rows : List JobRow) → 1 ≤ n → take n rows ≡ [] → rows ≡ []
take-nil zero rows h e = absurd (omega (arith, h))
take-nil (suc n) [] h e = refl
take-nil (suc n) (r ∷ rows) h e = absurd (cc e)

insert_by-ne-nil : (f : JobRow → ℕ) (r : JobRow) (rows : List JobRow) → insert_by f r rows ≢ []
unfolding insert_by
insert_by-ne-nil f r [] = λ e. cc
insert_by-ne-nil f r (s ∷ rows) = elim (Bool-cases (leb (f r) (f s))) [
  | inl e ↦ rw e (λ x. cc)
  | inr e ↦ rw e (λ x. cc)
]

sort_by-nil : (f : JobRow → ℕ) (rows : List JobRow) → sort_by f rows ≡ [] → rows ≡ []
unfolding sort_by
sort_by-nil f [] e = refl
sort_by-nil f (r ∷ rows) e = absurd (insert_by-ne-nil f r (sort_by f rows) e)

select-nil :
    (p : JobRow → Bool) (rows : List JobRow) → select p rows ≡ [] → All (λ r. p r ≡ false) rows
select-nil p [] e = tt
select-nil p (r ∷ rows) e = elim (Bool-cases (p r)) [
  | inl x ↦ absurd (let bad = rw x at e in cc bad)
  | inr x ↦ (x, select-nil p rows (rw x at e))
]

-- A batch is empty only if no row is due.
pub select_due-nil :
    (now : ℕ) (locked : List Text) (n : ℕ) (rows : List JobRow)
    → 1 ≤ n
    → select_due now locked n rows ≡ []
    → All (λ r. is_claimable now locked r ≡ false) rows
unfolding select_due
select_due-nil now locked n rows h e =
    select-nil (is_claimable now locked) rows (sort_by-nil _ _ (take-nil n _ h e))
