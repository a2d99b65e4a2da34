-- ===== src/Store/Jobs/Rows.antt =====
-- The rows of `jobs` under the statements of internal/store/job_repo.go.
use mathlib.Core.List.{Forall₂}
use glsync.Base.{
  ℕ, List, [], ◌∷◌, Bool, ◌↔◌, true, false, Option, none, some, ◌≡◌, refl, arith, Bool-cases, inl,
  inr, All,
}
use glsync.Errors.{ExecError}
use glsync.Store.{JobRow}
use glsync.Store.Jobs.{
  update_where, is_running, set_running, set_completed, set_failed, set_dead, set_pending, job_ids,
}

module _ {ℓ κ} (P : JobRow → Type ℓ) (Q : JobRow → Type κ) (test : JobRow → Bool)
    (change : JobRow → JobRow) where
  -- After an UPDATE the changed rows and the others have each what is shown of them.
  pub update_where-All :
      ((r : JobRow) → P r → test r ≡ true → Q (change r))
      → ((r : JobRow) → P r → test r ≡ false → Q r)
      → (rows : List JobRow) → All P rows
      → All Q (update_where test change rows)
  unfolding update_where
  update_where-All hit miss [] h = tt
  update_where-All hit miss (r ∷ rs) (p, h) = elim (Bool-cases (test r)) [
    | inl e ↦ rw e (hit r p e, update_where-All hit miss rs h)
    | inr e ↦ rw e (miss r p e, update_where-All hit miss rs h)
  ]

-- A row before and after an UPDATE that concerns certain rows and changes them in a certain way.
pub data IsPatched (IsMeant : JobRow → Type 0) (IsChange : JobRow → JobRow → Type 0) (r c : JobRow)
    : Type 0 where
  changed : IsMeant r → IsChange r c → IsPatched IsMeant IsChange r c
  spared : ¬ IsMeant r → c ≡ r → IsPatched IsMeant IsChange r c

pub update_where-IsPatched :
    {IsMeant : JobRow → Type 0} {IsChange : JobRow → JobRow → Type 0} (test : JobRow → Bool)
    (change : JobRow → JobRow)
    → ((r : JobRow) → (test r ≡ true) ↔ IsMeant r)
    → ((r : JobRow) → IsChange r (change r))
    → (rows : List JobRow)
    → Forall₂ (IsPatched IsMeant IsChange) rows (update_where test change rows)
unfolding update_where
update_where-IsPatched test change meant right [] = Forall₂.nil
update_where-IsPatched test change meant right (r ∷ rs) = elim (Bool-cases (test r)) [
  | inl e ↦ rw e (
      Forall₂.cons (changed ((meant r).0 e) (right r))
        (update_where-IsPatched test change meant right rs))
  | inr e ↦ rw e (
      Forall₂.cons (spared (λ m. cc ((meant r).1 m, e)) refl)
        (update_where-IsPatched test change meant right rs))
]

-- An UPDATE that sets no id changes none.
pub job_ids-update_where :
    (test : JobRow → Bool) (change : JobRow → JobRow)
    → ((r : JobRow) → (change r).id ≡ r.id)
    → (rows : List JobRow) → job_ids (update_where test change rows) ≡ job_ids rows
unfolding update_where
job_ids-update_where test change same [] = refl
job_ids-update_where test change same (r ∷ rs) =
    ground (arith, same r, job_ids-update_where test change same rs)

abbrev pub is_set : Option ℕ → Bool
is_set none = false
is_set (some t) = true

-- `running_since` is set exactly while the row's job is running.
abbrev pub IsConsistent : JobRow → Type 0
IsConsistent r = is_running r.status ≡ is_set r.running_since

pub set_running-IsConsistent : (now : ℕ) (r : JobRow) → IsConsistent (set_running now r)
unfolding set_running
set_running-IsConsistent now r = refl

pub set_completed-IsConsistent : (now : ℕ) (r : JobRow) → IsConsistent (set_completed now r)
unfolding set_completed
set_completed-IsConsistent now r = refl

pub set_failed-IsConsistent :
    (e : ExecError) (next_run_at : ℕ) (r : JobRow) → IsConsistent (set_failed e next_run_at r)
unfolding set_failed
set_failed-IsConsistent e next_run_at r = refl

pub set_dead-IsConsistent : (e : ExecError) (r : JobRow) → IsConsistent (set_dead e r)
unfolding set_dead
set_dead-IsConsistent e r = refl

pub set_pending-IsConsistent : (now : ℕ) (r : JobRow) → IsConsistent (set_pending now r)
unfolding set_pending
set_pending-IsConsistent now r = refl

-- An UPDATE whose assignments leave the two columns consistent keeps all rows consistent.
pub update_where-IsConsistent :
    (test : JobRow → Bool) (change : JobRow → JobRow)
    → ((r : JobRow) → IsConsistent (change r))
    → (rows : List JobRow) → All IsConsistent rows
    → All IsConsistent (update_where test change rows)
update_where-IsConsistent test change h =
    update_where-All IsConsistent IsConsistent test change (λ r _ _. h r) (λ r p _. p)
