-- ===== src/Worker/Processor/Budget.antt =====
-- The attempts that waiting jobs have left, under the ticks of internal/worker/processor.go.
use mathlib.Core.List.{Forall₂}
use glsync.Base.{
  ◌≤◌, false, ℕ, ◌+◌, ◌-◌, ◌≤◌, ◌<◌, Text, List, [], ◌∷◌, true, false, ◌≡◌, refl, arith, contains,
  ◌==◌, ==_iff, Bool-cases, inl, inr, if◌then◌else◌,
}
use glsync.Domain.{JobStatus}
use glsync.Store.{JobRow}
use glsync.Store.Jobs.{job_ids, is_waiting}
use glsync.Worker.Processor.Retries.{is_over}
use glsync.Worker.Processor.Batches.{IsWorked, kept, over, again, worked_id}

-- How often a row can still be claimed.
abbrev pub chances : JobRow → ℕ
chances r = if is_waiting r.status then 1 + (r.max_attempts - r.attempts) else 0

abbrev pub budget : List JobRow → ℕ
budget [] = 0
budget (r ∷ rows) = chances r + budget rows

pub over_rests : (s : JobStatus) → is_over s ≡ true → is_waiting s ≡ false
over_rests s h = ground arith

chances-IsWorked : (ids : List Text) (r c : JobRow) → IsWorked ids r c → chances c ≤ chances r
chances-IsWorked ids r c (kept x e) = rw e (omega arith)
chances-IsWorked ids r c (over x w e o) = rw (over_rests c.status o) (omega arith)
chances-IsWorked ids r c (again x w e s b n l) = rw (s, w, b, n) (omega (arith, l))

chances_spent :
    (ids : List Text) (r c : JobRow)
    → IsWorked ids r c
    → contains r.id ids ≡ true
    → chances c < chances r
chances_spent ids r c (kept x e) h = absurd (cc (x, h))
chances_spent ids r c (over x w e o) h = rw (over_rests c.status o, w) (omega arith)
chances_spent ids r c (again x w e s b n l) h = rw (s, w, b, n) (omega (arith, l))

budget-IsWorked :
    (ids : List Text) {rs cs : List JobRow} → Forall₂ (IsWorked ids) rs cs → budget cs ≤ budget rs
budget-IsWorked ids Forall₂.nil = omega arith
budget-IsWorked ids (Forall₂.cons {a} {b} p h) =
    omega (arith, chances-IsWorked ids a b p, budget-IsWorked ids h)

pub budget_spent :
    (ids : List Text) (k : Text) {rs cs : List JobRow}
    → contains k ids ≡ true
    → contains k (job_ids rs) ≡ true
    → Forall₂ (IsWorked ids) rs cs
    → budget cs < budget rs
unfolding contains
budget_spent ids k among there Forall₂.nil = absurd (cc there)
budget_spent ids k among there (Forall₂.cons {a} {b} p h) = elim (Bool-cases (k == a.id)) [
  | inl e ↦
      let same = (==_iff k a.id).0 e in
      omega (arith, chances_spent ids a b p (rw same at among), budget-IsWorked ids h)
  | inr e ↦
      let later = budget_spent ids k among (ground (arith, there, e)) h in
      omega (arith, chances-IsWorked ids a b p, later)
]

pub job_ids-IsWorked :
    (ids : List Text) {rs cs : List JobRow} → Forall₂ (IsWorked ids) rs cs → job_ids cs ≡ job_ids rs
job_ids-IsWorked ids Forall₂.nil = refl
job_ids-IsWorked ids (Forall₂.cons {a} {b} p h) =
    rw (worked_id ids a b p, job_ids-IsWorked ids h) refl
