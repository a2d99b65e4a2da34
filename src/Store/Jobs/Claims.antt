-- ===== src/Store/Jobs/Claims.antt =====
-- Claims of jobs by `Dequeue` of internal/store/job_repo.go.
use mathlib.Core.List.{Perm, Forall₂}
use glsync.Base.{
  contains, ◌↔◌, inl, inr, Bool, some, All-mono, ℕ, ◌≤◌, ◌+◌, Text, List, [], ◌∷◌, ◌++◌, map, ◌⊎◌,
  take-append-drop, drop-nil-or-full, sort_by-perm, All-map, true, false, ◌≡◌, refl, ap, ◌∙◌, arith,
  length, drop, select, All, All-all, All-take, All-select, length-take-le, sort_by, sort_by-All,
  IsSortedBy, sort_by-IsSortedBy, take-IsSortedBy, take-least,
}
use glsync.Domain.{Job, JobStatus, pending, running, completed, failed, dead}
use glsync.Store.{JobRow, World, Env, ok}
use glsync.Store.Jobs.{
  is_waiting, is_claimable, select_due, set_running, mark_running, job_ids, claim, dequeue,
}
use glsync.Store.Run.{bump}
use glsync.Store.Jobs.Rows.{update_where-All, IsPatched, update_where-IsPatched}

module _ (now : ℕ) (locked : List Text) (n : ℕ) (rows : List JobRow) where
  abbrev IsClaimable : JobRow → Type 0
  IsClaimable r = is_claimable now locked r ≡ true

  select_due-IsClaimable : All IsClaimable (select_due now locked n rows)
  unfolding select_due
  select_due-IsClaimable = All-take _ n _ (
      sort_by-All _ _ _
        (All-select {P = λ _. Unit {0}} _ (λ r _ e. e) rows (All-all (λ _. tt) rows)))

  length-select_due-le : length (select_due now locked n rows) ≤ n
  unfolding select_due
  length-select_due-le = length-take-le n _

  select_due-IsSortedBy : IsSortedBy (λ r. r.next_run_at) (select_due now locked n rows)
  unfolding select_due
  select_due-IsSortedBy = take-IsSortedBy _ n _ (sort_by-IsSortedBy _ _)

  left_due : List JobRow
  left_due = drop n (sort_by (λ r. r.next_run_at) (select (is_claimable now locked) rows))

  select_due-left_due-perm :
      Perm (select_due now locked n rows ++ left_due) (select (is_claimable now locked) rows)
  unfolding select_due left_due
  select_due-left_due-perm = rw take-append-drop (sort_by-perm _ _)

  select_due-least :
      All (λ r. All (λ l. r.next_run_at ≤ l.next_run_at) left_due) (select_due now locked n rows)
  unfolding select_due left_due
  select_due-least = take-least _ n _ (sort_by-IsSortedBy _ _)

  left_due-nil-or-full : (left_due ≡ []) ⊎ (length (select_due now locked n rows) ≡ n)
  unfolding select_due left_due
  left_due-nil-or-full = drop-nil-or-full n _

abbrev IsClaimedBy : List Text → JobRow → Type 0
IsClaimedBy ids r = is_waiting r.status ≡ true → contains r.id ids ≡ false

mark_running-unclaimed :
    (now : ℕ) (ids : List Text) (rows : List JobRow)
    → All (IsClaimedBy ids) (mark_running now ids rows)
unfolding mark_running
mark_running-unclaimed now ids rows =
    update_where-All (λ _. Unit {0}) (IsClaimedBy ids) (λ r. contains r.id ids) (set_running now)
      (λ r _ e w. cc) (λ r _ e w. e) rows (All-all (λ _. tt) rows)

is_claimable-waiting :
    (now : ℕ) (locked : List Text) (r : JobRow)
    → is_claimable now locked r ≡ true
    → is_waiting r.status ≡ true
unfolding is_claimable
is_claimable-waiting now locked r h = ground arith

-- Rows that were marked running are in no later selection.
select_due-mark_running :
    (now later : ℕ) (ids locked : List Text) (n : ℕ) (rows : List JobRow)
    → All (λ r. contains r.id ids ≡ false) (select_due later locked n (mark_running now ids rows))
unfolding select_due
select_due-mark_running now later ids locked n rows = All-take _ n _ (
    sort_by-All _ _ _ (
      All-select _ (λ r c e. c (is_claimable-waiting later locked r e)) _
        (mark_running-unclaimed now ids rows)))

-- A row that `Dequeue` may claim at a time, when other transactions have locked some.
pub record IsDue (now : ℕ) (locked : List Text) (r : JobRow) : Type 0 where
  pub waiting : (r.status ≡ pending) ⊎ (r.status ≡ failed)
  pub reached : r.next_run_at ≤ now
  pub unlocked : contains r.id locked ≡ false

-- A row that runs since a time: every other column of the job is as it was.
pub record IsStarted (now : ℕ) (r c : JobRow) : Type 0 where
  pub started : c.status ≡ running
  pub since : c.running_since ≡ some now
  pub same_rest : record c.job { status = r.status } ≡ r.job

is_waiting_iff : (s : JobStatus) → (is_waiting s ≡ true) ↔ ((s ≡ pending) ⊎ (s ≡ failed))
is_waiting_iff pending = (λ _. inl refl, λ _. refl)
is_waiting_iff failed = (λ _. inr refl, λ _. refl)
is_waiting_iff running = (λ e. cc, λ h. elim h [ inl e ↦ cc | inr e ↦ cc ])
is_waiting_iff completed = (λ e. cc, λ h. elim h [ inl e ↦ cc | inr e ↦ cc ])
is_waiting_iff dead = (λ e. cc, λ h. elim h [ inl e ↦ cc | inr e ↦ cc ])

is_claimable_iff :
    (now : ℕ) (locked : List Text) (r : JobRow)
    → (is_claimable now locked r ≡ true) ↔ IsDue now locked r
unfolding is_claimable
is_claimable_iff now locked r = (
  λ h. record {
    waiting = (is_waiting_iff r.status).0 (ground arith);
    reached = ground arith;
    unlocked = ground arith;
  },
  λ d.
      let u = d.unlocked in
      let t = d.reached in let w = (is_waiting_iff r.status).1 d.waiting in ground arith,
)

mark_running-IsPatched :
    (now : ℕ) (ids : List Text) (rows : List JobRow)
    → Forall₂
        (IsPatched (λ r. contains r.id ids ≡ true) (IsStarted now))
        rows
        (mark_running now ids rows)
unfolding mark_running set_running
mark_running-IsPatched now ids rows =
    update_where-IsPatched (λ r. contains r.id ids) (set_running now) (λ r. (λ e. e, λ e. e))
      (λ r. record { started = refl; since = refl; same_rest = refl }) rows

-- A successful `Dequeue`: the rows that it claimed, in the world before and the world after.
pub record Claim (env : Env) (n : ℕ) (w : World) (js : List Job) (w' : World) : Type 0 where
  pub rows : List JobRow
  pub returned : js ≡ map (λ r. r.job) rows
  pub within : length rows ≤ n
  pub due : All (IsDue (env.now w.step) (env.locked (w.step + 1))) rows
  pub earliest_first : IsSortedBy (λ r. r.next_run_at) rows
  pub left : List JobRow
  pub is_due : JobRow → Bool
  pub decides :
      (r : JobRow) → (is_due r ≡ true) ↔ IsDue (env.now w.step) (env.locked (w.step + 1)) r
  pub all_due : Perm (rows ++ left) (select is_due w.jobs)
  pub left_later : All (λ r. All (λ l. r.next_run_at ≤ l.next_run_at) left) rows
  pub left_if_full : (left ≡ []) ⊎ (length rows ≡ n)
  pub marked :
      Forall₂
        (IsPatched (λ r. contains r.id (job_ids rows) ≡ true) (IsStarted (env.now w.step)))
        w.jobs
        w'.jobs
  pub others : (w'.events ≡ w.events) × (w'.audit_logs ≡ w.audit_logs)

mark_running-nil : (now : ℕ) (rows : List JobRow) → mark_running now [] rows ≡ rows
unfolding mark_running
mark_running-nil now [] = refl
mark_running-nil now (r ∷ rs) = ap (λ x. r ∷ x) (mark_running-nil now rs)

module _ (env : Env) where
  pub claim_lem :
      (now : ℕ) (rows : List JobRow) (w : World) {js : List Job} {w' : World}
      → claim env now rows w ≡ (ok js, w')
      → (js ≡ map (λ r. r.job) rows)
        × (w'.jobs ≡ mark_running now (job_ids rows) w.jobs)
        × ((w'.events ≡ w.events) × (w'.audit_logs ≡ w.audit_logs))
  unfolding claim
  claim_lem now [] w h = ground (arith, mark_running-nil now w.jobs)
  claim_lem now (r ∷ rs) w h = ground arith

  pub dequeue_inv :
      (n : ℕ) (w : World) {js : List Job} {w' : World}
      → dequeue env n w ≡ (ok js, w')
      → claim env
          (env.now w.step)
          (select_due (env.now w.step) (env.locked (w.step + 1)) n w.jobs)
          (bump (bump w))
        ≡ (ok js, w')
  unfolding dequeue
  dequeue_inv n w h = ground arith

  -- Whatever `Dequeue` returns without an error are due jobs that no other transaction has locked, at
  -- most a batch, the earliest first. The due jobs that it leaves run no earlier, and there are some
  -- only after a full batch. The rows with the returned ids run since the transaction's time, with their
  -- other columns as they were, and no other row or table changes.
  pub dequeue-Claim :
      (n : ℕ) (w : World) {js : List Job} {w' : World}
      → dequeue env n w ≡ (ok js, w')
      → Claim env n w js w'
  dequeue-Claim n w h =
      let (same, marked, others) = claim_lem _ _ _ (dequeue_inv n w h) in
      record {
        rows = select_due (env.now w.step) (env.locked (w.step + 1)) n w.jobs;
        returned = same;
        within = length-select_due-le _ _ n w.jobs;
        due = All-mono (λ r. (is_claimable_iff _ _ r).0) _ (select_due-IsClaimable _ _ n w.jobs);
        earliest_first = select_due-IsSortedBy _ _ n w.jobs;
        left = left_due (env.now w.step) (env.locked (w.step + 1)) n w.jobs;
        is_due = is_claimable (env.now w.step) (env.locked (w.step + 1));
        decides = is_claimable_iff _ _;
        all_due = select_due-left_due-perm _ _ n w.jobs;
        left_later = select_due-least _ _ n w.jobs;
        left_if_full = left_due-nil-or-full _ _ n w.jobs;
        marked = rw marked (mark_running-IsPatched _ _ w.jobs);
        others = others;
      }

abbrev ids_of : List Job → List Text
ids_of = map (λ j. j.id)

ids_of-job : (rows : List JobRow) → ids_of (map (λ r. r.job) rows) ≡ job_ids rows
ids_of-job [] = refl
ids_of-job (r ∷ rs) = ap (λ x. r.id ∷ x) (ids_of-job rs)

-- Two transactions that claim one after the other, with nothing between them on the table, never
-- return the same job.
pub dequeue-dequeue :
    (env : Env) (n m : ℕ) (w v : World) {js ks : List Job} {w' v' : World}
    → dequeue env n w ≡ (ok js, w')
    → v.jobs ≡ w'.jobs
    → dequeue env m v ≡ (ok ks, v')
    → All (λ k. contains k.id (ids_of js) ≡ false) ks
dequeue-dequeue env n m w v {js} {ks} h same k =
    let (ej, marked, _) = claim_lem env _ _ _ (dequeue_inv env n w h) in
    let (ek, _, _) = claim_lem env _ _ _ (dequeue_inv env m v k) in
    let rows = select_due (env.now w.step) (env.locked (w.step + 1)) n w.jobs in
    let ids : ids_of js ≡ job_ids rows = ap ids_of ej ∙ ids_of-job rows in
    let table : v.jobs ≡ mark_running (env.now w.step) (job_ids rows) w.jobs = same ∙ marked in
    rw (ek, ids, table)
      (All-map _ _ _ (
        select_due-mark_running (env.now w.step) (env.now v.step) (job_ids rows)
          (env.locked (v.step + 1)) m w.jobs))
