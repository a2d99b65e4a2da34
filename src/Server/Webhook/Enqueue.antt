-- ===== src/Server/Webhook/Enqueue.antt =====
-- The loop of internal/server/webhook_handler.go over the issue keys of an event.
use mathlib.Core.Path.{subst}
use glsync.Base.{
  ◌<◌, ℕ, ◌+◌, ◌*◌, ◌≢◌, ap, length, Text, List, [], ◌∷◌, ◌++◌, true, false, none, ◌≡◌, refl, sym,
  ◌∙◌, arith, contains, Bool-cases, inl, inr, ==_iff,
}
use glsync.Domain.{Job, jira_transition, pending}
use glsync.Domain.States.{WorkflowState}
use glsync.Store.{
  int32_max, EventRow, JobRow, World, Env, Fault, delivered, refused, unacknowledged,
}
use glsync.Store.Run.{exec, bump, time_now, new_uuid}
use glsync.Store.Jobs.{fits_columns, insert_job, job_ids, event_ids, enqueue}
use glsync.Worker.Processor.{new_job}
use glsync.Server.Webhook.{Handler, enqueue_all}

-- A job of an accepted event as it is enqueued.
abbrev pub IsNew : Text → WorkflowState → ℕ → Text → Job → Type 0
IsNew event_id state max_attempts key j =
    (j.issue_key ≡ key)
    × (j.target_state ≡ state)
    × (j.event_id ≡ event_id)
    × (j.status ≡ pending)
    × (j.type ≡ jira_transition)
    × (j.attempts ≡ 0)
    × (j.max_attempts ≡ max_attempts)

-- The jobs of an event are added in the order of its keys, each under the uuid that its turn, which begins
-- with the call of number `n` and takes four, gives it. A key goes without only if the statement of
-- its turn is refused, the id of its turn is taken, or the bound on attempts does not fit its column.
pub data IsEnqueued (env : Env) (event_id : Text) (state : WorkflowState) (max_attempts : ℕ)
    : List Text → ℕ → List JobRow → List JobRow → Type 0 where
  all :
      {n : ℕ} {rows rows' : List JobRow}
      → rows' ≡ rows
      → IsEnqueued env event_id state max_attempts [] n rows rows'
  added :
      {key : Text} {keys : List Text} {n : ℕ} {rows rows' : List JobRow} (j : Job)
      → IsNew event_id state max_attempts key j
      → j.id ≡ env.uuid n
      → env.fault (n + 3) ≢ refused
      → IsEnqueued env event_id state max_attempts keys
          (n + 4)
          (rows ++ record { job = j; running_since = none } ∷ [])
          rows'
      → IsEnqueued env event_id state max_attempts (key ∷ keys) n rows rows'
  lost :
      {key : Text} {keys : List Text} {n : ℕ} {rows rows' : List JobRow}
      → env.fault (n + 3) ≡ refused
      → IsEnqueued env event_id state max_attempts keys (n + 4) rows rows'
      → IsEnqueued env event_id state max_attempts (key ∷ keys) n rows rows'
  taken :
      {key : Text} {keys : List Text} {n : ℕ} {rows rows' : List JobRow}
      → contains (env.uuid n) (job_ids rows) ≡ true
      → IsEnqueued env event_id state max_attempts keys (n + 4) rows rows'
      → IsEnqueued env event_id state max_attempts (key ∷ keys) n rows rows'
  wide :
      {key : Text} {keys : List Text} {n : ℕ} {rows rows' : List JobRow}
      → int32_max < max_attempts
      → IsEnqueued env event_id state max_attempts keys (n + 4) rows rows'
      → IsEnqueued env event_id state max_attempts (key ∷ keys) n rows rows'

-- The row that an insert adds, if it adds one.
data IsInserted (env : Env) (j : Job) (w w' : World) : Type 0 where
  inserted :
      env.fault w.step ≢ refused
      → contains j.event_id (event_ids w.events) ≡ true
      → w'.jobs ≡ w.jobs ++ record { job = j; running_since = none } ∷ []
      → IsInserted env j w w'
  refused_at : env.fault w.step ≡ refused → w'.jobs ≡ w.jobs → IsInserted env j w w'
  id_taken : contains j.id (job_ids w.jobs) ≡ true → w'.jobs ≡ w.jobs → IsInserted env j w w'
  not_fitting : fits_columns j ≡ false → w'.jobs ≡ w.jobs → IsInserted env j w w'
  no_event :
      contains j.event_id (event_ids w.events) ≡ false → w'.jobs ≡ w.jobs → IsInserted env j w w'

module _ (env : Env) where
  enqueue-IsInserted : (j : Job) (w : World) → IsInserted env j w (enqueue env j w).1
  unfolding enqueue exec insert_job
  enqueue-IsInserted j w = elim (Bool-cases (fits_columns j)) [
    | inr k ↦ not_fitting k (ground arith)
    | inl k ↦ elim (Bool-cases (contains j.event_id (event_ids w.events))) [
      | inr e ↦ no_event e (ground arith)
      | inl e ↦ elim (Bool-cases (contains j.id (job_ids w.jobs))) [
        | inl f ↦ id_taken f (ground arith)
        | inr f ↦ go (env.fault w.step) refl k e f
      ]
    ]
  ]
    where
      go :
          (x : Fault)
          → env.fault w.step ≡ x
          → fits_columns j ≡ true
          → contains j.event_id (event_ids w.events) ≡ true
          → contains j.id (job_ids w.jobs) ≡ false
          → IsInserted env j w (enqueue env j w).1
      go delivered x k e f = inserted (λ y. cc) e (ground arith)
      go refused x k e f = refused_at x (ground arith)
      go unacknowledged x k e f = inserted (λ y. cc) e (ground arith)

  events-enqueue : (j : Job) (w : World) → (enqueue env j w).1.events ≡ w.events
  unfolding enqueue exec insert_job
  events-enqueue j w = ground arith

module _ (env : Env) (h : Handler) (event_id : Text) (state : WorkflowState) where
  -- The world in which the next key's turn comes.
  unfoldable pub after_key : Text → World → World
  after_key key w =
      let (job, made) = new_job env event_id key state h.max_attempts w in (enqueue env job made).1

  pub enqueue_all_step :
      (key : Text) (keys : List Text) (w : World)
      → enqueue_all env h event_id state (key ∷ keys) w
        ≡ enqueue_all env h event_id state keys (after_key key w)
  unfolding enqueue_all after_key
  enqueue_all_step key keys w = ground arith

  events-after_key : (key : Text) (w : World) → (after_key key w).events ≡ w.events
  unfolding after_key new_job new_uuid time_now
  events-after_key key w = events-enqueue env _ _

  step-after_key : (key : Text) (w : World) → (after_key key w).step ≡ w.step + 4
  unfolding after_key new_job new_uuid time_now enqueue exec insert_job
  step-after_key key w = ground arith

  IsStep : Text → World → World → Type 0
  IsStep key w w' =
      (j : Job) × IsNew event_id state h.max_attempts key j
      × (j.id ≡ env.uuid w.step)
      × IsInserted env j (bump (bump (bump w))) w'

  after_key-IsStep : (key : Text) (w : World) → IsStep key w (after_key key w)
  unfolding IsStep after_key new_job new_uuid time_now
  after_key-IsStep key w = (
    _,
    (refl, refl, refl, refl, refl, refl, refl),
    refl,
    enqueue-IsInserted env _ (bump (bump (bump w))),
  )

  too_wide :
      {key : Text} (j : Job)
      → IsNew event_id state h.max_attempts key j
      → fits_columns j ≡ false
      → int32_max < h.max_attempts
  unfolding fits_columns
  too_wide j (_, _, _, _, _, none_used, bound) e = ground arith

  moved :
      (keys : List Text) {n : ℕ} {rows rows' out : List JobRow}
      → rows ≡ rows'
      → IsEnqueued env event_id state h.max_attempts keys n rows out
      → IsEnqueued env event_id state h.max_attempts keys n rows' out
  moved keys {n} {out = out} x =
      subst (λ r. IsEnqueued env event_id state h.max_attempts keys n r out) x

  pub enqueue_all-IsEnqueued :
      (keys : List Text) (n : ℕ) (w : World)
      → w.step ≡ n
      → contains event_id (event_ids w.events) ≡ true
      → IsEnqueued env event_id state h.max_attempts keys n w.jobs
          (enqueue_all env h event_id state keys w).1.jobs
  unfolding IsStep enqueue_all
  enqueue_all-IsEnqueued [] n w s there = all refl
  enqueue_all-IsEnqueued (key ∷ keys) n w s there =
      let w' = after_key key w in
      let (j, new, same_id, step) = after_key-IsStep key w in
      let rest =
        enqueue_all-IsEnqueued keys (n + 4) w' (step-after_key key w ∙ ap (λ m. m + 4) s)
          (rw (events-after_key key w) there) in
      let reached : (bump (bump (bump w))).step ≡ n + 3 = omega (arith, s) in
      let own : j.id ≡ env.uuid n = same_id ∙ ap env.uuid s in
      rw (enqueue_all_step key keys w) (elim step [
        | inserted kept found x ↦
            added j new own (λ g. kept (ap env.fault reached ∙ g)) (moved keys x rest)
        | refused_at f x ↦ lost (sym (ap env.fault reached) ∙ f) (moved keys x rest)
        | id_taken t x ↦ taken (rw (sym own) t) (moved keys x rest)
        | not_fitting m x ↦ wide (too_wide j new m) (moved keys x rest)
        | no_event m x ↦ absurd (cc (rw new.2 at m, there))
      ])

  pub events-enqueue_all :
      (keys : List Text) (w : World) → (enqueue_all env h event_id state keys w).1.events ≡ w.events
  unfolding enqueue_all
  events-enqueue_all [] w = refl
  events-enqueue_all (key ∷ keys) w =
      rw (enqueue_all_step key keys w)
        (events-enqueue_all keys (after_key key w) ∙ events-after_key key w)

  notices-after_key : (key : Text) (w : World) → (after_key key w).notices ≡ w.notices
  unfolding after_key new_job new_uuid time_now enqueue exec insert_job
  notices-after_key key w = ground arith

  pub notices-enqueue_all :
      (keys : List Text) (w : World)
      → (enqueue_all env h event_id state keys w).1.notices ≡ w.notices
  unfolding enqueue_all
  notices-enqueue_all [] w = refl
  notices-enqueue_all (key ∷ keys) w =
      rw (enqueue_all_step key keys w)
        (notices-enqueue_all keys (after_key key w) ∙ notices-after_key key w)

  pub step-enqueue_all :
      (keys : List Text) (w : World)
      → (enqueue_all env h event_id state keys w).1.step ≡ w.step + 4 * length keys
  unfolding enqueue_all
  step-enqueue_all [] w = omega arith
  step-enqueue_all (key ∷ keys) w =
      rw (enqueue_all_step key keys w)
        (omega (arith, step-enqueue_all keys (after_key key w), step-after_key key w))

pub event_ids-last :
    (rows : List EventRow) (r : EventRow) → contains r.id (event_ids (rows ++ r ∷ [])) ≡ true
unfolding contains
event_ids-last [] r = ground (arith, ==_iff r.id r.id)
event_ids-last (q ∷ rows) r = ground (arith, event_ids-last rows r)
