-- ===== src/Worker/Processor/Retries.antt =====
-- A job in the rounds of the poll loop, which hands it to `process` of internal/worker/processor.go
-- until it is completed or dead.
use glsync.Base.{
  ℕ, zero, suc, ◌+◌, ◌≤◌, ◌<◌, Text, List, [], ◌∷◌, Bool, true, false, Option, none, some, ◌≡◌,
  refl, ◌∙◌, ap, arith, ◌==◌, ==_iff, Bool-cases, inl, inr, if◌then◌else◌, ◌⊎◌,
}
use glsync.Domain.{JobStatus, pending, running, failed}
use glsync.Domain
use glsync.Store.{JobRow, World, Env, delivered}
use glsync.Store.Jobs.{update_job, update_where, set_completed, set_failed, set_dead}
use glsync.Plugin.{Registry}
use glsync.Worker.Executor.{Executor}
use glsync.Worker.Processor.{process}
use glsync.Worker.Processor.Settle.{
  completed, retried, rejected, exhausted, lost, process-IsSettled,
}

unfoldable pub row_with : Text → List JobRow → Option JobRow
row_with id [] = none
row_with id (r ∷ rows) = let rest = row_with id rows in if r.id == id then some r else rest

abbrev pub is_over : JobStatus → Bool
is_over Domain.completed = true
is_over Domain.dead = true
is_over _ = false

row_with-id : (id : Text) (rows : List JobRow) (r : JobRow) → row_with id rows ≡ some r → r.id ≡ id
unfolding row_with
row_with-id id [] r h = cc
row_with-id id (s ∷ rows) r h = elim (Bool-cases (s.id == id)) [
  | inl e ↦ ground (arith, ==_iff s.id id)
  | inr e ↦ row_with-id id rows r (ground arith)
]

row_with-update_job :
    (id : Text) (f : JobRow → JobRow)
    → ((r : JobRow) → (f r).id ≡ r.id)
    → (rows : List JobRow) (r : JobRow) → row_with id rows ≡ some r
    → row_with id (update_job id f rows) ≡ some (f r)
unfolding row_with update_job update_where
row_with-update_job id f same [] r h = cc
row_with-update_job id f same (s ∷ rows) r h = elim (Bool-cases (s.id == id)) [
  | inl e ↦ ground (arith, same s)
  | inr e ↦ ground (arith, row_with-update_job id f same rows r)
]

-- A job is handed out once more, as the table holds it, up to `n` times and until it is over.
module _ (env : Env) (registry : Registry) (ex : Executor) where
  abbrev next_round : (World → World) → World → Option JobRow → World
  next_round again w none = w
  next_round again w (some r) =
      if is_over r.status then w else again (process env registry ex r.job w).1

  unfoldable pub rounds : ℕ → Text → World → World
  unfolding row_with
  rounds zero id w = w
  rounds (suc n) id w = next_round (rounds n id) w (row_with id w.jobs)

  -- What is left of a job that was processed once: it is over, or has an attempt more and some left.
  record IsFurther (r r' : JobRow) : Type 0 where
    pub same_bound : r'.max_attempts ≡ r.max_attempts
    pub counted : r'.attempts ≤ r.attempts + 1
    pub over_or_left :
        (is_over r'.status ≡ true)
        ⊎ ((r'.attempts ≡ r.attempts + 1) × (r'.attempts < r'.max_attempts))

module _ (env : Env) (registry : Registry) (ex : Executor)
    (faultless : (n : ℕ) → env.fault n ≡ delivered) where
  After : Text → JobRow → World → Type 0
  After id r w' = (r' : JobRow) × ((row_with id w'.jobs ≡ some r') × IsFurther env registry ex r r')

  updated-After :
      (id : Text) (f : JobRow → JobRow) (w w' : World) (r : JobRow)
      → ((s : JobRow) → (f s).id ≡ s.id)
      → row_with id w.jobs ≡ some r
      → w'.jobs ≡ update_job r.id f w.jobs
      → IsFurther env registry ex r (f r)
      → After id r w'
  unfolding After
  updated-After id f w w' r same here e step = (
    f r,
    (
      ap (row_with id) (e ∙ ap (λ k. update_job k f w.jobs) (row_with-id id w.jobs r here))
          ∙ row_with-update_job id f same w.jobs r here,
      step,
    ),
  )

  process-After :
      (id : Text) (w : World) (r : JobRow)
      → row_with id w.jobs ≡ some r
      → After id r (process env registry ex r.job w).1
  unfolding set_completed set_failed set_dead
  process-After id w r here =
      let w' = (process env registry ex r.job w).1 in
      elim (process-IsSettled env registry ex r.job w) [
        | completed now x e ↦
            updated-After id (set_completed now) w w' r (λ _. refl) here e
              (record { same_bound = refl; counted = omega arith; over_or_left = inl refl })
        | retried x now p q left e ↦
            updated-After id (set_failed x _) w w' r (λ _. refl) here e
              (record { same_bound = refl; counted = omega arith; over_or_left = inr (refl, left) })
        | rejected x code p q e ↦
            updated-After id (set_dead x) w w' r (λ _. refl) here e
              (record { same_bound = refl; counted = omega arith; over_or_left = inl refl })
        | exhausted x p last e ↦
            updated-After id (set_dead x) w w' r (λ _. refl) here e
              (record { same_bound = refl; counted = omega arith; over_or_left = inl refl })
        | lost n f e ↦ absurd (cc (faultless n, f))
      ]

  rounds-over :
      (n : ℕ) (id : Text) (w : World) (r : JobRow)
      → row_with id w.jobs ≡ some r
      → is_over r.status ≡ true
      → rounds env registry ex n id w ≡ w
  unfolding rounds
  rounds-over zero id w r here over = refl
  rounds-over (suc n) id w r here over = rw (here, over) refl

  -- A job that is over within its bound on attempts.
  pub record IsOver (id : Text) (bound : ℕ) (w : World) : Type 0 where
    pub row : JobRow
    pub held : row_with id w.jobs ≡ some row
    pub over : is_over row.status ≡ true
    pub within : row.attempts ≤ bound

  finished-IsOver :
      (n bound : ℕ) (id : Text) (w : World) (r : JobRow)
      → row_with id w.jobs ≡ some r
      → is_over r.status ≡ true
      → r.attempts ≤ bound
      → IsOver id bound (rounds env registry ex n id w)
  finished-IsOver n bound id w r here over within =
      rw (rounds-over n id w r here over)
        (record { row = r; held = here; over = over; within = within })

  -- If no statement meets a fault, a job that has attempts left is completed or dead after at most as
  -- many rounds as it has attempts left, whatever Jira answers, and counts no more attempts than its
  -- bound.
  pub rounds-IsOver :
      (n bound : ℕ) (id : Text) (w : World) (r : JobRow)
      → row_with id w.jobs ≡ some r
      → r.max_attempts ≡ bound
      → r.attempts < bound
      → bound ≤ r.attempts + n
      → IsOver id bound (rounds env registry ex n id w)
  unfolding rounds After
  rounds-IsOver zero bound id w r here b left enough = absurd (omega arith)
  rounds-IsOver (suc n) bound id w r here b left enough = elim (Bool-cases (is_over r.status)) [
    | inl over ↦ finished-IsOver (suc n) bound id w r here over (omega arith)
    | inr not_over ↦
        let (r', (there, step)) = process-After id w r here in
        rw (here, not_over)
          (elim step.over_or_left [
            | inl over ↦ finished-IsOver n bound id _ r' there over (omega (arith, step.counted))
            | inr more ↦
                rounds-IsOver n bound id _ r' there (step.same_bound ∙ b)
                  (omega (arith, more.1, step.same_bound)) (omega (arith, more.0))
          ])
  ]
