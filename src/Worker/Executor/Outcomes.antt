-- ===== src/Worker/Executor/Outcomes.antt =====
-- The calls that internal/worker/executor.go makes of Jira, and their outcomes.
use glsync.Base.{
  ℕ, Float64, Text, text, [], ◌∷◌, ◌++◌, none, some, ◌≡◌, ◌≢◌, ◌⊎◌, ◌↔◌, inl, inr, arith, ==_iff,
  ==_refl, lookup, lookup-insert, Option-cases,
}
use glsync.Domain.{Job, jira_transition}
use glsync.Domain.States.{in_progress}
use glsync.Workflow.Transition.{resolve_transition_id}
use glsync.Workflow.DueDate.{day_of}
use glsync.Jira.{date, transition}
use glsync.Store.{World, Env}
use glsync.Store.Run.{time_now}
use glsync.Worker.Executor.{Executor, date_fields, execute}

module _ (env : Env) (e : Executor) where
  -- An execution writes nothing to the database.
  pub db-execute : (job : Job) (w : World) → (execute env e job w).1.db ≡ w.db
  unfolding execute time_now
  db-execute job w = ground arith

  -- A due date is never lost: of the three fields the due date's entry stands whatever the keys are,
  -- and the start date's stands where the two keys differ.
  lookup-date_fields :
      (sp : Float64) (today due : ℕ)
      → (lookup e.in_progress.due_date_field (date_fields env e sp today due)
          ≡ some (date (day_of e.zone due)))
        × (e.in_progress.due_date_field ≢ e.in_progress.start_date_field
            → lookup e.in_progress.start_date_field (date_fields env e sp today due)
              ≡ some (date (day_of e.zone today)))
  unfolding date_fields
  lookup-date_fields sp today due = (
    simp (lookup-insert, ==_refl),
    λ distinct. simp lookup-insert (
        ground (
          arith,
          ==_iff e.in_progress.due_date_field e.in_progress.start_date_field,
          ==_refl e.in_progress.start_date_field,
        )),
  )

  -- Of the Jira transitions whose target state is not In Progress: one whose state has no configured
  -- transition, or an empty id, counts as done without a call. Otherwise one transition of the job's own issue is asked for, with the configured id, and the job is
  -- done exactly if Jira accepts it.
  pub execute_configured :
      (job : Job) (w : World)
      → job.type ≡ jira_transition
      → job.target_state ≢ in_progress
      → ((resolve_transition_id e.resolver job.target_state ≡ none)
          × (execute env e job w ≡ (none, w)))
        ⊎ ((id : Text) × (resolve_transition_id e.resolver job.target_state ≡ some id)
            × ((execute env e job w).1.jira_calls
                ≡ w.jira_calls ++ transition job.issue_key id ∷ [])
            × (((execute env e job w).0 ≡ none)
                ↔ (e.jira.transition_issue w.step job.issue_key id ≡ none)))
  unfolding execute
  execute_configured job w t s =
      elim (Option-cases (resolve_transition_id e.resolver job.target_state)) [
        | inl n ↦ inl (n, ground arith)
        | inr (id, r) ↦ inr (id, r, ground arith, (λ h. ground arith, λ h. ground arith))
      ]

  -- Without a configured id a move to In Progress asks for nothing and succeeds.
  execute_unconfigured :
      (job : Job) (w : World)
      → job.type ≡ jira_transition
      → job.target_state ≡ in_progress
      → e.in_progress.transition_id ≡ text ""
      → execute env e job w ≡ (none, w)
  unfolding execute
  execute_unconfigured job w t s empty =
      ground (arith, ==_iff e.in_progress.transition_id (text ""))
