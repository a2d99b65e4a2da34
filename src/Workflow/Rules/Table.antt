-- ===== src/Workflow/Rules/Table.antt =====
-- The table of events and states of internal/workflow/rules.go, as a relation.
use glsync.Base.{◌≡◌, ◌≢◌, ◌↔◌, none, some, arith, ==_iff}
use glsync.Domain.{push, mr_opened, mr_merged, NormalizedEvent}
use glsync.Domain.States.{WorkflowState, in_progress, code_review, rfqa, done}
use glsync.Workflow.Rules.{RuleConfig, classify}

-- One constructor for each row; a configuration may name one branch twice, and then develop wins.
pub data Moves (e : NormalizedEvent) (cfg : RuleConfig) : WorkflowState → Type 0 where
  push_develop : e.event_type ≡ push → e.source_branch ≡ cfg.develop_branch → Moves e cfg rfqa
  push_master :
      e.event_type ≡ push
      → e.source_branch ≢ cfg.develop_branch
      → e.source_branch ≡ cfg.master_branch
      → Moves e cfg done
  push_other :
      e.event_type ≡ push
      → e.source_branch ≢ cfg.develop_branch
      → e.source_branch ≢ cfg.master_branch
      → Moves e cfg in_progress
  opened : e.event_type ≡ mr_opened → Moves e cfg code_review
  merged_develop :
      e.event_type ≡ mr_merged → e.target_branch ≡ cfg.develop_branch → Moves e cfg rfqa

module _ (e : NormalizedEvent) (cfg : RuleConfig) where
  classify_sound : (s : WorkflowState) → classify e cfg ≡ some s → Moves e cfg s
  unfolding classify
  classify_sound s h = grind (
    arith,
    ==_iff e.source_branch cfg.develop_branch,
    ==_iff e.source_branch cfg.master_branch,
    ==_iff e.target_branch cfg.develop_branch,
    push_develop,
    push_master,
    push_other,
    opened,
    merged_develop,
  )

  classify_complete : {s : WorkflowState} → Moves e cfg s → classify e cfg ≡ some s
  unfolding classify
  classify_complete (push_develop t b) = ground (arith, ==_iff e.source_branch cfg.develop_branch)
  classify_complete (push_master t n b) =
      ground
        (arith, ==_iff e.source_branch cfg.develop_branch, ==_iff e.source_branch cfg.master_branch)
  classify_complete (push_other t n m) =
      ground
        (arith, ==_iff e.source_branch cfg.develop_branch, ==_iff e.source_branch cfg.master_branch)
  classify_complete (opened t) = ground arith
  classify_complete (merged_develop t b) = ground (arith, ==_iff e.target_branch cfg.develop_branch)

  -- `classify` returns exactly the state of the table's row: pushes by their branch, opened merge
  -- requests, and merges into develop; for every other event it returns no state.
  pub classify_iff : (s : WorkflowState) → (classify e cfg ≡ some s) ↔ Moves e cfg s
  classify_iff s = (classify_sound s, classify_complete)

  -- A merge into master asks for nothing when master is not also the develop branch.
  merged_master_ignored :
      e.event_type ≡ mr_merged
      → e.target_branch ≡ cfg.master_branch
      → cfg.master_branch ≢ cfg.develop_branch
      → classify e cfg ≡ none
  unfolding classify
  merged_master_ignored t b n = ground (arith, ==_iff e.target_branch cfg.develop_branch)
