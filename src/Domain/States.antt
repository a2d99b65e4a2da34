-- ===== src/Domain/States.antt =====
-- The workflow states of internal/domain/domain.go.
use glsync.Base.{Text, text}

pub data WorkflowState : Type 0 where
  in_progress code_review rfqa done : WorkflowState

-- `string(state)`
abbrev pub state_text : WorkflowState → Text
state_text in_progress = text "in_progress"
state_text code_review = text "code_review"
state_text rfqa = text "rfqa"
state_text done = text "done"
