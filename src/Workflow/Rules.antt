-- ===== src/Workflow/Rules.antt =====
-- internal/workflow/rules.go. A result `(state, true)` is `some state`, and `("", false)` is `none`.
pub mod Table
use glsync.Base.{Text, Option, none, some, ◌==◌, if◌then◌else◌}
use glsync.Domain.{
  EventType, push, mr_opened, mr_merged, mr_draft, emoji_award, unrecognized, NormalizedEvent,
}
use glsync.Domain.States.{WorkflowState, in_progress, code_review, rfqa, done}

pub record RuleConfig : Type 0 where
  pub develop_branch : Text
  pub master_branch : Text

classify_push : NormalizedEvent → RuleConfig → Option WorkflowState
classify_push event cfg =
    if event.source_branch == cfg.develop_branch
    then some rfqa
    else if event.source_branch == cfg.master_branch
    then some done
    else some in_progress

classify_merge : NormalizedEvent → RuleConfig → Option WorkflowState
classify_merge event cfg =
    if event.target_branch == cfg.develop_branch
    then some rfqa
    else if event.target_branch == cfg.master_branch
    then none
    else none

-- The `switch` on `event.EventType`; emoji awards fall to its `default`.
dispatch : EventType → NormalizedEvent → RuleConfig → Option WorkflowState
unfolding classify_push classify_merge
dispatch push event cfg = classify_push event cfg
dispatch mr_opened event cfg = some code_review
dispatch mr_merged event cfg = classify_merge event cfg
dispatch mr_draft event cfg = none
dispatch unrecognized event cfg = none
dispatch emoji_award event cfg = none

unfoldable pub classify : NormalizedEvent → RuleConfig → Option WorkflowState
unfolding dispatch
classify event cfg = dispatch event.event_type event cfg
