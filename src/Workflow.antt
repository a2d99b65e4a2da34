-- ===== src/Workflow.antt =====
-- internal/workflow: what an event asks for, which Jira transition that is, and when work is due.
pub mod Rules
pub mod Transition
pub mod DueDate
