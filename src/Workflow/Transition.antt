-- ===== src/Workflow/Transition.antt =====
-- internal/workflow/transition.go. The error of an unconfigured state is `none`.
use glsync.Base.{
  Text, text, List, Option, none, some, ◌≡◌, ◌≢◌, ◌↔◌, arith, ◌==◌, ==_iff, lookup, if◌then◌else◌,
}
use glsync.Domain.States.{WorkflowState, state_text}

pub record Resolver : Type 0 where
  pub transitions : List (Text × Text)

non_empty : Option Text → Option Text
non_empty none = none
non_empty (some id) = if id == text "" then none else some id

unfoldable pub resolve_transition_id : Resolver → WorkflowState → Option Text
unfolding non_empty
resolve_transition_id r state = non_empty (lookup (state_text state) r.transitions)

non_empty_iff :
    (o : Option Text) (id : Text) → (non_empty o ≡ some id) ↔ ((o ≡ some id) × (id ≢ text ""))
unfolding non_empty
non_empty_iff none id = (λ h. cc, λ h. cc h.0)
non_empty_iff (some i) id = (
  λ h. (ground (arith, ==_iff i (text "")), λ e. ground (arith, ==_iff i (text ""))),
  λ h. ground (arith, ==_iff i (text ""), h.1),
)

-- A state resolves to an id exactly if the map has that id for it, and the id is not empty.
resolve_iff :
    (r : Resolver) (s : WorkflowState) (id : Text)
    → (resolve_transition_id r s ≡ some id)
      ↔ ((lookup (state_text s) r.transitions ≡ some id) × (id ≢ text ""))
unfolding resolve_transition_id
resolve_iff r s id = non_empty_iff (lookup (state_text s) r.transitions) id
