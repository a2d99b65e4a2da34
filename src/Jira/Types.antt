-- ===== src/Jira/Types.antt =====
-- internal/integration/jira/types.go: the responses that the client decodes, filled by the rules of
-- encoding/json, and the text of a JiraHTTPError.
use glsync.Base.{
  Text, text, List, [], Option, none, some, Float64, to_float, ℕ, decimal, ◌++◌, if◌then◌else◌,
}
use glsync.Json.{
  Json, null, int, real, Decoded, ok, err, mismatch, ◌>>=◌, equal_fold, to_string, to_struct,
  to_slice,
}

-- `to` is the struct's one field, `to.name`.
pub record Transition : Type 0 where
  pub id : Text
  pub name : Text
  pub to : Text

pub record TransitionsResponse : Type 0 where
  pub transitions : List Transition

-- `status` is the struct's one field, `status.name`.
pub record IssueFields : Type 0 where
  pub status : Text
  pub story_points : Option Float64

pub record IssueResponse : Type 0 where
  pub key : Text
  pub fields : IssueFields

abbrev zero_transition : Transition
zero_transition = record { id = []; name = []; to = [] }

abbrev pub zero_transitions : TransitionsResponse
zero_transitions = record { transitions = [] }

abbrev pub zero_issue : IssueResponse
zero_issue = record { key = []; fields = record { status = []; story_points = none } }

set_name : Text → Text → Json → Decoded Text
set_name old k v = if equal_fold k (text "name") then to_string old v else ok old

set_transition : Transition → Text → Json → Decoded Transition
unfolding set_name
set_transition t k v =
    if equal_fold k (text "id")
    then (do x ← to_string t.id v; ok (record t { id = x }))
    else if equal_fold k (text "name")
    then (do x ← to_string t.name v; ok (record t { name = x }))
    else if equal_fold k (text "to")
    then (do x ← to_struct set_name t.to v; ok (record t { to = x }))
    else ok t

unfoldable pub set_transitions : TransitionsResponse → Text → Json → Decoded TransitionsResponse
unfolding set_transition
set_transitions r k v =
    if equal_fold k (text "transitions")
    then (do
      x ← to_slice (to_struct set_transition zero_transition) v
      ok (record { transitions = x }))
    else ok r

-- A null makes the pointer nil.
to_float_pointer : Json → Decoded (Option Float64)
to_float_pointer null = ok none
to_float_pointer (int i) = ok (some (to_float i))
to_float_pointer (real f) = ok (some f)
to_float_pointer _ = err mismatch

set_issue_fields : IssueFields → Text → Json → Decoded IssueFields
unfolding set_name to_float_pointer
set_issue_fields f k v =
    if equal_fold k (text "status")
    then (do x ← to_struct set_name f.status v; ok (record f { status = x }))
    else if equal_fold k (text "customfield_10027")
    then (do x ← to_float_pointer v; ok (record f { story_points = x }))
    else ok f

unfoldable pub set_issue : IssueResponse → Text → Json → Decoded IssueResponse
unfolding set_issue_fields
set_issue r k v =
    if equal_fold k (text "key")
    then (do x ← to_string r.key v; ok (record r { key = x }))
    else if equal_fold k (text "fields")
    then (do x ← to_struct set_issue_fields r.fields v; ok (record r { fields = x }))
    else ok r

-- `JiraHTTPError.Error`
unfoldable pub http_error_text : ℕ → Text → Text
http_error_text code body = text "jira returned " ++ (decimal code ++ (text ": " ++ body))
